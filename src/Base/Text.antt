-- ===== src/Base/Text.antt =====
-- Python's text operations. `strip` removes every character that `str.isspace` accepts; `lower` and
-- `upper` change the ASCII letters only.
use Prim.Native.Nat.{ℕ, zero, suc, ◌-◌}
use Prim.Native.Char.{Char, code}
use Prim.Native.String.{String, ◌++◌ as ◌<>◌}
use mathlib.Core.List.{List, [], ◌∷◌}
use mathlib.Core.Bool.{Bool, true, false, not, ◌&&◌, ◌||◌}
use text.Mathlib.Text.{◌==◌}
use lantern_task_manager.Base.Tests.{leb, ltb, eqb, if◌then◌else◌}

-- `s[:n]`
unfoldable pub clip : ℕ → String → String
clip zero s = ""
clip (suc n) String.[] = ""
clip (suc n) (String.◌∷◌ c s) = String.◌∷◌ c (clip n s)

is_space : ℕ → Bool
is_space c =
    (leb 9 c && leb c 13)
    || (leb 28 c && leb c 32)
    || eqb c 0x85
    || eqb c 0xa0
    || eqb c 0x1680
    || (leb 0x2000 c && leb c 0x200a)
    || eqb c 0x2028
    || eqb c 0x2029
    || eqb c 0x202f
    || eqb c 0x205f
    || eqb c 0x3000

lstrip : String → String
lstrip String.[] = ""
lstrip (String.◌∷◌ c s) = if is_space (code c) then lstrip s else String.◌∷◌ c s

rstrip : String → String
rstrip String.[] = ""
rstrip (String.◌∷◌ c s) =
    let rest = rstrip s in if is_space (code c) && rest == "" then "" else String.◌∷◌ c rest

-- `s.strip()`
unfoldable pub strip : String → String
unfolding lstrip rstrip is_space
strip s = rstrip (lstrip s)

-- The character at a position of a table, or the given one.
nth : String → ℕ → Char → Char
nth String.[] i d = d
nth (String.◌∷◌ c s) zero d = c
nth (String.◌∷◌ c s) (suc i) d = nth s i d

lower_char : Char → Char
lower_char c =
    if leb b'A' (code c) && leb (code c) b'Z'
    then nth "abcdefghijklmnopqrstuvwxyz" (code c - b'A') c
    else c

upper_char : Char → Char
upper_char c =
    if leb b'a' (code c) && leb (code c) b'z'
    then nth "ABCDEFGHIJKLMNOPQRSTUVWXYZ" (code c - b'a') c
    else c

-- `s.lower()`
unfoldable pub lower : String → String
unfolding nth lower_char
lower String.[] = ""
lower (String.◌∷◌ c s) = String.◌∷◌ (lower_char c) (lower s)

-- `s.upper()`
unfoldable pub upper : String → String
unfolding nth upper_char
upper String.[] = ""
upper (String.◌∷◌ c s) = String.◌∷◌ (upper_char c) (upper s)

-- Python's truth value of a text.
abbrev pub truthy : String → Bool
truthy s = not (s == "")

-- `s or d`
abbrev pub text_or : String → String → String
text_or s d = if truthy s then s else d

-- `s.startswith(prefix)`
unfoldable pub starts_with : String → String → Bool
starts_with String.[] s = true
starts_with (String.◌∷◌ c prefix) String.[] = false
starts_with (String.◌∷◌ c prefix) (String.◌∷◌ d s) = eqb (code c) (code d) && starts_with prefix s

-- `part in s`
unfoldable pub contains : String → String → Bool
unfolding starts_with
contains part String.[] = starts_with part ""
contains part (String.◌∷◌ c s) = starts_with part (String.◌∷◌ c s) || contains part s

-- `s.endswith(suffix)`
unfoldable pub ends_with : String → String → Bool
ends_with suffix String.[] = suffix == ""
ends_with suffix (String.◌∷◌ c s) = suffix == String.◌∷◌ c s || ends_with suffix s

-- `s[1:]`
unfoldable pub rest_of : String → String
rest_of String.[] = ""
rest_of (String.◌∷◌ c s) = s

char_in : Char → String → Bool
char_in c String.[] = false
char_in c (String.◌∷◌ d s) = eqb (code c) (code d) || char_in c s

-- `s.lstrip(chars)`
unfoldable pub lstrip_chars : String → String → String
unfolding char_in
lstrip_chars chars String.[] = ""
lstrip_chars chars (String.◌∷◌ c s) =
    let rest = lstrip_chars chars s in if char_in c chars then rest else String.◌∷◌ c s

-- `s.rstrip(chars)`
unfoldable pub rstrip_chars : String → String → String
unfolding char_in
rstrip_chars chars String.[] = ""
rstrip_chars chars (String.◌∷◌ c s) =
    let rest = rstrip_chars chars s in
    if char_in c chars && rest == "" then "" else String.◌∷◌ c rest

drop_prefix : String → String → String
drop_prefix String.[] s = s
drop_prefix (String.◌∷◌ c prefix) String.[] = ""
drop_prefix (String.◌∷◌ c prefix) (String.◌∷◌ d s) = drop_prefix prefix s

-- `s.replace(old, new, 1)`
unfoldable pub replace_first : String → String → String → String
unfolding drop_prefix
replace_first old new String.[] = if old == "" then new else ""
replace_first old new (String.◌∷◌ c s) =
    let rest = replace_first old new s in
    if starts_with old (String.◌∷◌ c s)
    then new <> drop_prefix old (String.◌∷◌ c s)
    else String.◌∷◌ c rest

-- `s <= t`
unfoldable pub text_leb : String → String → Bool
text_leb String.[] t = true
text_leb (String.◌∷◌ c s) String.[] = false
text_leb (String.◌∷◌ c s) (String.◌∷◌ d t) =
    ltb (code c) (code d) || (eqb (code c) (code d) && text_leb s t)

-- `separator.join(texts)`
unfoldable pub join : String → List String → String
join separator [] = ""
join separator (s ∷ []) = s
join separator (s ∷ t ∷ texts) = s <> separator <> join separator (t ∷ texts)

-- `len(s)`
unfoldable pub chars : String → ℕ
chars String.[] = 0
chars (String.◌∷◌ c s) = suc (chars s)

-- `s.replace(old, new)` for a single character and a text.
unfoldable pub replace_char : ℕ → String → String → String
replace_char old new String.[] = ""
replace_char old new (String.◌∷◌ c s) =
    let rest = replace_char old new s in if eqb (code c) old then new <> rest else String.◌∷◌ c rest
