-- ===== src/Storage/Repository/PublicId.antt =====
-- `_public_id`: `f"LTM-{dept.value}-{year}-{seq:04d}"`, with the decimal text of a number.
pub mod Unique
use Prim.Native.Char.{Char, code}
use lantern_task_manager.Base.{
  ℕ, zero, suc, ◌+◌, ◌-◌, ◌*◌, ◌/◌, ◌%◌, String, ◌<>◌, ltb, if◌then◌else◌,
}
use lantern_task_manager.Domain.Enums.{DeptCode, dept_value}

abbrev digit_char : ℕ → Char
digit_char zero = "0"
digit_char (suc zero) = "1"
digit_char (suc (suc zero)) = "2"
digit_char (suc (suc (suc zero))) = "3"
digit_char (suc (suc (suc (suc zero)))) = "4"
digit_char (suc (suc (suc (suc (suc zero))))) = "5"
digit_char (suc (suc (suc (suc (suc (suc zero)))))) = "6"
digit_char (suc (suc (suc (suc (suc (suc (suc zero))))))) = "7"
digit_char (suc (suc (suc (suc (suc (suc (suc (suc zero)))))))) = "8"
digit_char _ = "9"

-- The digits of a number before a text; a number has fewer digits than it has units, so the number
-- itself, and one more, is fuel enough.
decimal_onto : ℕ → ℕ → String → String
decimal_onto zero n rest = rest
decimal_onto (suc fuel) n rest =
    let shown = String.◌∷◌ (digit_char (n % 10)) rest in
    let more = decimal_onto fuel (n / 10) shown in if ltb n 10 then shown else more

-- `str(n)`
unfoldable pub decimal : ℕ → String
unfolding decimal_onto
decimal n = decimal_onto (suc n) n ""

abbrev zero_before : String → String
zero_before s = String.◌∷◌ "0" s

-- Zeros in front, up to a width of four.
pad4 : String → String
pad4 String.[] = "0000"
pad4 (String.◌∷◌ a String.[]) = zero_before (zero_before (zero_before (String.◌∷◌ a "")))
pad4 (String.◌∷◌ a (String.◌∷◌ b String.[])) =
    zero_before (zero_before (String.◌∷◌ a (String.◌∷◌ b "")))
pad4 (String.◌∷◌ a (String.◌∷◌ b (String.◌∷◌ c String.[]))) =
    zero_before (String.◌∷◌ a (String.◌∷◌ b (String.◌∷◌ c "")))
pad4 s = s

-- `f"{seq:04d}"`
unfoldable pub decimal4 : ℕ → String
unfolding pad4 decimal
decimal4 n = pad4 (decimal n)

unfoldable pub public_id : DeptCode → ℕ → ℕ → String
unfolding decimal4 dept_value
public_id dept year seq = "LTM-" <> dept_value dept <> "-" <> decimal year <> "-" <> decimal4 seq
