-- ===== src/Storage/Repository/PublicId/Unique.antt =====
-- Reading a public id back into its department, year and number.
use Prim.Native.Char.{code}
use Prim.Native.String.append
use mathlib.Core.Option.{some-injective}
use text.Mathlib.TextLemmas.{append_cancel_left}
use lantern_task_manager.Base.{
  ◌≡◌, refl, sym, ap, ℕ, zero, suc, ◌+◌, ◌-◌, ◌*◌, ◌/◌, ◌%◌, ◌<◌, String, ◌<>◌, ltb, eqb, Bool,
  true, false, not, ◌&&◌, ◌∙◌, if◌then◌else◌, arith, Bool-cases, inl, inr, truthy, eq_iff,
}
use lantern_task_manager.Domain.Enums.{
  DeptCode, dept_value, fin, dept_of_value, dept_of_value-dept_value,
}
use lantern_task_manager.Storage.Repository.PublicId.{
  decimal, decimal_onto, pad4, decimal4, public_id, digit_char,
}

-- The value of a text of digits, read from the left after a number.
read_onto : ℕ → String → ℕ
read_onto n String.[] = n
read_onto n (String.◌∷◌ c s) = read_onto (n * 10 + (code c - 48)) s

code-digit_char : (d : ℕ) → d < 10 → code (digit_char d) ≡ d + 48
code-digit_char zero h = refl
code-digit_char (suc zero) h = refl
code-digit_char (suc (suc zero)) h = refl
code-digit_char (suc (suc (suc zero))) h = refl
code-digit_char (suc (suc (suc (suc zero)))) h = refl
code-digit_char (suc (suc (suc (suc (suc zero))))) h = refl
code-digit_char (suc (suc (suc (suc (suc (suc zero)))))) h = refl
code-digit_char (suc (suc (suc (suc (suc (suc (suc zero))))))) h = refl
code-digit_char (suc (suc (suc (suc (suc (suc (suc (suc zero)))))))) h = refl
code-digit_char (suc (suc (suc (suc (suc (suc (suc (suc (suc zero))))))))) h = refl
code-digit_char (suc (suc (suc (suc (suc (suc (suc (suc (suc (suc d)))))))))) h =
    absurd (omega arith)

read-decimal_onto :
    (fuel n : ℕ) (rest : String)
    → n < fuel
    → read_onto 0 (decimal_onto fuel n rest) ≡ read_onto n rest
unfolding decimal_onto read_onto
read-decimal_onto zero n rest h = absurd (omega arith)
read-decimal_onto (suc fuel) n rest h = elim (Bool-cases (ltb n 10)) [
  | inl small ↦ rw small (ap (λ k. read_onto k rest) (ground (arith, code-digit_char (n % 10))))
  | inr large ↦ rw large (
      read-decimal_onto fuel (n / 10) _ (ground arith)
      ∙ ap (λ k. read_onto k rest) (ground (arith, code-digit_char (n % 10))))
]

read-decimal : (n : ℕ) → read_onto 0 (decimal n) ≡ n
unfolding decimal read_onto
read-decimal n = read-decimal_onto (suc n) n "" (omega arith)

read-pad4 : (s : String) → read_onto 0 (pad4 s) ≡ read_onto 0 s
unfolding pad4 read_onto
read-pad4 String.[] = refl
read-pad4 (String.◌∷◌ a String.[]) = refl
read-pad4 (String.◌∷◌ a (String.◌∷◌ b String.[])) = refl
read-pad4 (String.◌∷◌ a (String.◌∷◌ b (String.◌∷◌ c String.[]))) = refl
read-pad4 (String.◌∷◌ a (String.◌∷◌ b (String.◌∷◌ c (String.◌∷◌ d s)))) = refl

read-decimal4 : (n : ℕ) → read_onto 0 (decimal4 n) ≡ n
unfolding decimal4
read-decimal4 n = read-pad4 (decimal n) ∙ read-decimal n

-- The text before the first dash, and the text behind it.
before_dash : String → String
before_dash String.[] = ""
before_dash (String.◌∷◌ c s) = if eqb (code c) b'-' then "" else String.◌∷◌ c (before_dash s)

after_dash : String → String
after_dash String.[] = ""
after_dash (String.◌∷◌ c s) = if eqb (code c) b'-' then s else after_dash s

no_dash : String → Bool
no_dash String.[] = true
no_dash (String.◌∷◌ c s) = not (eqb (code c) b'-') && no_dash s

dash-append : (t : String) → "-" <> t ≡ String.◌∷◌ "-" t
dash-append t = append.cons "-" "" t ∙ ap (String.◌∷◌ "-") (append.nil t)

before_dash-append : (s t : String) → no_dash s ≡ true → before_dash (s <> "-" <> t) ≡ s
unfolding before_dash no_dash
before_dash-append String.[] t h = rw (append.nil _, dash-append)
before_dash-append (String.◌∷◌ c s) t h =
    rw (append.cons c s _) (ground (arith, before_dash-append s t))

after_dash-append : (s t : String) → no_dash s ≡ true → after_dash (s <> "-" <> t) ≡ t
unfolding after_dash no_dash
after_dash-append String.[] t h = rw (append.nil _, dash-append)
after_dash-append (String.◌∷◌ c s) t h =
    rw (append.cons c s _) (ground (arith, after_dash-append s t))

no_dash-decimal_onto :
    (fuel n : ℕ) (rest : String) → no_dash rest ≡ true → no_dash (decimal_onto fuel n rest) ≡ true
unfolding decimal_onto no_dash
no_dash-decimal_onto zero n rest h = h
no_dash-decimal_onto (suc fuel) n rest h = ground (
  arith,
  code-digit_char (n % 10),
  no_dash-decimal_onto fuel (n / 10) (String.◌∷◌ (digit_char (n % 10)) rest),
)

no_dash-decimal : (n : ℕ) → no_dash (decimal n) ≡ true
unfolding decimal no_dash
no_dash-decimal n = no_dash-decimal_onto (suc n) n "" refl

no_dash-dept_value : (d : DeptCode) → no_dash (dept_value d) ≡ true
unfolding dept_value no_dash
no_dash-dept_value fin = refl
no_dash-dept_value _ = refl

dept_value-injective : (d e : DeptCode) → dept_value d ≡ dept_value e → d ≡ e
dept_value-injective d e h =
    some-injective d e
      (sym (dept_of_value-dept_value d) ∙ (ap dept_of_value h ∙ dept_of_value-dept_value e))

-- What stands behind "LTM-" in two equal ids is equal.
behind_prefix : (s t : String) → "LTM-" <> s ≡ "LTM-" <> t → s ≡ t
behind_prefix s t h = append_cancel_left "LTM-" s t h

-- Two public ids are equal only if their departments, years and sequence numbers are, whatever the
-- number of digits.
pub public_id-injective :
    (d e : DeptCode) (year year' seq seq' : ℕ)
    → public_id d year seq ≡ public_id e year' seq'
    → (d ≡ e) × (year ≡ year') × (seq ≡ seq')
unfolding public_id
public_id-injective d e year year' seq seq' h =
    let behind = behind_prefix _ _ h in
    let tail = ap after_dash behind in
    let depts =
      sym (before_dash-append (dept_value d) _ (no_dash-dept_value d))
      ∙ (ap before_dash behind ∙ before_dash-append (dept_value e) _ (no_dash-dept_value e)) in
    let years_on =
      sym (after_dash-append (dept_value d) _ (no_dash-dept_value d))
      ∙ (tail ∙ after_dash-append (dept_value e) _ (no_dash-dept_value e)) in
    let years =
      sym (before_dash-append (decimal year) _ (no_dash-decimal year))
      ∙ (ap before_dash years_on ∙ before_dash-append (decimal year') _ (no_dash-decimal year')) in
    let seqs =
      sym (after_dash-append (decimal year) _ (no_dash-decimal year))
      ∙ (ap after_dash years_on ∙ after_dash-append (decimal year') _ (no_dash-decimal year')) in
    (
      dept_value-injective d e depts,
      sym (read-decimal year) ∙ (ap (read_onto 0) years ∙ read-decimal year'),
      sym (read-decimal4 seq) ∙ (ap (read_onto 0) seqs ∙ read-decimal4 seq'),
    )

full : String → Bool
full String.[] = false
full (String.◌∷◌ c s) = true

never_empty : (s : String) → "LTM-" <> s ≡ "" → ⊥
unfolding full
never_empty s h =
    let p : true ≡ false = sym (ap full (append.cons "L" "TM-" s)) ∙ ap full h in ground arith

-- Python takes every public id for true.
pub public_id-truthy : (dept : DeptCode) (year seq : ℕ) → truthy (public_id dept year seq) ≡ true
unfolding public_id
public_id-truthy dept year seq =
    let rest = dept_value dept <> "-" <> decimal year <> "-" <> decimal4 seq in
    ground (arith, eq_iff ("LTM-" <> rest) "", never_empty rest)
