-- ===== src/Base/Lists.antt =====
-- Lists measured by native numbers, and Python's filters, slices and any().
use Prim.Native.Nat.{ℕ, zero, suc, ◌+◌, ◌-◌, ◌≤◌, min}
use mathlib.Core.Path.{◌≡◌, refl, ◌∙◌}
use mathlib.Core.Bool.{Bool, true, false, ◌&&◌, ◌||◌}
use mathlib.Core.List.{List, [], ◌∷◌, ◌++◌}
use native.Mathlib.Omega.{arith}
use lantern_task_manager.Base.Tests.{if◌then◌else◌}

pub data Empty {ℓ} : Type ℓ where

module _ {ℓ} {A : Type ℓ} where
  abbrev pub length : List A → ℕ
  length [] = 0
  length (x ∷ xs) = suc (length xs)

  abbrev pub take : ℕ → List A → List A
  take zero xs = []
  take (suc n) [] = []
  take (suc n) (x ∷ xs) = x ∷ take n xs

  abbrev pub drop : ℕ → List A → List A
  drop zero xs = xs
  drop (suc n) [] = []
  drop (suc n) (x ∷ xs) = drop n xs

  -- `[x for x in xs if p(x)]`
  abbrev pub keep : (A → Bool) → List A → List A
  keep p [] = []
  keep p (x ∷ xs) = let rest = keep p xs in if p x then x ∷ rest else rest

  -- `any(p(x) for x in xs)`
  abbrev pub any_of : (A → Bool) → List A → Bool
  any_of p [] = false
  any_of p (x ∷ xs) = p x || any_of p xs

  abbrev pub All {κ} : (A → Type κ) → List A → Type κ
  All P [] = Unit
  All P (x ∷ xs) = P x × All P xs

  pub length-append : (xs ys : List A) → length (xs ++ ys) ≡ length xs + length ys
  length-append [] ys = omega arith
  length-append (x ∷ xs) ys = omega (arith, length-append xs ys)

  pub length-take : (n : ℕ) (xs : List A) → length (take n xs) ≡ min n (length xs)
  length-take zero xs = omega arith
  length-take (suc n) [] = omega arith
  length-take (suc n) (x ∷ xs) = omega (arith, length-take n xs)

  pub length-drop : (n : ℕ) (xs : List A) → length (drop n xs) ≡ length xs - n
  length-drop zero xs = omega arith
  length-drop (suc n) [] = omega arith
  length-drop (suc n) (x ∷ xs) = omega (arith, length-drop n xs)

  pub length-keep : (p : A → Bool) (xs : List A) → length (keep p xs) ≤ length xs
  length-keep p [] = omega arith
  length-keep p (x ∷ xs) = ground (arith, length-keep p xs)

  pub keep-All : (p : A → Bool) (xs : List A) → All (λ x. p x ≡ true) (keep p xs)
  keep-All p [] = tt
  keep-All p (x ∷ xs) = ground (arith, keep-All p xs)

  pub take-All {κ} : (P : A → Type κ) (n : ℕ) (xs : List A) → All P xs → All P (take n xs)
  take-All P zero xs h = tt
  take-All P (suc n) [] h = tt
  take-All P (suc n) (x ∷ xs) h = (h.0, take-All P n xs h.1)

  pub All-append {κ} : (P : A → Type κ) (xs ys : List A) → All P xs → All P ys → All P (xs ++ ys)
  All-append P [] ys hx hy = hy
  All-append P (x ∷ xs) ys hx hy = (hx.0, All-append P xs ys hx.1 hy)

  -- `xs` is the beginning of `ys`.
  abbrev pub Begins : List A → List A → Type ℓ
  Begins [] ys = Unit
  Begins (x ∷ xs) [] = Empty
  Begins (x ∷ xs) (y ∷ ys) = (x ≡ y) × Begins xs ys

  pub Begins-append : (xs ys : List A) → Begins xs (xs ++ ys)
  Begins-append [] ys = tt
  Begins-append (x ∷ xs) ys = (refl, Begins-append xs ys)

  pub Begins-refl : (xs : List A) → Begins xs xs
  Begins-refl [] = tt
  Begins-refl (x ∷ xs) = (refl, Begins-refl xs)

  pub Begins-trans : (xs ys zs : List A) → Begins xs ys → Begins ys zs → Begins xs zs
  Begins-trans [] ys zs h k = tt
  Begins-trans (x ∷ xs) [] zs h k = elim h [ ]
  Begins-trans (x ∷ xs) (y ∷ ys) [] h k = elim k [ ]
  Begins-trans (x ∷ xs) (y ∷ ys) (z ∷ zs) h k = (h.0 ∙ k.0, Begins-trans xs ys zs h.1 k.1)

  pub All-map {κ κ'} :
      (P : A → Type κ) (Q : A → Type κ') (xs : List A) → ((x : A) → P x → Q x) → All P xs → All Q xs
  All-map P Q [] f h = tt
  All-map P Q (x ∷ xs) f h = (f x h.0, All-map P Q xs f h.1)

  pub All-keep {κ} : (P : A → Type κ) (p : A → Bool) (xs : List A) → All P xs → All P (keep p xs)
  All-keep P p [] h = tt
  All-keep P p (x ∷ xs) h = ground (arith, h, All-keep P p xs h.1)

  pub count-keep :
      (p q : A → Bool) (xs : List A)
      → length (keep p (keep q xs)) ≡ length (keep (λ x. q x && p x) xs)
  count-keep p q [] = refl
  count-keep p q (x ∷ xs) = ground (arith, count-keep p q xs)

  pub any_of-keep :
      (p q : A → Bool) (xs : List A) → any_of p (keep q xs) ≡ any_of (λ x. q x && p x) xs
  any_of-keep p q [] = refl
  any_of-keep p q (x ∷ xs) = ground (arith, any_of-keep p q xs)
