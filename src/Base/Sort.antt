-- ===== src/Base/Sort.antt =====
-- `ORDER BY` one column: rows that agree in it keep their order.
use Prim.Native.Nat.{ℕ, zero, suc, ◌≤◌}
use mathlib.Core.Path.{◌≡◌, refl}
use mathlib.Core.Bool.{Bool, ◌||◌}
use mathlib.Core.List.{List, [], ◌∷◌}
use native.Mathlib.Omega.{arith}
use mathlib.Core.Logic.{inl, inr}
use lantern_task_manager.Base.Tests.{leb, if◌then◌else◌, Bool-cases}
use lantern_task_manager.Base.Lists.{All, All-keep, length, any_of, keep, take, take-All}

module _ {ℓ} {A : Type ℓ} (column : A → ℕ) where
  insert_ordered : A → List A → List A
  insert_ordered x [] = x ∷ []
  insert_ordered x (y ∷ ys) =
      if leb (column x) (column y) then x ∷ y ∷ ys else y ∷ insert_ordered x ys

  unfoldable pub order_by : List A → List A
  unfolding insert_ordered
  order_by [] = []
  order_by (x ∷ xs) = insert_ordered x (order_by xs)

  -- Each row is no later in the column than all that follow it.
  abbrev pub IsOrdered : List A → Type 0
  IsOrdered [] = Unit
  IsOrdered (x ∷ xs) = All (λ y. column x ≤ column y) xs × IsOrdered xs

  insert_ordered-All {κ} :
      (P : A → Type κ) (x : A) (xs : List A) → P x → All P xs → All P (insert_ordered x xs)
  unfolding insert_ordered
  insert_ordered-All P x [] h all = (h, tt)
  insert_ordered-All P x (y ∷ ys) h all = elim (Bool-cases (leb (column x) (column y))) [
    | inl e ↦ rw e (h, all)
    | inr e ↦ rw e (all.0, insert_ordered-All P x ys h all.1)
  ]

  pub order_by-All {κ} : (P : A → Type κ) (xs : List A) → All P xs → All P (order_by xs)
  unfolding order_by
  order_by-All P [] all = tt
  order_by-All P (x ∷ xs) all = insert_ordered-All P x (order_by xs) all.0 (order_by-All P xs all.1)

  All-le : (a b : ℕ) (xs : List A) → a ≤ b → All (λ y. b ≤ column y) xs → All (λ y. a ≤ column y) xs
  All-le a b [] h all = tt
  All-le a b (x ∷ xs) h all = (omega arith, All-le a b xs h all.1)

  insert_ordered-IsOrdered : (x : A) (xs : List A) → IsOrdered xs → IsOrdered (insert_ordered x xs)
  unfolding insert_ordered
  insert_ordered-IsOrdered x [] h = (tt, tt)
  insert_ordered-IsOrdered x (y ∷ ys) h = elim (Bool-cases (leb (column x) (column y))) [
    | inl e ↦
        let le : column x ≤ column y = ground arith in
        rw e ((le, All-le (column x) (column y) ys le h.0), h)
    | inr e ↦ rw e (
      insert_ordered-All (λ z. column y ≤ column z) x ys (ground arith) h.0,
      insert_ordered-IsOrdered x ys h.1,
    )
  ]

  pub order_by-IsOrdered : (xs : List A) → IsOrdered (order_by xs)
  unfolding order_by
  order_by-IsOrdered [] = tt
  order_by-IsOrdered (x ∷ xs) = insert_ordered-IsOrdered x (order_by xs) (order_by-IsOrdered xs)

  length-insert_ordered : (x : A) (xs : List A) → length (insert_ordered x xs) ≡ suc (length xs)
  unfolding insert_ordered
  length-insert_ordered x [] = refl
  length-insert_ordered x (y ∷ ys) = ground (arith, length-insert_ordered x ys)

  pub length-order_by : (xs : List A) → length (order_by xs) ≡ length xs
  unfolding order_by
  length-order_by [] = refl
  length-order_by (x ∷ xs) =
      omega (arith, length-insert_ordered x (order_by xs), length-order_by xs)

  count-insert_ordered :
      (p : A → Bool) (x : A) (xs : List A)
      → length (keep p (insert_ordered x xs)) ≡ length (keep p (x ∷ xs))
  unfolding insert_ordered
  count-insert_ordered p x [] = refl
  count-insert_ordered p x (y ∷ ys) = ground (arith, count-insert_ordered p x ys)

  -- Ordering keeps the number of rows that meet a test.
  pub count-order_by :
      (p : A → Bool) (xs : List A) → length (keep p (order_by xs)) ≡ length (keep p xs)
  unfolding order_by
  count-order_by p [] = refl
  count-order_by p (x ∷ xs) =
      ground (arith, count-insert_ordered p x (order_by xs), count-order_by p xs)

  -- A filter keeps the order.
  pub keep-IsOrdered : (p : A → Bool) (xs : List A) → IsOrdered xs → IsOrdered (keep p xs)
  keep-IsOrdered p [] h = tt
  keep-IsOrdered p (x ∷ xs) h = elim (Bool-cases (p x)) [
    | inl e ↦ rw e (All-keep (λ y. column x ≤ column y) p xs h.0, keep-IsOrdered p xs h.1)
    | inr e ↦ rw e (keep-IsOrdered p xs h.1)
  ]

  any_of-insert_ordered :
      (p : A → Bool) (x : A) (xs : List A) → any_of p (insert_ordered x xs) ≡ (p x || any_of p xs)
  unfolding insert_ordered
  any_of-insert_ordered p x [] = refl
  any_of-insert_ordered p x (y ∷ ys) = ground (arith, any_of-insert_ordered p x ys)

  -- Ordering loses no row and adds none.
  pub any_of-order_by : (p : A → Bool) (xs : List A) → any_of p (order_by xs) ≡ any_of p xs
  unfolding order_by
  any_of-order_by p [] = refl
  any_of-order_by p (x ∷ xs) =
      ground (arith, any_of-insert_ordered p x (order_by xs), any_of-order_by p xs)

  pub take-IsOrdered : (n : ℕ) (xs : List A) → IsOrdered xs → IsOrdered (take n xs)
  take-IsOrdered zero xs h = tt
  take-IsOrdered (suc n) [] h = tt
  take-IsOrdered (suc n) (x ∷ xs) h =
      (take-All (λ y. column x ≤ column y) n xs h.0, take-IsOrdered n xs h.1)
