-- ===== src/Base/Sessions.antt =====
-- Python code that works on a database session and may raise. What was written before a raise stays
-- in the session, so the state comes back beside the exception; `session_scope` decides what of it
-- is kept (src/ltm/storage/db.py).
use mathlib.Core.Path.{◌≡◌, refl}
use mathlib.Core.Logic.{◌⊎◌, inl, inr}
use mathlib.Core.Bool.{Bool, true, false}
use Prim.Native.String.{String}

-- The exceptions that the modelled code raises, by their Python class.
pub data Raised : Type 0 where
  value_error : String → Raised
  draft_access_error : String → Raised
  profile_not_found : String → Raised
  policy_denied : String → Raised
  runtime_error : String → Raised
  integrity_error : Raised

pub data Outcome {ℓ} (A : Type ℓ) : Type ℓ where
  ok : A → Outcome A
  raised : Raised → Outcome A

pub Outcome-cases {ℓ} :
    {A : Type ℓ} (o : Outcome A) → ((a : A) × (o ≡ ok a)) ⊎ ((e : Raised) × (o ≡ raised e))
Outcome-cases (ok a) = inl (a, refl)
Outcome-cases (raised e) = inr (e, refl)

abbrev pub Session {ℓ} : Type ℓ → Type ℓ → Type ℓ
Session S A = S → Outcome A × S

module _ {ℓ} {S A : Type ℓ} where
  abbrev pub pure : A → Session S A
  pure a s = (ok a, s)

  abbrev pub raise : Raised → Session S A
  raise e s = (raised e, s)

  abbrev pub gets : (S → A) → Session S A
  gets f s = (ok (f s), s)

  -- What leaves the `with session_scope()` block, by the commit and by the push to the replica that
  -- follows it: an exception of the block or of the commit takes it back to the state before it, while
  -- one of the push comes after the commit, which stays.
  abbrev pushed : Outcome (Unit {0}) → A → S → Outcome A × S
  pushed (ok u) a s = (ok a, s)
  pushed (raised e) a s = (raised e, s)

  abbrev committed : S → Outcome (Unit {0}) → Outcome (Unit {0}) → A → S → Outcome A × S
  committed before (ok u) push a s = pushed push a s
  committed before (raised e) push a s = (raised e, before)

  abbrev pub left :
      S → (S → Outcome (Unit {0})) → (S → Outcome (Unit {0})) → Outcome A × S → Outcome A × S
  left before commit push (ok a, s) = committed before (commit s) (push s) a s
  left before commit push (raised e, s) = (raised e, before)

  unfoldable pub session_scope_with :
      (S → Outcome (Unit {0})) → (S → Outcome (Unit {0})) → Session S A → Session S A
  session_scope_with commit push m s = left s commit push (m s)

  -- The scope of the model: a database that commits, and that has no replica or pushes to it.
  unfoldable pub session_scope : Session S A → Session S A
  unfolding session_scope_with
  session_scope = session_scope_with (λ s. ok tt) (λ s. ok tt)

  -- `try: m; except ValueError as exc: handler(str(exc))`
  abbrev pub on_value_error : Outcome A × S → (String → Session S A) → Outcome A × S
  on_value_error (ok a, s) h = (ok a, s)
  on_value_error (raised (value_error message), s) h = h message s
  on_value_error (raised (draft_access_error message), s) h =
      (raised (draft_access_error message), s)
  on_value_error (raised (profile_not_found message), s) h = (raised (profile_not_found message), s)
  on_value_error (raised (policy_denied message), s) h = (raised (policy_denied message), s)
  on_value_error (raised (runtime_error message), s) h = (raised (runtime_error message), s)
  on_value_error (raised integrity_error, s) h = (raised integrity_error, s)

  abbrev pub catch_value_error : Session S A → (String → Session S A) → Session S A
  catch_value_error m h s = on_value_error (m s) h

  -- `try: m; except DraftAccessError as exc: handler(str(exc))`
  abbrev pub on_draft_access_error : Outcome A × S → (String → Session S A) → Outcome A × S
  on_draft_access_error (ok a, s) h = (ok a, s)
  on_draft_access_error (raised (draft_access_error message), s) h = h message s
  on_draft_access_error (raised (value_error message), s) h = (raised (value_error message), s)
  on_draft_access_error (raised (profile_not_found message), s) h =
      (raised (profile_not_found message), s)
  on_draft_access_error (raised (policy_denied message), s) h = (raised (policy_denied message), s)
  on_draft_access_error (raised (runtime_error message), s) h = (raised (runtime_error message), s)
  on_draft_access_error (raised integrity_error, s) h = (raised integrity_error, s)

  abbrev pub catch_draft_access_error : Session S A → (String → Session S A) → Session S A
  catch_draft_access_error m h s = on_draft_access_error (m s) h

  -- `try: m; except Exception: handler`
  abbrev pub on_any : Outcome A × S → Session S A → Outcome A × S
  on_any (ok a, s) h = (ok a, s)
  on_any (raised e, s) h = h s

  abbrev pub catch_any : Session S A → Session S A → Session S A
  catch_any m h s = on_any (m s) h

module _ {ℓ} {S A B : Type ℓ} where
  abbrev pub continue : Outcome A × S → (A → Session S B) → Outcome B × S
  continue (ok a, s) f = f a s
  continue (raised e, s) f = (raised e, s)

  infixl 10 ◌>>=◌ ◌>>◌
  abbrev pub ◌>>=◌ : Session S A → (A → Session S B) → Session S B
  ◌>>=◌ m f s = continue (m s) f

  abbrev pub ◌>>◌ : Session S A → Session S B → Session S B
  m >> n = m >>= λ _. n

-- `if not test: raise e`
abbrev pub ensure : {S : Type 0} → Bool → Raised → Session S (Unit {0})
ensure true e s = (ok tt, s)
ensure false e s = (raised e, s)

abbrev pub modify : {S : Type 0} → (S → S) → Session S (Unit {0})
modify f s = (ok tt, f s)

module _ {S A : Type 0} where
  -- A block that raises leaves no trace.
  pub session_scope_raised :
      (m : Session S A) (s : S) {e : Raised}
      → (session_scope m s).0 ≡ raised e
      → (session_scope m s).1 ≡ s
  unfolding session_scope
  session_scope_raised m s h = scoped (m s) h
    where
      scoped :
          (r : Outcome A × S) {e : Raised}
          → (left s (λ s. ok tt) (λ s. ok tt) r).0 ≡ raised e
          → (left s (λ s. ok tt) (λ s. ok tt) r).1 ≡ s
      scoped (ok a, t) h = absurd (ok-ne-raised h)
        where
          ok-ne-raised : {a : A} {e : Raised} → ok a ≡ raised e → ⊥
          ok-ne-raised p = cc
      scoped (raised e, t) h = refl
