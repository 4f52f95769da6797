-- ===== src/Engine/Exec.antt =====
-- `async fn` with `?`: an action changes the state of the run and may fail; what it did before a
-- failure stays done.
use pascals_discrete_attract.Types.Errors.{AttractorError, Result, ok, err}

abbrev pub Exec : Type 0 → Type 0 → Type 0
Exec S A = S → Result A × S

module _ {S A : Type 0} where
  abbrev pub pure : A → Exec S A
  pure a s = (ok a, s)

  abbrev pub raise : AttractorError → Exec S A
  raise e s = (err e, s)

  abbrev pub gets : (S → A) → Exec S A
  gets f s = (ok (f s), s)

  -- An action that cannot fail.
  abbrev pub call : (S → A × S) → Exec S A
  call f s = let (a, s') = f s in (ok a, s')

  abbrev pub lift : Result A → Exec S A
  lift r s = (r, s)

abbrev pub modify : {S : Type 0} → (S → S) → Exec S (Unit {0})
modify f s = (ok tt, f s)

module _ {S A B : Type 0} where
  abbrev pub continue : Result A → (A → Exec S B) → Exec S B
  continue (err failure) next state = (err failure, state)
  continue (ok value) next state = next value state

  infixl 5 ◌>>=◌ ◌>>◌
  unfoldable pub ◌>>=◌ : (action : Exec S A) (next : A → Exec S B) → Exec S B
  (action >>= next) state = let (result, after) = action state in continue result next after

  abbrev pub ◌>>◌ : (first : Exec S A) (second : Exec S B) → Exec S B
  first >> second = first >>= λ ignored. second
