-- ===== src/Exec/Action.antt =====
-- A method of an object with state `S`: it returns or raises, and leaves a state.
use nexuscone.Exec.{Result, ok, err}

abbrev pub Action : Type 0 → Type 0 → Type 0
Action S A = S → Result A × S

module _ {S A : Type 0} where
  abbrev pub pure : A → Action S A
  pure a s = (ok a, s)

  -- A computation that touches no state.
  abbrev pub lift : Result A → Action S A
  lift r s = (r, s)

  abbrev pub gets : (S → A) → Action S A
  gets f s = (ok (f s), s)

abbrev pub put : {S : Type 0} → S → Action S (Unit {0})
put s' s = (ok tt, s')

module _ {S A B : Type 0} where
  abbrev pub after_result : Result A → (A → Action S B) → Action S B
  after_result (ok a) f s = f a s
  after_result (err e) f s = (err e, s)

  infixl 5 ◌>>=◌ ◌>>◌
  abbrev pub ◌>>=◌ : Action S A → (A → Action S B) → Action S B
  ◌>>=◌ m f s = let (r, s') = m s in after_result r f s'

  abbrev pub ◌>>◌ : Action S A → Action S B → Action S B
  m >> k = m >>= λ _. k
