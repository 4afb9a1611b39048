-- ===== src/Exec/Inversion.antt =====
-- What is known when a computation returns.
use nexuscone.Prelude.{◌≡◌, refl, ◌⊎◌, inl, inr, Bool, true, false, Option, none, some, not}
use nexuscone.Text.{Text, text_eq, text_eq_iff}
use nexuscone.Exec.{Error, Result, ok, err, or_raise, raise_if, ◌>>=◌}

module _ {ℓ κ} {X : Type ℓ} {Y : Type κ} where
  -- A bind returns where both its parts do.
  pub >>=-eq-ok :
      (first : Result X) (next : X → Result Y) {y : Y}
      → (first >>= next) ≡ ok y
      → (x : X) × (first ≡ ok x) × (next x ≡ ok y)
  >>=-eq-ok (err raised) next e = cc
  >>=-eq-ok (ok x) next e = (x, refl, e)

  -- A bind raises by its first part or by its second.
  pub >>=-eq-err :
      (first : Result X) (next : X → Result Y) {raised : Error}
      → (first >>= next) ≡ err raised
      → (first ≡ err raised) ⊎ ((x : X) × (first ≡ ok x) × (next x ≡ err raised))
  >>=-eq-err (err raised) next e = inl (cc e)
  >>=-eq-err (ok x) next e = inr (x, refl, e)

pub or_raise-eq-ok {ℓ} :
    {A : Type ℓ} (e : Error) (o : Option A) {a : A} → or_raise e o ≡ ok a → o ≡ some a
or_raise-eq-ok e none h = cc
or_raise-eq-ok e (some a) h = cc

pub raise_if-eq-ok : (b : Bool) (e : Error) → raise_if b e ≡ ok tt → b ≡ false
raise_if-eq-ok true e h = cc
raise_if-eq-ok false e h = refl

pub not-false : (b : Bool) → not b ≡ false → b ≡ true
not-false true h = refl
not-false false h = cc

-- A test on two texts that does not raise.
pub text_eq-true : (s t : Text) → not (text_eq s t) ≡ false → s ≡ t
text_eq-true s t e = (text_eq_iff s t).0 (not-false (text_eq s t) e)

pub ok-injective : {X : Type 0} (x y : X) → ok x ≡ ok y → x ≡ y
ok-injective x y e = cc

pub Result-cases :
    {X : Type 0} (r : Result X) → ((x : X) × (r ≡ ok x)) ⊎ ((e : Error) × (r ≡ err e))
Result-cases (ok x) = inl (x, refl)
Result-cases (err e) = inr (e, refl)
