-- ===== src/Witnesses/Retirement.antt =====
-- Retiring a witness twice.
use nexuscone.Prelude.{
  ℕ, ◌≡◌, refl, true, false, ◌&&◌, Bool, some, List, [], ◌∷◌, ◌==◌, Bool-cases, inl, inr, ap,
}
use nexuscone.Time.{DateTime, iso}
use nexuscone.Store.{WitnessRow, WitnessTable, Database}
use nexuscone.Store.Query.{first_row, update_rows}
use nexuscone.Witnesses.{is_active, mark_retired, witness_or_raise, retire_witness}

module _ {ℓ} {A : Type ℓ} where
  -- An update that takes its rows out of its own condition is done once.
  update_rows-once :
      (p : A → Bool) (f g : A → A)
      → ((r : A) → p r ≡ true → p (f r) ≡ false)
      → (rs : List A) → update_rows p g (update_rows p f rs) ≡ update_rows p f rs
  unfolding update_rows
  update_rows-once p f g out [] = refl
  update_rows-once p f g out (r ∷ rs) = elim (Bool-cases (p r)) [
    | inl e ↦ rw (e, out r e, update_rows-once p f g out rs)
    | inr e ↦ rw (e, e, update_rows-once p f g out rs)
  ]

and_false : (b : Bool) → (b && false) ≡ false
and_false true = refl
and_false false = refl

mark_retired-again :
    (now later : DateTime) (i : ℕ) (t : WitnessTable)
    → mark_retired later i (mark_retired now i t) ≡ mark_retired now i t
unfolding mark_retired
mark_retired-again now later i t =
    ap (λ rows. record t { rows = rows })
      (update_rows-once (λ (r : WitnessRow). r.witness_id == i && is_active r.retired_at)
        (λ (r : WitnessRow). record r { retired_at = some (iso now) })
        (λ (r : WitnessRow). record r { retired_at = some (iso later) })
        (λ r e. and_false (r.witness_id == i)) t.rows)

-- Retiring a witness a second time, at any later time, returns what the first call returned, with the
-- first call's `retired_at`, and changes nothing.
pub retire_witness-again :
    (now later : DateTime) (i : ℕ) (db : Database)
    → retire_witness later i (retire_witness now i db).1 ≡ retire_witness now i db
unfolding retire_witness
retire_witness-again now later i db =
    ap
      (λ t. (
        witness_or_raise i (first_row (λ (r : WitnessRow). r.witness_id == i) t.rows),
        record db { witnesses = t },
      ))
      (mark_retired-again now later i db.witnesses)
