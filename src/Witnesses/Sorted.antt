-- ===== src/Witnesses/Sorted.antt =====
-- Sorting by witness keeps what each witness signed, in its order.
use nexuscone.Prelude.{
  ℕ, suc, ◌≡◌, refl, sym, ◌∙◌, ap, true, false, List, [], ◌∷◌, ◌++◌, length, arith, ◌==◌, leb,
  Bool-cases, inl, inr,
}
use nexuscone.Store.{AttestationRow}
use nexuscone.Store.Query.{where_rows}
use nexuscone.Witnesses.Verify.{insert_by_witness, sort_by_witness}

-- What one witness signed.
unfoldable pub signed_by : ℕ → List AttestationRow → List AttestationRow
unfolding where_rows
signed_by w rows = where_rows (λ (r : AttestationRow). r.witness_id == w) rows

pub signed_by-nil : (w : ℕ) → signed_by w [] ≡ []
unfolding signed_by where_rows
signed_by-nil w = refl

pub signed_by-own :
    (w : ℕ) (r : AttestationRow) (rs : List AttestationRow)
    → (r.witness_id == w) ≡ true
    → signed_by w (r ∷ rs) ≡ r ∷ signed_by w rs
unfolding signed_by where_rows
signed_by-own w r rs e = rw e

pub signed_by-other :
    (w : ℕ) (r : AttestationRow) (rs : List AttestationRow)
    → (r.witness_id == w) ≡ false
    → signed_by w (r ∷ rs) ≡ signed_by w rs
unfolding signed_by where_rows
signed_by-other w r rs e = rw e

-- Rows of one list in a row of another: both list the same for `w`.
signed_by-cons :
    (w : ℕ) (r : AttestationRow) (xs ys : List AttestationRow)
    → signed_by w xs ≡ signed_by w ys
    → signed_by w (r ∷ xs) ≡ signed_by w (r ∷ ys)
signed_by-cons w r xs ys e = elim (Bool-cases (r.witness_id == w)) [
  | inl own ↦ rw (signed_by-own w r xs own, signed_by-own w r ys own, e)
  | inr other ↦ rw (signed_by-other w r xs other, signed_by-other w r ys other, e)
]

-- Two rows of different witnesses change places unseen.
signed_by-swap :
    (w : ℕ) (r x : AttestationRow) (xs : List AttestationRow)
    → leb r.witness_id x.witness_id ≡ false
    → signed_by w (r ∷ x ∷ xs) ≡ signed_by w (x ∷ r ∷ xs)
signed_by-swap w r x xs apart = elim (Bool-cases (r.witness_id == w)) [
  | inl own ↦
      let other : (x.witness_id == w) ≡ false = ground arith in
      rw (
        signed_by-own w r (x ∷ xs) own,
        signed_by-other w x xs other,
        signed_by-other w x (r ∷ xs) other,
        signed_by-own w r xs own,
      )
  | inr other ↦
      rw (signed_by-other w r (x ∷ xs) other)
        (signed_by-cons w x xs (r ∷ xs) (sym (signed_by-other w r xs other)))
]

insert-signed_by :
    (w : ℕ) (r : AttestationRow) (rs : List AttestationRow)
    → signed_by w (insert_by_witness r rs) ≡ signed_by w (r ∷ rs)
unfolding insert_by_witness
insert-signed_by w r [] = refl
insert-signed_by w r (x ∷ xs) = elim (Bool-cases (leb r.witness_id x.witness_id)) [
  | inl e ↦ rw e
  | inr e ↦ rw e (
      signed_by-cons w x (insert_by_witness r xs) (r ∷ xs) (insert-signed_by w r xs)
      ∙ sym (signed_by-swap w r x xs e))
]

pub sort-signed_by :
    (w : ℕ) (rows : List AttestationRow) → signed_by w (sort_by_witness rows) ≡ signed_by w rows
unfolding sort_by_witness
sort-signed_by w [] = refl
sort-signed_by w (r ∷ rs) =
    insert-signed_by w r (sort_by_witness rs)
    ∙ signed_by-cons w r (sort_by_witness rs) rs (sort-signed_by w rs)

length-insert :
    (r : AttestationRow) (rs : List AttestationRow)
    → length (insert_by_witness r rs) ≡ suc (length rs)
unfolding insert_by_witness
length-insert r [] = refl
length-insert r (x ∷ xs) = elim (Bool-cases (leb r.witness_id x.witness_id)) [
  | inl e ↦ rw e
  | inr e ↦ rw e (ap suc (length-insert r xs))
]

pub length-sort : (rows : List AttestationRow) → length (sort_by_witness rows) ≡ length rows
unfolding sort_by_witness
length-sort [] = refl
length-sort (r ∷ rs) = length-insert r (sort_by_witness rs) ∙ ap suc (length-sort rs)

pub signed_by-append :
    (w : ℕ) (rs qs : List AttestationRow)
    → signed_by w (rs ++ qs) ≡ signed_by w rs ++ signed_by w qs
signed_by-append w [] qs = rw (signed_by-nil w)
signed_by-append w (r ∷ rs) qs = elim (Bool-cases (r.witness_id == w)) [
  | inl own ↦
      rw (signed_by-own w r (rs ++ qs) own, signed_by-own w r rs own, signed_by-append w rs qs)
  | inr other ↦
      rw (signed_by-other w r (rs ++ qs) other, signed_by-other w r rs other)
        (signed_by-append w rs qs)
]
