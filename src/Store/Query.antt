-- ===== src/Store/Query.antt =====
-- What the SQL statements do to a list of rows in the order of their ids.
use nexuscone.Prelude.{
  ℕ, ◌+◌, ◌≡◌, Bool, true, false, Option, none, some, List, [], ◌∷◌, ltb, ◌==◌, if◌then◌else◌, take,
}
use nexuscone.Prelude.Int.{ℤ, pos, negsuc}

module _ {ℓ} {A : Type ℓ} where
  -- `WHERE p`
  unfoldable pub where_rows : (A → Bool) → List A → List A
  where_rows p [] = []
  where_rows p (r ∷ rs) = if p r then r ∷ where_rows p rs else where_rows p rs

  -- The first row with `p`: `fetchone` of `WHERE p`.
  unfoldable pub first_row : (A → Bool) → List A → Option A
  first_row p [] = none
  first_row p (r ∷ rs) = if p r then some r else first_row p rs

  pub first_row-here :
      (p : A → Bool) (r : A) (rs : List A) → p r ≡ true → first_row p (r ∷ rs) ≡ some r
  unfolding first_row
  first_row-here p r rs e = rw e

  pub first_row-later :
      (p : A → Bool) (r : A) (rs : List A) → p r ≡ false → first_row p (r ∷ rs) ≡ first_row p rs
  unfolding first_row
  first_row-later p r rs e = rw e

  -- `LIMIT ?`: a negative limit is none.
  unfoldable pub limit_rows : ℤ → List A → List A
  limit_rows (pos n) rs = take n rs
  limit_rows (negsuc n) rs = rs

  -- `UPDATE ... WHERE p`
  unfoldable pub update_rows : (A → Bool) → (A → A) → List A → List A
  update_rows p f [] = []
  update_rows p f (r ∷ rs) = (if p r then f r else r) ∷ update_rows p f rs

abbrev cons_row {ℓ} : {A : Type ℓ} → A → Option (List A) → Option (List A)
cons_row r none = none
cons_row r (some rs) = some (r ∷ rs)

-- `INSERT` with an explicit primary key; `none` is the IntegrityError on a key that is there.
unfoldable pub insert_row {ℓ} : {A : Type ℓ} → (A → ℕ) → A → List A → Option (List A)
insert_row key r [] = some (r ∷ [])
insert_row key r (x ∷ xs) =
    let rest = cons_row x (insert_row key r xs) in
    if ltb (key r) (key x) then some (r ∷ x ∷ xs) else if key r == key x then none else rest

-- The id that AUTOINCREMENT gives: above the counter and above the last row.
unfoldable pub next_rowid {ℓ} : {A : Type ℓ} → (A → ℕ) → ℕ → List A → ℕ
next_rowid key n [] = n + 1
next_rowid key n (r ∷ rs) = next_rowid key (if ltb n (key r) then key r else n) rs
