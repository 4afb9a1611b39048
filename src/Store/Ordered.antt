-- ===== src/Store/Ordered.antt =====
-- Rows in strictly increasing order of their keys, as the primary key keeps them.
use nexuscone.Prelude.{ℕ, ◌<◌, ◌≤◌, ◌≡◌, refl, some, List, [], ◌∷◌, ◌++◌, arith, last?}
use nexuscone.Store.Query.{insert_row}

module _ {A : Type 0} (key : A → ℕ) where
  -- The keys increase, from above `n`.
  abbrev pub Increasing : ℕ → List A → Type 0
  Increasing n [] = Unit
  Increasing n (r ∷ rs) = (n < key r) × Increasing (key r) rs

  -- The keys increase.
  abbrev pub IsIncreasing : List A → Type 0
  IsIncreasing [] = Unit
  IsIncreasing (r ∷ rs) = Increasing (key r) rs

  -- The last key, or `n` where there is no row.
  abbrev pub last_key : ℕ → List A → ℕ
  last_key n [] = n
  last_key n (r ∷ rs) = last_key (key r) rs

  pub last_key-le : (m : ℕ) (qs : List A) → Increasing m qs → m ≤ last_key m qs
  last_key-le m [] h = omega arith
  last_key-le m (q ∷ qs) h = omega (arith, last_key-le (key q) qs h.1)

  -- A key above the last one goes to the end.
  pub insert_row-Increasing :
      (n : ℕ) (x : A) (rs : List A)
      → Increasing n rs
      → last_key n rs < key x
      → insert_row key x rs ≡ some (rs ++ x ∷ [])
  unfolding insert_row
  insert_row-Increasing n x [] h p = refl
  insert_row-Increasing n x (r ∷ rs) h p =
      ground (arith, last_key-le (key r) rs h.1, insert_row-Increasing (key r) x rs h.1 p)

  pub Increasing-snoc :
      (n : ℕ) (x : A) (rs : List A)
      → Increasing n rs
      → last_key n rs < key x
      → Increasing n (rs ++ x ∷ [])
  Increasing-snoc n x [] h p = (p, tt)
  Increasing-snoc n x (r ∷ rs) h p = (h.0, Increasing-snoc (key r) x rs h.1 p)

  -- The last row has the last key.
  pub last?-key :
      (r : A) (rs : List A) → (l : A) × (last? (r ∷ rs) ≡ some l) × (key l ≡ last_key (key r) rs)
  last?-key r [] = (r, refl, refl)
  last?-key r (q ∷ rs) = last?-key q rs

  pub last_key-below :
      (x r : A) (rs : List A)
      → ((l : A) → last? (r ∷ rs) ≡ some l → key l < key x)
      → last_key (key r) rs < key x
  last_key-below x r rs above = let (l, e, k) = last?-key r rs in omega (arith, above l e)

  -- A row whose key is above that of the last row goes to the end, and the keys still increase.
  pub insert_row-last :
      (x : A) (rs : List A)
      → IsIncreasing rs
      → ((l : A) → last? rs ≡ some l → key l < key x)
      → (insert_row key x rs ≡ some (rs ++ x ∷ [])) × IsIncreasing (rs ++ x ∷ [])
  unfolding insert_row
  insert_row-last x [] h above = (refl, tt)
  insert_row-last x (r ∷ rs) h above =
      let below = last_key-below x r rs above in
      (
        ground (arith, last_key-le (key r) rs h, insert_row-Increasing (key r) x rs h below),
        Increasing-snoc (key r) x rs h below,
      )
