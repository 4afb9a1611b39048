-- ===== src/Exec/Mapped.antt =====
-- What is known when a function that may raise was applied to every element of a list.
use nexuscone.Prelude.{
  ℕ, zero, suc, ◌≡◌, refl, sym, ap, Bool, inl, inr, Bool-cases, take, Option, none, some, List, [],
  ◌∷◌, ◌++◌, last?, length, arith,
}
use mathlib.Core.List.{reverse, reverse_aux}
use nexuscone.Prelude.Int.{ℤ, pos, negsuc}
use nexuscone.Exec.{Result, ok, map_result}
use nexuscone.Store.Query.{where_rows, limit_rows}
use nexuscone.Exec.Inversion.{>>=-eq-ok, ok-injective}

module _ {A B : Type 0} (f : A → Result B) where
  pub map_result-cons :
      (x : A) (xs : List A) (zs : List B)
      → map_result f (x ∷ xs) ≡ ok zs
      → (y : B) × (ys : List B) × (f x ≡ ok y) × (map_result f xs ≡ ok ys) × (zs ≡ y ∷ ys)
  unfolding map_result
  map_result-cons x xs zs e =
      let (y, first, e₁) = >>=-eq-ok (f x) _ e in
      let (ys, rest, e₂) = >>=-eq-ok (map_result f xs) _ e₁ in
      (y, ys, first, rest, sym (ok-injective _ _ e₂))

  pub map_result-snoc :
      (xs : List A) (x : A) (ys : List B) (y : B)
      → map_result f xs ≡ ok ys
      → f x ≡ ok y
      → map_result f (xs ++ x ∷ []) ≡ ok (ys ++ y ∷ [])
  unfolding map_result
  map_result-snoc [] x ys y e k =
      let none_left : [] ≡ ys = ok-injective _ _ e in rw (sym none_left) rw k refl
  map_result-snoc (a ∷ xs) x ys y e k =
      let (b, bs, first, rest, same) = map_result-cons a xs ys e in
      rw (same, first, map_result-snoc xs x bs y rest k) refl

  -- What is known of two options of which the second is the first's value.
  abbrev pub Maps : Option A → Option B → Type 0
  Maps none none = Unit
  Maps none (some y) = ⊥
  Maps (some x) none = ⊥
  Maps (some x) (some y) = f x ≡ ok y

  pub last?-map_result :
      (xs : List A) (ys : List B) → map_result f xs ≡ ok ys → Maps (last? xs) (last? ys)
  unfolding map_result
  last?-map_result [] ys e = let none_left : [] ≡ ys = ok-injective _ _ e in rw (sym none_left) tt
  last?-map_result (x ∷ []) ys e =
      let (y, zs, first, rest, same) = map_result-cons x [] ys e in
      let none_left : [] ≡ zs = ok-injective _ _ rest in rw (same, sym none_left) first
  last?-map_result (x ∷ a ∷ xs) ys e =
      let (y, zs, first, rest, same) = map_result-cons x (a ∷ xs) ys e in
      let (b, bs, _, _, more) = map_result-cons a xs zs rest in
      rw same rw more (rw more at (last?-map_result (a ∷ xs) zs rest))

  -- A selection that the results tell.
  pub map_result-where :
      (p : A → Bool) (q : B → Bool)
      → ((x : A) (y : B) → f x ≡ ok y → p x ≡ q y)
      → (xs : List A) (ys : List B) → map_result f xs ≡ ok ys
      → map_result f (where_rows p xs) ≡ ok (where_rows q ys)
  unfolding map_result where_rows
  map_result-where p q same [] ys e =
      let none_left : [] ≡ ys = ok-injective _ _ e in rw (sym none_left) refl
  map_result-where p q same (x ∷ xs) ys e =
      let (y, zs, first, rest, equal) = map_result-cons x xs ys e in
      let later = map_result-where p q same xs zs rest in
      rw equal elim (Bool-cases (q y)) [
        | inl kept ↦ rw (same x y first, kept) rw (first, later) refl
        | inr dropped ↦ rw (same x y first, dropped) later
      ]

  map_result-reverse_aux :
      (xs front : List A) (ys bs : List B)
      → map_result f xs ≡ ok ys
      → map_result f front ≡ ok bs
      → map_result f (reverse_aux xs front) ≡ ok (reverse_aux ys bs)
  unfolding map_result
  map_result-reverse_aux [] front ys bs e k =
      let none_left : [] ≡ ys = ok-injective _ _ e in rw (sym none_left) k
  map_result-reverse_aux (x ∷ xs) front ys bs e k =
      let (y, zs, first, rest, equal) = map_result-cons x xs ys e in
      let turned : map_result f (x ∷ front) ≡ ok (y ∷ bs) = rw (first, k) refl in
      rw equal (map_result-reverse_aux xs (x ∷ front) zs (y ∷ bs) rest turned)

  pub map_result-reverse :
      (xs : List A) (ys : List B)
      → map_result f xs ≡ ok ys
      → map_result f (reverse xs) ≡ ok (reverse ys)
  unfolding map_result
  map_result-reverse xs ys e = map_result-reverse_aux xs [] ys [] e refl

  map_result-take :
      (n : ℕ) (xs : List A) (ys : List B)
      → map_result f xs ≡ ok ys
      → map_result f (take n xs) ≡ ok (take n ys)
  unfolding map_result
  map_result-take zero xs ys e = refl
  map_result-take (suc n) [] ys e =
      let none_left : [] ≡ ys = ok-injective _ _ e in rw (sym none_left) refl
  map_result-take (suc n) (x ∷ xs) ys e =
      let (y, zs, first, rest, equal) = map_result-cons x xs ys e in
      rw equal rw (first, map_result-take n xs zs rest) refl

  pub map_result-limit :
      (limit : ℤ) (xs : List A) (ys : List B)
      → map_result f xs ≡ ok ys
      → map_result f (limit_rows limit xs) ≡ ok (limit_rows limit ys)
  unfolding limit_rows
  map_result-limit (pos n) xs ys e = map_result-take n xs ys e
  map_result-limit (negsuc n) xs ys e = e

  pub length-map_result :
      (xs : List A) (ys : List B) → map_result f xs ≡ ok ys → length xs ≡ length ys
  unfolding map_result
  length-map_result [] ys e = ap length (ok-injective _ _ e)
  length-map_result (x ∷ xs) ys e =
      let (y, zs, first, rest, same) = map_result-cons x xs ys e in
      rw same omega (arith, length-map_result xs zs rest)
