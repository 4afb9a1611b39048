-- ===== src/Json/Order.antt =====
-- Well-formed values, and that `sort_keys` gives them canonical form.
use nexuscone.Prelude.{◌≡◌, refl, true, false, none, arith, Bool-cases, inl, inr}
use nexuscone.Text.{
  Text, text_eq, text_ltb, text_ltb_irrefl, text_ltb_trans, text_ltb_total, text_eq_iff,
}
use nexuscone.Text.Utf8.{IsScalarText}
use nexuscone.Json.{
  Value, null, boolean, int, str, arr, obj, Items, nil, cons, Members, end, member, dict_of,
  member?, insert_member, sort_keys, sort_items, sort_members,
}

-- No member has the key.
abbrev pub Lacks : Text → Members → Type 0
Lacks k end = Unit
Lacks k (member j w ms) = (text_eq j k ≡ false) × Lacks k ms

-- Every key is greater.
abbrev pub Below : Text → Members → Type 0
Below k end = Unit
Below k (member j w ms) = (text_ltb k j ≡ true) × Below k ms

-- A value that Python can hold and SQLite can store: no surrogates, and no repeated key.
unfoldable mutual
  pub IsValid : Value → Type 0
  IsValid null = Unit
  IsValid (boolean b) = Unit
  IsValid (int n) = Unit
  IsValid (str s) = IsScalarText s
  IsValid (arr xs) = AreValid xs
  IsValid (obj ms) = HasValid ms

  pub AreValid : Items → Type 0
  AreValid nil = Unit
  AreValid (cons x xs) = IsValid x × AreValid xs

  pub HasValid : Members → Type 0
  HasValid end = Unit
  HasValid (member k v ms) = IsScalarText k × Lacks k ms × IsValid v × HasValid ms

-- The same with every dict in the order of its keys.
unfoldable mutual
  pub IsCanonical : Value → Type 0
  IsCanonical null = Unit
  IsCanonical (boolean b) = Unit
  IsCanonical (int n) = Unit
  IsCanonical (str s) = IsScalarText s
  IsCanonical (arr xs) = AreCanonical xs
  IsCanonical (obj ms) = HasCanonical ms

  pub AreCanonical : Items → Type 0
  AreCanonical nil = Unit
  AreCanonical (cons x xs) = IsCanonical x × AreCanonical xs

  pub HasCanonical : Members → Type 0
  HasCanonical end = Unit
  HasCanonical (member k v ms) = IsScalarText k × Below k ms × IsCanonical v × HasCanonical ms

Below-member? : (k : Text) (ms : Members) → Below k ms → member? k ms ≡ none
unfolding member?
Below-member? k end h = refl
Below-member? k (member j w ms) h =
    ground (arith, text_eq_iff j k, text_ltb_irrefl k, Below-member? k ms h.1)

-- `dict` leaves sorted pairs alone.
pub dict_of-canonical : (ms : Members) → HasCanonical ms → dict_of ms ≡ ms
unfolding dict_of HasCanonical
dict_of-canonical end h = refl
dict_of-canonical (member k v ms) h = rw (dict_of-canonical ms h.3, Below-member? k ms h.1)

Below-trans : (k j : Text) (ms : Members) → text_ltb k j ≡ true → Below j ms → Below k ms
Below-trans k j end p h = tt
Below-trans k j (member i w ms) p h = (text_ltb_trans k j i p h.0, Below-trans k j ms p h.1)

Below-insert :
    (k j : Text) (v : Value) (ms : Members)
    → text_ltb k j ≡ true
    → Below k ms
    → Below k (insert_member j v ms)
unfolding insert_member
Below-insert k j v end p h = (p, tt)
Below-insert k j v (member i w ms) p h = ground (arith, Below-insert k j v ms p h.1)

insert_member-canonical :
    (k : Text) (v : Value) (ms : Members)
    → IsScalarText k
    → IsCanonical v
    → Lacks k ms
    → HasCanonical ms
    → HasCanonical (insert_member k v ms)
unfolding insert_member HasCanonical
insert_member-canonical k v end s c l h = (s, tt, c, tt)
insert_member-canonical k v (member j w ms) s c l h = elim (Bool-cases (text_ltb j k)) [
  | inl less ↦
      rw less (h.0, Below-insert j k v ms less h.1, h.2, insert_member-canonical k v ms s c l.1 h.3)
  | inr not_less ↦
      let above = text_ltb_total j k not_less l.0 in
      rw not_less (s, (above, Below-trans k j ms above h.1), c, h)
]

Lacks-insert :
    (k j : Text) (v : Value) (ms : Members)
    → text_eq j k ≡ false
    → Lacks k ms
    → Lacks k (insert_member j v ms)
unfolding insert_member
Lacks-insert k j v end p h = (p, tt)
Lacks-insert k j v (member i w ms) p h = ground (arith, Lacks-insert k j v ms p h.1)

Lacks-sort : (k : Text) (ms : Members) → Lacks k ms → Lacks k (sort_members ms)
unfolding sort_members
Lacks-sort k end h = tt
Lacks-sort k (member j v ms) h =
    Lacks-insert k j (sort_keys v) (sort_members ms) h.0 (Lacks-sort k ms h.1)

mutual
  unfolding IsValid IsCanonical sort_keys

  sort_value : (v : Value) → IsValid v → IsCanonical (sort_keys v)
  sort_value null h = tt
  sort_value (boolean b) h = tt
  sort_value (int n) h = tt
  sort_value (str s) h = h
  sort_value (arr xs) h = sort_list xs h
  sort_value (obj ms) h = sort_dict ms h

  sort_list : (xs : Items) → AreValid xs → AreCanonical (sort_items xs)
  sort_list nil h = tt
  sort_list (cons x xs) h = (sort_value x h.0, sort_list xs h.1)

  sort_dict : (ms : Members) → HasValid ms → HasCanonical (sort_members ms)
  sort_dict end h = tt
  sort_dict (member k v ms) h =
      insert_member-canonical k (sort_keys v) (sort_members ms) h.0 (sort_value v h.2)
        (Lacks-sort k ms h.1) (sort_dict ms h.3)

-- Sorting puts every valid value in canonical form.
pub sort_keys-IsCanonical : (v : Value) → IsValid v → IsCanonical (sort_keys v)
sort_keys-IsCanonical v h = sort_value v h
