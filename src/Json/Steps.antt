-- ===== src/Json/Steps.antt =====
-- The decoder's equations, one for each branch, so that it stays shut in the proofs above it.
use nexuscone.Prelude.{ℕ, suc, ◌≡◌, refl, false, ◌∷◌, ◌++◌, Option, some, ◌==◌}
use nexuscone.Text.{Text}
use nexuscone.Json.{Value, Items, nil, cons, Members, end, member}
use nexuscone.Json.Print.{quote, print_more_items, print_more_members}
use nexuscone.Json.Scan.{scan}
use nexuscone.Json.Parse.{
  skip_space, parse_scalar, parse_value, parse_items, parse_more_items, parse_members,
  parse_more_members, as_arr, as_obj, and_more, keyed,
}

module _ (f : ℕ) where
  pub value_arr :
      (cs : Text) → parse_value (suc f) (b'[' ∷ cs) ≡ as_arr (parse_items f (skip_space cs))
  unfolding parse_value
  value_arr cs = refl

  pub value_obj :
      (cs : Text) → parse_value (suc f) (b'{' ∷ cs) ≡ as_obj (parse_members f (skip_space cs))
  unfolding parse_value
  value_obj cs = refl

  pub value_scalar :
      (c : ℕ) (cs : Text)
      → (c == b'[') ≡ false
      → (c == b'{') ≡ false
      → parse_value (suc f) (c ∷ cs) ≡ parse_scalar (suc f) c cs
  unfolding parse_value
  value_scalar c cs h k = rw (h, k)

  pub items_end : (cs : Text) → parse_items (suc f) (b']' ∷ cs) ≡ some (nil, cs)
  unfolding parse_items
  items_end cs = refl

  pub items_first :
      (c : ℕ) (cs : Text)
      → (c == b']') ≡ false
      → parse_items (suc f) (c ∷ cs) ≡ and_more (parse_more_items f) (parse_value f (c ∷ cs))
  unfolding parse_items
  items_first c cs h = rw h

  pub more_items_end : (cs : Text) → parse_more_items (suc f) (b']' ∷ cs) ≡ some (nil, cs)
  unfolding parse_more_items
  more_items_end cs = refl

  pub more_items_comma :
      (cs : Text)
      → parse_more_items (suc f) (b',' ∷ cs)
        ≡ and_more (parse_more_items f) (parse_value f (skip_space cs))
  unfolding parse_more_items
  more_items_comma cs = refl

  pub members_end : (cs : Text) → parse_members (suc f) (b'}' ∷ cs) ≡ some (end, cs)
  unfolding parse_members
  members_end cs = refl

  pub members_first :
      (cs : Text)
      → parse_members (suc f) (quote ∷ cs)
        ≡ keyed (parse_value f) (parse_more_members f) (scan (suc f) cs)
  unfolding parse_members
  members_first cs = refl

  pub more_members_end : (cs : Text) → parse_more_members (suc f) (b'}' ∷ cs) ≡ some (end, cs)
  unfolding parse_more_members
  more_members_end cs = refl

  pub more_members_comma :
      (cs : Text)
      → parse_more_members (suc (suc f)) (b',' ∷ quote ∷ cs)
        ≡ keyed (parse_value f) (parse_more_members f) (scan (suc f) cs)
  unfolding parse_more_members skip_space
  more_members_comma cs = refl

-- A member whose parts are read.
pub keyed_lem :
    (value : Text → Option (Value × Text)) (more : Text → Option (Members × Text)) (k s r : Text)
    (v : Value) (ms : Members) (rest : Text)
    → value (skip_space s) ≡ some (v, r)
    → more (skip_space r) ≡ some (ms, rest)
    → keyed value more (some (k, b':' ∷ s)) ≡ some (member k v ms, rest)
unfolding skip_space
keyed_lem value more k s r v ms rest h m = rw (h, m)

-- The closing bracket and the comma are no white space.
pub skip_space-more_items :
    (xs : Items) (rest : Text)
    → skip_space (print_more_items xs ++ rest) ≡ print_more_items xs ++ rest
unfolding skip_space print_more_items
skip_space-more_items nil rest = refl
skip_space-more_items (cons x xs) rest = refl

pub skip_space-more_members :
    (ms : Members) (rest : Text)
    → skip_space (print_more_members ms ++ rest) ≡ print_more_members ms ++ rest
unfolding skip_space print_more_members
skip_space-more_members end rest = refl
skip_space-more_members (member k v ms) rest = refl
