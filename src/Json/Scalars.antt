-- ===== src/Json/Scalars.antt =====
-- The decoder reads back `null`, Booleans, numbers, strings and empty containers, and where the text
-- of items and members ends and starts.
use mathlib.Core.List.{append_assoc}
use native.Mathlib.Numerals.{add-one}
use nexuscone.Prelude.{
  ℕ, suc, ◌+◌, ◌≤◌, ◌≡◌, refl, sym, ◌∙◌, ap, true, false, ◌∷◌, ◌++◌, some, arith, length,
}
use nexuscone.Prelude.Int.{ℤ, pos, negsuc}
use nexuscone.Text.{Text, codes}
use nexuscone.Text.Decimal.{decimal}
use nexuscone.Text.Utf8.{IsScalarText}
use nexuscone.Json.{Value, null, boolean, int, str, Items, nil, cons, Members, end, member}
use nexuscone.Json.Print.{print_more_items, print_more_members, print_string, print_int}
use nexuscone.Json.Scan.{scan-escape}
use nexuscone.Json.Parse.{
  skip_space, after, parse_nat, parse_scalar, parse_value, parse_items, parse_more_items,
  parse_members, and_more,
}
use nexuscone.Json.Numbers.{Ends, parse_nat-decimal, Starts, decimal-head}
use nexuscone.Json.Steps.{value_scalar, items_end, items_first, members_end}
use nexuscone.Json.Fuel.{need}

-- An integer: the first character leads to `parse_number`.
scalar_nat :
    (f c : ℕ) (cs : Text) (n : ℕ) (rest : Text)
    → b'0' ≤ c
    → c ≤ b'9'
    → parse_nat (c ∷ cs) ≡ some (n, rest)
    → parse_scalar f c cs ≡ some (int (pos n), rest)
unfolding parse_scalar
scalar_nat f c cs n rest h k e = ground arith

scalar_negative :
    (f n : ℕ) (rest : Text)
    → Ends rest
    → parse_scalar f b'-' (decimal (n + 1) ++ rest) ≡ some (int (negsuc n), rest)
unfolding parse_scalar
scalar_negative f n rest h = rw (parse_nat-decimal (n + 1) rest h, add-one)

pub read_null :
    (rest : Text) (f : ℕ) → parse_value (suc f) (codes "null" ++ rest) ≡ some (null, rest)
unfolding parse_scalar after
read_null rest f = rw value_scalar

pub read_true :
    (rest : Text) (f : ℕ) → parse_value (suc f) (codes "true" ++ rest) ≡ some (boolean true, rest)
unfolding parse_scalar after
read_true rest f = rw value_scalar

pub read_false :
    (rest : Text) (f : ℕ) → parse_value (suc f) (codes "false" ++ rest) ≡ some (boolean false, rest)
unfolding parse_scalar after
read_false rest f = rw value_scalar

pub read_no_items :
    (rest : Text) (f : ℕ) → parse_items (suc f) (skip_space (b']' ∷ rest)) ≡ some (nil, rest)
unfolding skip_space
read_no_items rest f = items_end f rest

pub read_no_members :
    (rest : Text) (f : ℕ) → parse_members (suc f) (skip_space (b'}' ∷ rest)) ≡ some (end, rest)
unfolding skip_space
read_no_members rest f = members_end f rest

pub need-pos : (v : Value) → 1 ≤ need v
unfolding need
need-pos null = omega arith
need-pos _ = omega arith

pub read_int :
    (n : ℤ) (rest : Text) (f : ℕ)
    → Ends rest
    → parse_value (suc f) (print_int n ++ rest) ≡ some (int n, rest)
unfolding print_int
read_int (pos n) rest f h =
    let (c, cs, e, low, high) = decimal-head n in
    let number : parse_nat (c ∷ (cs ++ rest)) ≡ some (n, rest) =
      ap (λ s. parse_nat (s ++ rest)) (sym e) ∙ parse_nat-decimal n rest h in
    rw (e, value_scalar f c (cs ++ rest) (ground arith) (ground arith))
      (scalar_nat (suc f) c (cs ++ rest) n rest low high number)
read_int (negsuc n) rest f h = rw value_scalar (scalar_negative (suc f) n rest h)

pub read_string :
    (t rest : Text) (f : ℕ)
    → IsScalarText t
    → length t ≤ f
    → parse_value (suc f) (print_string t ++ rest) ≡ some (str t, rest)
unfolding print_string parse_scalar
read_string t rest f s h =
    rw (value_scalar, append_assoc, scan-escape t rest (suc f) s (omega arith))

pub Ends-more_items : (xs : Items) (rest : Text) → Ends (print_more_items xs ++ rest)
unfolding print_more_items
Ends-more_items nil rest = (refl, refl)
Ends-more_items (cons x xs) rest = (refl, refl)

pub Ends-more_members : (ms : Members) (rest : Text) → Ends (print_more_members ms ++ rest)
unfolding print_more_members
Ends-more_members end rest = (refl, refl)
Ends-more_members (member k v ms) rest = (refl, refl)

pub items_first-Starts :
    (f : ℕ) (s rest : Text)
    → Starts s
    → parse_items (suc f) (s ++ rest) ≡ and_more (parse_more_items f) (parse_value f (s ++ rest))
items_first-Starts f s rest b = rw (b.split, items_first f b.head (b.tail ++ rest) b.opens)
