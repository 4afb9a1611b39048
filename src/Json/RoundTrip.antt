-- ===== src/Json/RoundTrip.antt =====
-- Reading back what `print` writes.
use mathlib.Core.List.{append-nil, append_assoc}
use nexuscone.Prelude.{
  ℕ, zero, suc, ◌+◌, ◌-◌, ◌≤◌, ◌≡◌, subst, ◌*◌, true, false, [], ◌∷◌, ◌++◌, some, arith, length,
}
use nexuscone.Text.{Text}
use nexuscone.Text.Utf8.{IsScalarText}
use nexuscone.Json.{
  Value, null, boolean, int, str, arr, obj, Items, nil, cons, Members, end, member,
}
use nexuscone.Json.Print.{
  print, print_items, print_more_items, print_members, print_more_members, print_string,
}
use nexuscone.Json.Scan.{scan-escape}
use nexuscone.Json.Parse.{
  skip_space, parse_value, parse_items, parse_more_items, parse_members, parse_more_members, loads,
  keyed,
}
use nexuscone.Json.Numbers.{Ends, print-Starts, skip_space-Starts}
use nexuscone.Json.Steps.{
  value_arr, value_obj, more_items_end, more_items_comma, members_first, more_members_end,
  more_members_comma, keyed_lem, skip_space-more_items, skip_space-more_members,
}
use nexuscone.Json.Fuel.{need, need_items, need_members, need-le-length}
use nexuscone.Json.Order.{IsCanonical, AreCanonical, HasCanonical, dict_of-canonical}
use nexuscone.Json.Scalars.{
  read_null, read_true, read_false, read_no_items, read_no_members, need-pos, read_int, read_string,
  Ends-more_items, Ends-more_members, items_first-Starts,
}

-- A member, given that its value and the members after it are read with enough fuel.
module _ (k : Text) (v : Value) (ms : Members) (rest : Text) (f : ℕ) (s : IsScalarText k)
    (enough : suc (suc (length k + need v + need_members ms)) ≤ f)
    (value : (g : ℕ)
      → need v ≤ g
      → parse_value g (print v ++ (print_more_members ms ++ rest))
        ≡ some (v, print_more_members ms ++ rest))
    (more : (g : ℕ)
      → need_members ms ≤ g
      → parse_more_members g (print_more_members ms ++ rest) ≡ some (ms, rest)) where
  read_member :
      (g : ℕ)
      → need v ≤ g
      → need_members ms ≤ g
      → keyed
          (parse_value g)
          (parse_more_members g)
          (some (k, b':' ∷ (print v ++ (print_more_members ms ++ rest))))
        ≡ some (member k v ms, rest)
  read_member g hv hm =
      keyed_lem (parse_value g) (parse_more_members g) k
        (print v ++ (print_more_members ms ++ rest)) (print_more_members ms ++ rest) v ms rest
        (rw (skip_space-Starts (print v) (print_more_members ms ++ rest) (print-Starts v))
          (value g hv))
        (rw skip_space-more_members (more g hm))

  read_first_member :
      parse_members f (skip_space (print_members (member k v ms) ++ rest))
      ≡ some (member k v ms, rest)
  unfolding print_members skip_space print_string
  read_first_member =
      let e : f ≡ suc (f - 1) = omega arith in
      let scanned =
        scan-escape k (b':' ∷ (print v ++ (print_more_members ms ++ rest))) (suc (f - 1)) s
          (omega arith) in
      rw e (
        simp append_assoc
          (rw (members_first, scanned) (read_member (f - 1) (omega arith) (omega arith))))

  read_next_member :
      parse_more_members f (print_more_members (member k v ms) ++ rest) ≡ some (member k v ms, rest)
  unfolding print_more_members print_string
  read_next_member =
      let e : f ≡ suc (suc (f - 2)) = omega arith in
      let scanned =
        scan-escape k (b':' ∷ (print v ++ (print_more_members ms ++ rest))) (suc (f - 2)) s
          (omega arith) in
      rw e (
        simp append_assoc
          (rw (more_members_comma, scanned) (read_member (f - 2) (omega arith) (omega arith))))

mutual
  unfolding need print IsCanonical

  read :
      (v : Value) (rest : Text) (f : ℕ)
      → IsCanonical v
      → Ends rest
      → need v ≤ f
      → parse_value f (print v ++ rest) ≡ some (v, rest)
  read v rest zero c h k = absurd (omega (arith, need-pos v))
  read null rest (suc f) c h k = read_null rest f
  read (boolean true) rest (suc f) c h k = read_true rest f
  read (boolean false) rest (suc f) c h k = read_false rest f
  read (int n) rest (suc f) c h k = read_int n rest f h
  read (str s) rest (suc f) c h k = read_string s rest f c (omega arith)
  read (arr xs) rest (suc f) c h k = rw (value_arr, read_items xs rest f c (omega arith))
  read (obj ms) rest (suc f) c h k =
      rw (value_obj, read_members ms rest f c (omega arith), dict_of-canonical ms c)

  read_items :
      (xs : Items) (rest : Text) (f : ℕ)
      → AreCanonical xs
      → need_items xs ≤ f
      → parse_items f (skip_space (print_items xs ++ rest)) ≡ some (xs, rest)
  read_items nil rest zero c k = absurd (omega arith)
  read_items nil rest (suc f) c k = read_no_items rest f
  read_items (cons x xs) rest zero c k = absurd (omega arith)
  read_items (cons x xs) rest (suc f) c k =
      let b = print-Starts x in
      rw (
        append_assoc,
        skip_space-Starts (print x) (print_more_items xs ++ rest) b,
        items_first-Starts f (print x) (print_more_items xs ++ rest) b,
        read x (print_more_items xs ++ rest) f c.0 (Ends-more_items xs rest) (omega arith),
        skip_space-more_items,
        read_more_items xs rest f c.1 (omega arith),
      )

  read_more_items :
      (xs : Items) (rest : Text) (f : ℕ)
      → AreCanonical xs
      → need_items xs ≤ f
      → parse_more_items f (print_more_items xs ++ rest) ≡ some (xs, rest)
  read_more_items nil rest zero c k = absurd (omega arith)
  read_more_items nil rest (suc f) c k = more_items_end f rest
  read_more_items (cons x xs) rest zero c k = absurd (omega arith)
  read_more_items (cons x xs) rest (suc f) c k = rw (
    more_items_comma,
    append_assoc,
    skip_space-Starts (print x) (print_more_items xs ++ rest) (print-Starts x),
    read x (print_more_items xs ++ rest) f c.0 (Ends-more_items xs rest) (omega arith),
    skip_space-more_items,
    read_more_items xs rest f c.1 (omega arith),
  )

  read_members :
      (ms : Members) (rest : Text) (f : ℕ)
      → HasCanonical ms
      → need_members ms ≤ f
      → parse_members f (skip_space (print_members ms ++ rest)) ≡ some (ms, rest)
  read_members end rest zero c k = absurd (omega arith)
  read_members end rest (suc f) c k = read_no_members rest f
  read_members (member i v ms) rest f c k =
      read_first_member i v ms rest f c.0 k
        (λ g h. read v (print_more_members ms ++ rest) g c.2 (Ends-more_members ms rest) h)
        (λ g h. read_more_members ms rest g c.3 h)

  read_more_members :
      (ms : Members) (rest : Text) (f : ℕ)
      → HasCanonical ms
      → need_members ms ≤ f
      → parse_more_members f (print_more_members ms ++ rest) ≡ some (ms, rest)
  read_more_members end rest zero c k = absurd (omega arith)
  read_more_members end rest (suc f) c k = more_members_end f rest
  read_more_members (member i v ms) rest f c k =
      read_next_member i v ms rest f c.0 k
        (λ g h. read v (print_more_members ms ++ rest) g c.2 (Ends-more_members ms rest) h)
        (λ g h. read_more_members ms rest g c.3 h)

-- The decoder reads back the text of every value in canonical form.
pub loads-print : (v : Value) → IsCanonical v → loads (print v) ≡ some v
unfolding loads skip_space
loads-print v c =
    let fuel = 2 * length (print v) + 2 in
    let bare : skip_space (print v) ≡ print v =
      subst (λ s. skip_space s ≡ s) (append-nil (print v))
        (skip_space-Starts (print v) [] (print-Starts v)) in
    let whole : parse_value fuel (print v) ≡ some (v, []) =
      subst (λ s. parse_value fuel s ≡ some (v, [])) (append-nil (print v))
        (read v [] fuel c tt (omega (arith, need-le-length v))) in
    rw (bare, whole)
