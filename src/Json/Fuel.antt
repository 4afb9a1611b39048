-- ===== src/Json/Fuel.antt =====
-- The fuel that reading a value back takes, and that the length of its text is enough.
use nexuscone.Prelude.{
  ℕ, suc, ap, ◌+◌, ◌*◌, ◌≤◌, [], ◌∷◌, ◌++◌, arith, length, length-append, true, false,
}
use nexuscone.Text.{Text}
use nexuscone.Json.{
  Value, null, boolean, int, str, arr, obj, Items, nil, cons, Members, end, member,
}
use nexuscone.Json.Print.{
  escape_char, escape, print, print_items, print_more_items, print_members, print_more_members,
  print_string, u_escape, quote,
}
use nexuscone.Json.Numbers.{Starts, print-Starts}

unfoldable mutual
  pub need : Value → ℕ
  need null = 1
  need (boolean b) = 1
  need (int n) = 1
  need (str s) = suc (length s)
  need (arr xs) = suc (need_items xs)
  need (obj ms) = suc (need_members ms)

  pub need_items : Items → ℕ
  need_items nil = 1
  need_items (cons x xs) = suc (need x + need_items xs)

  pub need_members : Members → ℕ
  need_members end = 1
  need_members (member k v ms) = suc (suc (length k + need v + need_members ms))

length-escape_char : (c : ℕ) → 1 ≤ length (escape_char c)
unfolding escape_char u_escape
length-escape_char c = ground arith

length-escape : (t : Text) → length t ≤ length (escape t)
unfolding escape
length-escape [] = omega arith
length-escape (c ∷ t) =
    omega (arith, length-append (escape_char c) (escape t), length-escape_char c, length-escape t)

pub length-print_string : (t : Text) → length t + 2 ≤ length (print_string t)
unfolding print_string
length-print_string t = omega (arith, length-append (escape t) (quote ∷ []), length-escape t)

length-Starts : (s : Text) → Starts s → 1 ≤ length s
length-Starts s b = omega (arith, ap length b.split)

-- Every value's text pays for the fuel of reading it.
mutual
  unfolding need print

  need-le : (v : Value) → need v ≤ 2 * length (print v)
  need-le null = omega arith
  need-le (boolean true) = omega arith
  need-le (boolean false) = omega arith
  need-le (int n) = omega (arith, length-Starts (print (int n)) (print-Starts (int n)))
  need-le (str s) = omega (arith, length-print_string s)
  need-le (arr xs) = omega (arith, (need_items-le xs).0)
  need-le (obj ms) = omega (arith, (need_members-le ms).0)

  need_items-le :
      (xs : Items)
      → (need_items xs ≤ 2 * length (print_items xs))
        × (suc (need_items xs) ≤ 2 * length (print_more_items xs))
  need_items-le nil = omega arith
  need_items-le (cons x xs) =
      omega (arith, length-append (print x) (print_more_items xs), need-le x, (need_items-le xs).1)

  need_members-le :
      (ms : Members)
      → (need_members ms ≤ 2 * length (print_members ms))
        × (suc (need_members ms) ≤ 2 * length (print_more_members ms))
  need_members-le end = omega arith
  need_members-le (member k v ms) = omega (
    arith,
    length-append (print_string k) (b':' ∷ (print v ++ print_more_members ms)),
    length-append (print v) (print_more_members ms),
    length-print_string k,
    need-le v,
    (need_members-le ms).1,
  )

pub need-le-length : (v : Value) → need v ≤ 2 * length (print v)
need-le-length v = need-le v
