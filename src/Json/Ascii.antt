-- ===== src/Json/Ascii.antt =====
-- Which characters `json.dumps` writes with `ensure_ascii`.
use nexuscone.Prelude.{
  ℕ, ◌+◌, ◌/◌, ◌%◌, ◌<◌, ◌≡◌, true, false, [], ◌∷◌, ◌++◌, arith, All, All-append,
}
use nexuscone.Prelude.Int.{pos, negsuc}
use nexuscone.Text.{Text}
use nexuscone.Text.Decimal.{decimal, is_digit, decimal-digits}
use nexuscone.Text.Hex.{hex_digit-range}
use nexuscone.Json.{
  Value, null, boolean, int, str, arr, obj, Items, nil, cons, Members, end, member,
}
use nexuscone.Json.Print.{
  u_escape, escape_char, escape, print_string, print_int, print, print_items, print_more_items,
  print_members, print_more_members, high_surrogate, low_surrogate,
}

abbrev pub IsAscii : Text → Type 0
IsAscii = All (λ c. c < 128)

IsAscii-append : (s t : Text) → IsAscii s → IsAscii t → IsAscii (s ++ t)
IsAscii-append s t h k = All-append (λ c. c < 128) s t h k

digits-IsAscii : (s : Text) → All (λ c. is_digit c ≡ true) s → IsAscii s
digits-IsAscii [] h = tt
digits-IsAscii (c ∷ s) h = (ground (arith, h.0), digits-IsAscii s h.1)

u_escape-IsAscii : (n : ℕ) → n < 65536 → IsAscii (u_escape n)
unfolding u_escape
u_escape-IsAscii n h = omega (
  arith,
  hex_digit-range (n / 4096),
  hex_digit-range (n / 256 % 16),
  hex_digit-range (n / 16 % 16),
  hex_digit-range (n % 16),
)

escape_char-IsAscii : (c : ℕ) → IsAscii (escape_char c)
unfolding escape_char
escape_char-IsAscii c = ground (
  arith,
  u_escape-IsAscii c,
  u_escape-IsAscii (high_surrogate c),
  u_escape-IsAscii (low_surrogate c),
  IsAscii-append (u_escape (high_surrogate c)) (u_escape (low_surrogate c)),
)

escape-IsAscii : (t : Text) → IsAscii (escape t)
unfolding escape
escape-IsAscii [] = tt
escape-IsAscii (c ∷ t) =
    IsAscii-append (escape_char c) (escape t) (escape_char-IsAscii c) (escape-IsAscii t)

print_string-IsAscii : (t : Text) → IsAscii (print_string t)
unfolding print_string
print_string-IsAscii t = (omega arith, IsAscii-append (escape t) _ (escape-IsAscii t) (omega arith))

decimal-IsAscii : (n : ℕ) → IsAscii (decimal n)
decimal-IsAscii n = digits-IsAscii (decimal n) (decimal-digits n)

mutual
  unfolding print print_int

  ascii : (v : Value) → IsAscii (print v)
  ascii null = omega arith
  ascii (boolean true) = omega arith
  ascii (boolean false) = omega arith
  ascii (int (pos n)) = decimal-IsAscii n
  ascii (int (negsuc n)) = (omega arith, decimal-IsAscii (n + 1))
  ascii (str s) = print_string-IsAscii s
  ascii (arr xs) = (omega arith, (IsAscii-items xs).0)
  ascii (obj ms) = (omega arith, (IsAscii-members ms).0)

  IsAscii-items : (xs : Items) → IsAscii (print_items xs) × IsAscii (print_more_items xs)
  IsAscii-items nil = omega arith
  IsAscii-items (cons x xs) =
      let here = IsAscii-append (print x) (print_more_items xs) (ascii x) (IsAscii-items xs).1 in
      (here, (omega arith, here))

  IsAscii-members : (ms : Members) → IsAscii (print_members ms) × IsAscii (print_more_members ms)
  IsAscii-members end = omega arith
  IsAscii-members (member k v ms) =
      let value =
        IsAscii-append (print v) (print_more_members ms) (ascii v) (IsAscii-members ms).1 in
      let here =
        IsAscii-append (print_string k) (b':' ∷ (print v ++ print_more_members ms))
          (print_string-IsAscii k) (omega arith, value) in
      (here, (omega arith, here))

pub print-IsAscii : (v : Value) → IsAscii (print v)
print-IsAscii v = ascii v
