-- ===== src/Json/Print.antt =====
-- `json.dumps(..., separators=(",", ":"))` with its default `ensure_ascii=True`, on a value whose
-- keys are sorted.
use nexuscone.Prelude.{
  ℕ, ◌+◌, ◌-◌, ◌/◌, ◌%◌, true, false, ◌&&◌, [], ◌∷◌, ◌++◌, ltb, leb, ◌==◌, if◌then◌else◌,
}
use nexuscone.Prelude.Int.{ℤ, pos, negsuc}
use nexuscone.Text.{Text, codes}
use nexuscone.Text.Decimal.{decimal}
use nexuscone.Text.Hex.{hex_digit}
use nexuscone.Json.{
  Value, null, boolean, int, str, arr, obj, Items, nil, cons, Members, end, member,
}

abbrev pub quote : ℕ
quote = 34

abbrev pub backslash : ℕ
backslash = 92

-- `'{0:04x}'` below 65536.
unfoldable pub hex4 : ℕ → Text
hex4 n =
    hex_digit (n / 4096)
    ∷ hex_digit (n / 256 % 16)
    ∷ hex_digit (n / 16 % 16)
    ∷ hex_digit (n % 16)
    ∷ []

unfoldable pub u_escape : ℕ → Text
unfolding hex4
u_escape n = backslash ∷ b'u' ∷ hex4 n

-- The surrogate pair of a code point from 0x10000 on.
abbrev pub high_surrogate : ℕ → ℕ
high_surrogate c = 0xd800 + (c - 0x10000) / 1024 % 1024

abbrev pub low_surrogate : ℕ → ℕ
low_surrogate c = 0xdc00 + (c - 0x10000) % 1024

-- One code point in a string literal.
unfoldable pub escape_char : ℕ → Text
escape_char c =
    if c == quote
    then backslash ∷ quote ∷ []
    else if c == backslash
    then backslash ∷ backslash ∷ []
    else if c == 10
    then backslash ∷ b'n' ∷ []
    else if c == 13
    then backslash ∷ b'r' ∷ []
    else if c == 9
    then backslash ∷ b't' ∷ []
    else if c == 12
    then backslash ∷ b'f' ∷ []
    else if c == 8
    then backslash ∷ b'b' ∷ []
    else if leb 32 c && leb c 126
    then c ∷ []
    else if ltb c 0x10000
    then u_escape c
    else u_escape (high_surrogate c) ++ u_escape (low_surrogate c)

unfoldable pub escape : Text → Text
escape [] = []
escape (c ∷ t) = escape_char c ++ escape t

unfoldable pub print_string : Text → Text
print_string t = quote ∷ (escape t ++ quote ∷ [])

unfoldable pub print_int : ℤ → Text
print_int (pos n) = decimal n
print_int (negsuc n) = b'-' ∷ decimal (n + 1)

unfoldable mutual
  pub print : Value → Text
  print null = codes "null"
  print (boolean true) = codes "true"
  print (boolean false) = codes "false"
  print (int n) = print_int n
  print (str s) = print_string s
  print (arr xs) = b'[' ∷ print_items xs
  print (obj ms) = b'{' ∷ print_members ms

  -- The elements and the closing bracket.
  pub print_items : Items → Text
  print_items nil = b']' ∷ []
  print_items (cons x xs) = print x ++ print_more_items xs

  pub print_more_items : Items → Text
  print_more_items nil = b']' ∷ []
  print_more_items (cons x xs) = b',' ∷ (print x ++ print_more_items xs)

  -- The members and the closing brace.
  pub print_members : Members → Text
  print_members end = b'}' ∷ []
  print_members (member k v ms) = print_string k ++ b':' ∷ (print v ++ print_more_members ms)

  pub print_more_members : Members → Text
  print_more_members end = b'}' ∷ []
  print_more_members (member k v ms) =
      b',' ∷ (print_string k ++ b':' ∷ (print v ++ print_more_members ms))
