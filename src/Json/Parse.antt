-- ===== src/Json/Parse.antt =====
-- `json.loads`: the decoder of `json`, by recursive descent on fuel. A number with a fraction or an
-- exponent, `NaN` and `Infinity` are floats, which the model refuses.
use nexuscone.Prelude.{
  ℕ, zero, suc, ◌+◌, ◌*◌, Bool, true, false, ◌&&◌, ◌||◌, [], ◌∷◌, Option, none, some, leb, ◌==◌,
  if◌then◌else◌, length,
}
use nexuscone.Prelude.Int.{ℤ, pos, negsuc}
use nexuscone.Text.{Text, codes}
use nexuscone.Text.Decimal.{read_digits}
use nexuscone.Json.{
  Value, null, boolean, int, str, arr, obj, Items, nil, cons, Members, end, member, dict_of,
}
use nexuscone.Json.Print.{quote}
use nexuscone.Json.Scan.{scan}

-- JSON's white space.
abbrev pub is_blank : ℕ → Bool
is_blank c = c == 32 || c == 9 || c == 10 || c == 13

unfoldable pub skip_space : Text → Text
skip_space [] = []
skip_space (c ∷ cs) = let more = skip_space cs in if is_blank c then more else c ∷ cs

-- What follows `prefix`, if the text begins with it.
unfoldable pub after : Text → Text → Option Text
after [] s = some s
after (p ∷ ps) [] = none
after (p ∷ ps) (c ∷ cs) = let more = after ps cs in if p == c then more else none

-- A fraction or an exponent would make the number a float.
abbrev pub continues : Text → Bool
continues [] = false
continues (c ∷ cs) = c == b'.' || c == b'e' || c == b'E'

abbrev pub whole : ℕ × Text → Option (ℕ × Text)
whole (n, rest) = if continues rest then none else some (n, rest)

-- `0|[1-9][0-9]*`
unfoldable pub parse_nat : Text → Option (ℕ × Text)
parse_nat [] = none
parse_nat (c ∷ cs) =
    if c == b'0'
    then whole (0, cs)
    else if leb b'1' c && leb c b'9'
    then whole (read_digits 0 (c ∷ cs))
    else none

abbrev pub negate : ℕ → ℤ
negate zero = pos 0
negate (suc n) = negsuc n

abbrev pub positive : Option (ℕ × Text) → Option (Value × Text)
positive none = none
positive (some (n, rest)) = some (int (pos n), rest)

abbrev pub negative : Option (ℕ × Text) → Option (Value × Text)
negative none = none
negative (some (n, rest)) = some (int (negate n), rest)

abbrev pub parse_number : Text → Option (Value × Text)
parse_number [] = none
parse_number (c ∷ cs) = if c == b'-' then negative (parse_nat cs) else positive (parse_nat (c ∷ cs))

abbrev pub constant : Value → Option Text → Option (Value × Text)
constant v none = none
constant v (some rest) = some (v, rest)

abbrev pub as_str : Option (Text × Text) → Option (Value × Text)
as_str none = none
as_str (some (t, rest)) = some (str t, rest)

abbrev pub as_arr : Option (Items × Text) → Option (Value × Text)
as_arr none = none
as_arr (some (xs, rest)) = some (arr xs, rest)

abbrev pub as_obj : Option (Members × Text) → Option (Value × Text)
as_obj none = none
as_obj (some (ms, rest)) = some (obj (dict_of ms), rest)

abbrev pub add_item : Value → Option (Items × Text) → Option (Items × Text)
add_item v none = none
add_item v (some (xs, rest)) = some (cons v xs, rest)

abbrev pub add_member : Text → Value → Option (Members × Text) → Option (Members × Text)
add_member k v none = none
add_member k v (some (ms, rest)) = some (member k v ms, rest)

-- A scalar, by its first character; `f` is the fuel of a string.
unfoldable pub parse_scalar : ℕ → ℕ → Text → Option (Value × Text)
parse_scalar f c cs =
    if c == quote
    then as_str (scan f cs)
    else if c == b'n'
    then constant null (after (codes "null") (c ∷ cs))
    else if c == b't'
    then constant (boolean true) (after (codes "true") (c ∷ cs))
    else if c == b'f'
    then constant (boolean false) (after (codes "false") (c ∷ cs))
    else parse_number (c ∷ cs)

-- The members after a value that was read.
abbrev pub valued :
    Text → (Text → Option (Members × Text)) → Option (Value × Text) → Option (Members × Text)
valued k more none = none
valued k more (some (v, rest)) = add_member k v (more (skip_space rest))

-- What follows a key: a colon, a value, and the members after it.
abbrev pub colon :
    (Text → Option (Value × Text))
    → (Text → Option (Members × Text))
    → Text
    → Text
    → Option (Members × Text)
colon value more k [] = none
colon value more k (c ∷ cs) = if c == b':' then valued k more (value (skip_space cs)) else none

-- An object's member after the opening quote: `more` reads the value and the members after it.
abbrev pub keyed :
    (Text → Option (Value × Text))
    → (Text → Option (Members × Text))
    → Option (Text × Text)
    → Option (Members × Text)
keyed value more none = none
keyed value more (some (k, s)) = colon value more k (skip_space s)

abbrev pub and_more : (Text → Option (Items × Text)) → Option (Value × Text) → Option (Items × Text)
and_more more none = none
and_more more (some (v, rest)) = add_item v (more (skip_space rest))

unfoldable mutual
  -- A value at the first character; `none` is a JSONDecodeError, or a lack of fuel.
  pub parse_value : ℕ → Text → Option (Value × Text)
  parse_value zero s = none
  parse_value (suc f) [] = none
  parse_value (suc f) (c ∷ cs) =
      let items = as_arr (parse_items f (skip_space cs)) in
      let members = as_obj (parse_members f (skip_space cs)) in
      if c == b'[' then items else if c == b'{' then members else parse_scalar (suc f) c cs

  -- After the opening bracket.
  pub parse_items : ℕ → Text → Option (Items × Text)
  parse_items zero s = none
  parse_items (suc f) [] = none
  parse_items (suc f) (c ∷ cs) =
      let first = and_more (parse_more_items f) (parse_value f (c ∷ cs)) in
      if c == b']' then some (nil, cs) else first

  -- After an element.
  pub parse_more_items : ℕ → Text → Option (Items × Text)
  parse_more_items zero s = none
  parse_more_items (suc f) [] = none
  parse_more_items (suc f) (c ∷ cs) =
      let next = and_more (parse_more_items f) (parse_value f (skip_space cs)) in
      if c == b']' then some (nil, cs) else if c == b',' then next else none

  -- After the opening brace.
  pub parse_members : ℕ → Text → Option (Members × Text)
  parse_members zero s = none
  parse_members (suc f) [] = none
  parse_members (suc f) (c ∷ cs) =
      let first = keyed (parse_value f) (parse_more_members f) (scan (suc f) cs) in
      if c == b'}' then some (end, cs) else if c == quote then first else none

  -- After a member's value.
  pub parse_more_members : ℕ → Text → Option (Members × Text)
  parse_more_members zero s = none
  parse_more_members (suc f) [] = none
  parse_more_members (suc f) (c ∷ cs) =
      let next = parse_key f (skip_space cs) in
      if c == b'}' then some (end, cs) else if c == b',' then next else none

  -- After a comma: a key must follow.
  pub parse_key : ℕ → Text → Option (Members × Text)
  parse_key zero s = none
  parse_key (suc f) [] = none
  parse_key (suc f) (c ∷ cs) =
      let first = keyed (parse_value f) (parse_more_members f) (scan (suc f) cs) in
      if c == quote then first else none

abbrev pub finish : Option (Value × Text) → Option Value
finish none = none
finish (some (v, rest)) = elim (skip_space rest) [ [] ↦ some v | c ∷ cs ↦ none ]

-- `json.loads`; `none` is its JSONDecodeError.
unfoldable pub loads : Text → Option Value
loads s = finish (parse_value (2 * length s + 2) (skip_space s))
