-- ===== src/Json/Numbers.antt =====
-- Integers are read back, and how the text of a value begins.
use nexuscone.Prelude.{
  ℕ, zero, suc, ◌≤◌, ◌≡◌, refl, sym, ◌∙◌, ap, true, false, ◌&&◌, [], ◌∷◌, ◌++◌, some, arith, leb,
  ◌==◌,
}
use nexuscone.Prelude.Int.{pos, negsuc}
use nexuscone.Text.{Text}
use nexuscone.Text.Decimal.{
  decimal, read_digits, is_digit, NoDigit, read_digits-decimal, decimal-Leads, decimal-zero,
}
use nexuscone.Json.{Value, null, boolean, int, str, arr, obj}
use nexuscone.Json.Print.{print, print_int, print_string}
use nexuscone.Json.Parse.{is_blank, continues, parse_nat, skip_space}

-- What follows a value does not continue a number.
abbrev pub Ends : Text → Type 0
Ends [] = Unit
Ends (c ∷ cs) = (is_digit c ≡ false) × (continues (c ∷ cs) ≡ false)

Ends-NoDigit : (s : Text) → Ends s → NoDigit s
Ends-NoDigit [] h = tt
Ends-NoDigit (c ∷ cs) h = h.0

Ends-continues : (s : Text) → Ends s → continues s ≡ false
Ends-continues [] h = refl
Ends-continues (c ∷ cs) h = h.1

pub parse_nat-decimal :
    (n : ℕ) (rest : Text) → Ends rest → parse_nat (decimal n ++ rest) ≡ some (n, rest)
unfolding parse_nat
parse_nat-decimal zero rest h = rw (decimal-zero, Ends-continues rest h)
parse_nat-decimal (suc n) rest h =
    let l = decimal-Leads (suc n) (omega arith) in
    let read : read_digits 0 (l.head ∷ l.tail ++ rest) ≡ (suc n, rest) =
      ap (λ s. read_digits 0 (s ++ rest)) (sym l.split)
      ∙ read_digits-decimal (suc n) rest (Ends-NoDigit rest h) in
    let nonzero : (l.head == b'0') ≡ false = ground (arith, l.low) in
    let digit : leb b'1' l.head && leb l.head b'9' ≡ true = ground (arith, l.low, l.high) in
    rw (l.split, nonzero, digit, read, Ends-continues rest h)

-- How a value's text begins: with no white space and with no closing bracket.
pub record Starts (s : Text) : Type 0 where
  pub head : ℕ
  pub tail : Text
  pub split : s ≡ head ∷ tail
  pub solid : is_blank head ≡ false
  pub opens : (head == b']') ≡ false

decimal-Starts : (n : ℕ) → Starts (decimal n)
decimal-Starts zero = record {
  head = b'0';
  tail = [];
  split = decimal-zero;
  solid = refl;
  opens = refl;
}
decimal-Starts (suc n) =
    let l = decimal-Leads (suc n) (omega arith) in
    record {
      head = l.head;
      tail = l.tail;
      split = l.split;
      solid = ground (arith, l.low, l.high);
      opens = ground (arith, l.low, l.high);
    }

begins : (c : ℕ) (s : Text) → is_blank c ≡ false → (c == b']') ≡ false → Starts (c ∷ s)
begins c s h k = record { head = c; tail = s; split = refl; solid = h; opens = k }

pub print-Starts : (v : Value) → Starts (print v)
unfolding print print_int print_string
print-Starts null = begins _ _ refl refl
print-Starts (boolean true) = begins _ _ refl refl
print-Starts (boolean false) = begins _ _ refl refl
print-Starts (int (pos n)) = decimal-Starts n
print-Starts (int (negsuc n)) = begins _ _ refl refl
print-Starts (str s) = begins _ _ refl refl
print-Starts (arr xs) = begins _ _ refl refl
print-Starts (obj ms) = begins _ _ refl refl

-- No white space is skipped before a value.
pub skip_space-Starts : (s rest : Text) → Starts s → skip_space (s ++ rest) ≡ s ++ rest
unfolding skip_space
skip_space-Starts s rest b = rw (b.split, b.solid)

-- The first digit of a number.
pub decimal-head : (n : ℕ) → (c : ℕ) × (cs : Text) × (decimal n ≡ c ∷ cs) × (b'0' ≤ c) × (c ≤ b'9')
decimal-head zero = (b'0', [], decimal-zero, omega arith, omega arith)
decimal-head (suc n) =
    let l = decimal-Leads (suc n) (omega arith) in
    (l.head, l.tail, l.split, omega (arith, l.low), l.high)
