-- ===== src/Text/Decimal.antt =====
-- Decimal notation of a natural number: `int.__repr__`, and the reader of a run of digits.
use nexuscone.Prelude.{
  ℕ, zero, suc, ◌+◌, ◌-◌, ◌*◌, ◌/◌, ◌%◌, ◌≤◌, ◌<◌, ◌≡◌, refl, Bool, true, false, ◌&&◌, List, [],
  ◌∷◌, ◌++◌, ◌∙◌, subst, inl, inr, arith, ltb, leb, if◌then◌else◌, Bool-cases, All, All-append,
}
use mathlib.Core.List.{append_assoc}

abbrev pub is_digit : ℕ → Bool
is_digit c = leb b'0' c && leb c b'9'

-- The digits of `n`, most significant first; one unit of fuel for each digit.
decimal_fuel : ℕ → ℕ → List ℕ
decimal_fuel zero n = []
decimal_fuel (suc f) n =
    let front = decimal_fuel f (n / 10) in (if ltb n 10 then [] else front) ++ (b'0' + n % 10) ∷ []

unfoldable pub decimal : ℕ → List ℕ
unfolding decimal_fuel
decimal n = decimal_fuel (suc n) n

-- Reads digits onto `acc` and stops at the first code point that is none.
unfoldable pub read_digits : ℕ → List ℕ → ℕ × List ℕ
read_digits acc [] = (acc, [])
read_digits acc (c ∷ cs) =
    let more = read_digits (acc * 10 + (c - b'0')) cs in if is_digit c then more else (acc, c ∷ cs)

-- What follows does not continue a number.
abbrev pub NoDigit : List ℕ → Type 0
NoDigit [] = Unit
NoDigit (c ∷ cs) = is_digit c ≡ false

read_digits_digit :
    (acc d : ℕ) (rest : List ℕ)
    → d < 10
    → read_digits acc ((b'0' + d) ∷ rest) ≡ read_digits (acc * 10 + d) rest
unfolding read_digits
read_digits_digit acc d rest h =
    let digit : is_digit (b'0' + d) ≡ true = ground arith in
    let value : b'0' + d - b'0' ≡ d = omega arith in rw (digit, value)

-- After `n / 10`, the last digit gives `n`.
read_last_digit :
    (n : ℕ) (rest : List ℕ) → read_digits (n / 10) ((b'0' + n % 10) ∷ rest) ≡ read_digits n rest
read_last_digit n rest =
    let whole : n / 10 * 10 + n % 10 ≡ n = omega arith in
    rw (read_digits_digit (n / 10) (n % 10) rest (omega arith), whole)

read_digits-decimal_fuel :
    (f n : ℕ) (rest : List ℕ)
    → n < f
    → read_digits 0 (decimal_fuel f n ++ rest) ≡ read_digits n rest
unfolding decimal_fuel
read_digits-decimal_fuel zero n rest h = elim h [ ]
read_digits-decimal_fuel (suc f) n rest h = elim (Bool-cases (ltb n 10)) [
  | inl small ↦
      let front : n / 10 ≡ 0 = ground arith in
      rw small (
        subst (λ k. read_digits k ((b'0' + n % 10) ∷ rest) ≡ read_digits n rest) front
          (read_last_digit n rest))
  | inr large ↦
      rw
        (
          large,
          append_assoc,
          read_digits-decimal_fuel f (n / 10) ((b'0' + n % 10) ∷ rest) (ground arith),
        )
        (read_last_digit n rest)
]

-- Reading what `decimal` writes gives the number back, and what follows.
pub read_digits-decimal :
    (n : ℕ) (rest : List ℕ) → NoDigit rest → read_digits 0 (decimal n ++ rest) ≡ (n, rest)
unfolding decimal read_digits
read_digits-decimal n [] h = read_digits-decimal_fuel (suc n) n [] (omega arith)
read_digits-decimal n (c ∷ cs) h = read_digits-decimal_fuel (suc n) n (c ∷ cs) (omega arith) ∙ rw h

-- The digits of a positive number begin with one from 1 to 9, those of zero are `0`.
pub record Leads (s : List ℕ) : Type 0 where
  pub head : ℕ
  pub tail : List ℕ
  pub split : s ≡ head ∷ tail
  pub low : b'1' ≤ head
  pub high : head ≤ b'9'

Leads-append : (s t : List ℕ) → Leads s → Leads (s ++ t)
Leads-append s t l = record {
  head = l.head;
  tail = l.tail ++ t;
  split = rw l.split;
  low = l.low;
  high = l.high;
}

decimal_fuel-Leads : (f n : ℕ) → n < f → 0 < n → Leads (decimal_fuel f n)
unfolding decimal_fuel
decimal_fuel-Leads zero n h p = elim h [ ]
decimal_fuel-Leads (suc f) n h p = elim (Bool-cases (ltb n 10)) [
  | inl small ↦ rw small (record {
    head = b'0' + n % 10;
    tail = [];
    split = refl;
    low = ground arith;
    high = omega arith;
  })
  | inr large ↦ rw large (
      Leads-append (decimal_fuel f (n / 10)) _
        (decimal_fuel-Leads f (n / 10) (ground arith) (ground arith)))
]

pub decimal-Leads : (n : ℕ) → 0 < n → Leads (decimal n)
unfolding decimal
decimal-Leads n p = decimal_fuel-Leads (suc n) n (omega arith) p

pub decimal-zero : decimal 0 ≡ b'0' ∷ []
unfolding decimal
decimal-zero = refl

-- Every code point written is a digit.
decimal_fuel-digits : (f n : ℕ) → All (λ c. is_digit c ≡ true) (decimal_fuel f n)
unfolding decimal_fuel
decimal_fuel-digits zero n = tt
decimal_fuel-digits (suc f) n =
    let last : is_digit (b'0' + n % 10) ≡ true = ground arith in
    elim (Bool-cases (ltb n 10)) [
      | inl small ↦ rw small (last, tt)
      | inr large ↦
          rw large
            (All-append _ (decimal_fuel f (n / 10)) _ (decimal_fuel-digits f (n / 10)) (last, tt))
    ]

pub decimal-digits : (n : ℕ) → All (λ c. is_digit c ≡ true) (decimal n)
unfolding decimal
decimal-digits n = decimal_fuel-digits (suc n) n
