-- ===== src/Time/RoundTrip.antt =====
-- Reading a timestamp that was written.
use nexuscone.Prelude.{
  ℕ, ◌+◌, ◌-◌, ◌*◌, ◌/◌, ◌%◌, ◌<◌, ◌≤◌, ◌≡◌, refl, true, List, [], ◌∷◌, some, arith, leb,
}
use native.Mathlib.Nat.{zero-add}
use nexuscone.Text.{Text}
use nexuscone.Time.{DateTime, digit, iso, number, in_range, from_iso, days_in_month}

number_two : (n : ℕ) → n < 100 → number 0 (digit (n / 10) ∷ digit n ∷ []) ≡ some n
unfolding number
number_two n h = ground arith

number_four :
    (n : ℕ)
    → n < 10000
    → number 0 (digit (n / 1000) ∷ digit (n / 100) ∷ digit (n / 10) ∷ digit n ∷ []) ≡ some n
unfolding number
number_four n h = ground arith

step : (acc n : ℕ) (cs : List ℕ) → number acc (digit n ∷ cs) ≡ number (acc * 10 + n % 10) cs
unfolding number
step acc n cs =
    let value : b'0' + n % 10 - b'0' ≡ n % 10 = omega arith in
    let low : leb b'0' (b'0' + n % 10) ≡ true = ground arith in
    let high : leb (b'0' + n % 10) b'9' ≡ true = ground arith in rw (low, high, value)

number_six :
    (n : ℕ)
    → n < 1000000
    → number 0 (
        digit (n / 100000)
        ∷ digit (n / 10000)
        ∷ digit (n / 1000)
        ∷ digit (n / 100)
        ∷ digit (n / 10)
        ∷ digit n
        ∷ [])
      ≡ some n
number_six n h =
    let value : ((((n / 100000 % 10 * 10 + n / 10000 % 10) * 10 + n / 1000 % 10) * 10
                  + n / 100 % 10)
                * 10
              + n / 10 % 10)
            * 10
          + n % 10
        ≡ n =
      omega arith in
    rw (step, step, step, step, step, step) (unfold number in rw (zero-add, value))

days_in_month-le : (y m : ℕ) → days_in_month y m ≤ 31
unfolding days_in_month
days_in_month-le y m = ground arith

-- The fields that the format holds are small enough for it.
pub fields_fit :
    (t : DateTime)
    → in_range t ≡ true
    → (t.year < 10000)
      × (t.month < 100)
      × (t.day < 100)
      × (t.hour < 100)
      × (t.minute < 100)
      × (t.second < 100)
      × (t.microsecond < 1000000)
unfolding in_range
fields_fit t h = ground (arith, days_in_month-le t.year t.month)

-- The text of a time whose year has four digits.
unfoldable pub padded : DateTime → Text
padded t =
    digit (t.year / 1000)
    ∷ digit (t.year / 100)
    ∷ digit (t.year / 10)
    ∷ digit t.year
    ∷ b'-'
    ∷ digit (t.month / 10)
    ∷ digit t.month
    ∷ b'-'
    ∷ digit (t.day / 10)
    ∷ digit t.day
    ∷ b'T'
    ∷ digit (t.hour / 10)
    ∷ digit t.hour
    ∷ b':'
    ∷ digit (t.minute / 10)
    ∷ digit t.minute
    ∷ b':'
    ∷ digit (t.second / 10)
    ∷ digit t.second
    ∷ b'.'
    ∷ digit (t.microsecond / 100000)
    ∷ digit (t.microsecond / 10000)
    ∷ digit (t.microsecond / 1000)
    ∷ digit (t.microsecond / 100)
    ∷ digit (t.microsecond / 10)
    ∷ digit t.microsecond
    ∷ b'Z'
    ∷ []

pub iso-padded : (t : DateTime) → 1000 ≤ t.year → iso t ≡ padded t
unfolding iso padded
iso-padded t h = let four : leb 1000 t.year ≡ true = ground arith in rw four refl

-- A valid datetime of a year of four digits.
abbrev pub IsReadable : DateTime → Type 0
IsReadable t = (in_range t ≡ true) × (1000 ≤ t.year)

-- `fromisoformat` reads back every valid datetime that the program writes, in the years 1000 to
-- 9999.
pub from_iso-iso : (t : DateTime) → IsReadable t → from_iso (iso t) ≡ some t
unfolding from_iso padded
from_iso-iso t (h, four) =
    let (y, m, d, hr, mi, s, u) = fields_fit t h in
    rw (iso-padded t four) rw (
      number_four t.year y,
      number_two t.month m,
      number_two t.day d,
      number_two t.hour hr,
      number_two t.minute mi,
      number_two t.second s,
      number_six t.microsecond u,
      h,
    )
