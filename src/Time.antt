-- ===== src/Time.antt =====
-- The part of `datetime` that the program uses: an aware datetime in UTC, its text in the format
-- "%Y-%m-%dT%H:%M:%S.%fZ", and the reading of that text.
pub mod RoundTrip
pub mod Calendar
pub mod Shift
pub mod Lexical
pub mod Days
pub mod Order
use nexuscone.Prelude.{
  ℕ, zero, suc, ◌+◌, ◌-◌, ◌*◌, ◌/◌, ◌%◌, ◌≤◌, Bool, true, false, ◌&&◌, ◌||◌, not, List, [], ◌∷◌,
  ◌++◌, Option, none, some, ltb, leb, ◌==◌, if◌then◌else◌,
}
use nexuscone.Text.{Text}

pub record DateTime : Type 0 where
  pub year : ℕ
  pub month : ℕ
  pub day : ℕ
  pub hour : ℕ
  pub minute : ℕ
  pub second : ℕ
  pub microsecond : ℕ

abbrev pub digit : ℕ → ℕ
digit n = b'0' + n % 10

-- `%Y`, which `strftime` on Linux does not fill up with zeros.
unfoldable pub year_text : ℕ → Text
year_text y =
    if leb 1000 y
    then digit (y / 1000) ∷ digit (y / 100) ∷ digit (y / 10) ∷ digit y ∷ []
    else if leb 100 y
    then digit (y / 100) ∷ digit (y / 10) ∷ digit y ∷ []
    else if leb 10 y
    then digit (y / 10) ∷ digit y ∷ []
    else digit y ∷ []

-- `strftime("%Y-%m-%dT%H:%M:%S.%fZ")`
unfoldable pub iso : DateTime → Text
unfolding year_text
iso t =
    year_text t.year
    ++ b'-'
      ∷ digit (t.month / 10)
      ∷ digit t.month
      ∷ b'-'
      ∷ digit (t.day / 10)
      ∷ digit t.day
      ∷ b'T'
      ∷ digit (t.hour / 10)
      ∷ digit t.hour
      ∷ b':'
      ∷ digit (t.minute / 10)
      ∷ digit t.minute
      ∷ b':'
      ∷ digit (t.second / 10)
      ∷ digit t.second
      ∷ b'.'
      ∷ digit (t.microsecond / 100000)
      ∷ digit (t.microsecond / 10000)
      ∷ digit (t.microsecond / 1000)
      ∷ digit (t.microsecond / 100)
      ∷ digit (t.microsecond / 10)
      ∷ digit t.microsecond
      ∷ b'Z'
      ∷ []

unfoldable pub is_leap : ℕ → Bool
is_leap y = y % 4 == 0 && (not (y % 100 == 0) || y % 400 == 0)

unfoldable pub days_in_month : ℕ → ℕ → ℕ
days_in_month y m =
    if m == 2
    then (if is_leap y then 29 else 28)
    else if m == 4 || m == 6 || m == 9 || m == 11
    then 30
    else 31

-- The ranges that the constructor of `datetime` checks.
unfoldable pub in_range : DateTime → Bool
in_range t =
    (leb 1 t.year && leb t.year 9999)
    && (leb 1 t.month && leb t.month 12)
    && (leb 1 t.day && leb t.day (days_in_month t.year t.month))
    && ltb t.hour 24
    && ltb t.minute 60
    && ltb t.second 60
    && ltb t.microsecond 1000000

-- The number that digits spell, most significant first; `none` if one is no digit.
unfoldable pub number : ℕ → List ℕ → Option ℕ
number acc [] = some acc
number acc (c ∷ cs) =
    let more = number (acc * 10 + (c - b'0')) cs in if leb b'0' c && leb c b'9' then more else none

abbrev checked : DateTime → Option DateTime
checked t = if in_range t then some t else none

abbrev pub build :
    Option ℕ → Option ℕ → Option ℕ → Option ℕ → Option ℕ → Option ℕ → Option ℕ → Option DateTime
build (some y) (some m) (some d) (some h) (some n) (some s) (some u) =
    checked
      (record { year = y; month = m; day = d; hour = h; minute = n; second = s; microsecond = u })
build _ _ _ _ _ _ _ = none

-- The separators of the format, the last one written `Z`.
abbrev pub separated : List ℕ → Bool
separated (a ∷ b ∷ t ∷ c ∷ d ∷ p ∷ z ∷ []) =
    a == b'-' && b == b'-' && t == b'T' && c == b':' && d == b':' && p == b'.' && z == b'Z'
separated _ = false

-- `datetime.fromisoformat(s.replace("Z", "+00:00"))` of a text in the format above. The other
-- forms that `fromisoformat` accepts are not modelled: `none` is its ValueError.
unfoldable pub from_iso : Text → Option DateTime
from_iso
      (y₁ ∷ y₂ ∷ y₃ ∷ y₄ ∷ a ∷ m₁ ∷ m₂ ∷ b ∷ d₁ ∷ d₂ ∷ t ∷ h₁ ∷ h₂ ∷ c ∷ n₁ ∷ n₂ ∷ d ∷ s₁ ∷ s₂ ∷ p
        ∷ u₁ ∷ u₂ ∷ u₃ ∷ u₄ ∷ u₅ ∷ u₆ ∷ z ∷ []) =
    if separated (a ∷ b ∷ t ∷ c ∷ d ∷ p ∷ z ∷ [])
    then build (number 0 (y₁ ∷ y₂ ∷ y₃ ∷ y₄ ∷ [])) (number 0 (m₁ ∷ m₂ ∷ []))
        (number 0 (d₁ ∷ d₂ ∷ [])) (number 0 (h₁ ∷ h₂ ∷ [])) (number 0 (n₁ ∷ n₂ ∷ []))
        (number 0 (s₁ ∷ s₂ ∷ [])) (number 0 (u₁ ∷ u₂ ∷ u₃ ∷ u₄ ∷ u₅ ∷ u₆ ∷ []))
    else none
from_iso _ = none

-- Days from the start of the year to the start of a month.
unfoldable pub days_before_month : ℕ → ℕ → ℕ
days_before_month y zero = 0
days_before_month y (suc m) = days_before_month y m + (if m == 0 then 0 else days_in_month y m)

-- `toordinal`, and the microseconds since year 1 by which two datetimes are subtracted.
unfoldable pub ordinal : DateTime → ℕ
ordinal t =
    let y = t.year - 1 in
    y * 365 + y / 4 - y / 100 + y / 400 + days_before_month t.year t.month + t.day

unfoldable pub micros : DateTime → ℕ
unfolding ordinal
micros t = (((ordinal t * 24 + t.hour) * 60 + t.minute) * 60 + t.second) * 1000000 + t.microsecond
