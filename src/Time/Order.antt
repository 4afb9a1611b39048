-- ===== src/Time/Order.antt =====
-- Comparing timestamps as texts and as instants.
use nexuscone.Prelude.{ℕ, ◌+◌, ◌*◌, ◌≤◌, ◌<◌, ◌≡◌, refl, sym, ap, ◌∙◌, ◌↔◌, true, arith, leb}
use nexuscone.Text.{text_leb}
use nexuscone.Time.{
  DateTime, iso, in_range, days_in_month, is_leap, days_before_month, ordinal, micros,
}
use nexuscone.Time.RoundTrip.{fields_fit, IsReadable, padded, iso-padded}
use nexuscone.Time.Calendar.{IsDay}
use nexuscone.Time.Days.{lex-ordinal}
use nexuscone.Time.Lexical.{lex, HasDigits, text_leb-padded}

-- The time of day compares as its microseconds do.
lex_second :
    (a b c d : ℕ)
    → c < 1000000
    → d < 1000000
    → lex a b (leb c d) ≡ leb (a * 1000000 + c) (b * 1000000 + d)
lex_second a b c d h k = ground arith

lex_minute :
    (a b c d : ℕ)
    → c < 60000000
    → d < 60000000
    → lex a b (leb c d) ≡ leb (a * 60000000 + c) (b * 60000000 + d)
lex_minute a b c d h k = ground arith

lex_hour :
    (a b c d : ℕ)
    → c < 3600000000
    → d < 3600000000
    → lex a b (leb c d) ≡ leb (a * 3600000000 + c) (b * 3600000000 + d)
lex_hour a b c d h k = ground arith

lex_day :
    (a b c d : ℕ)
    → c < 86400000000
    → d < 86400000000
    → lex a b (leb c d) ≡ leb (a * 86400000000 + c) (b * 86400000000 + d)
lex_day a b c d h k = ground arith

lex_last : (a b : ℕ) → lex a b true ≡ leb a b
lex_last a b = ground arith

-- What the constructor of `datetime` checks.
pub record IsTime (t : DateTime) : Type 0 where
  pub is_day : IsDay t
  pub year : 1 ≤ t.year
  hour : t.hour < 24
  minute : t.minute < 60
  second : t.second < 60
  microsecond : t.microsecond < 1000000
  digits : HasDigits t

in_range-IsTime : (t : DateTime) → in_range t ≡ true → IsTime t
unfolding in_range
in_range-IsTime t h =
    let (y, m, d, hr, mi, s, u) = fields_fit t h in
    record {
      is_day = ground arith;
      year = ground arith;
      hour = ground arith;
      minute = ground arith;
      second = ground arith;
      microsecond = u;
      digits = record {
        year = y;
        month = m;
        day = d;
        hour = hr;
        minute = mi;
        second = s;
        microsecond = u;
      };
    }

abbrev seconds : DateTime → ℕ
seconds t = t.second * 1000000 + t.microsecond

abbrev minutes : DateTime → ℕ
minutes t = t.minute * 60000000 + seconds t

abbrev hours : DateTime → ℕ
hours t = t.hour * 3600000000 + minutes t

micros-days : (t : DateTime) → micros t ≡ ordinal t * 86400000000 + hours t
unfolding micros
micros-days t = omega arith

-- The start of the year 1000.
abbrev pub year_1000 : DateTime
year_1000 = record {
  year = 1000;
  month = 1;
  day = 1;
  hour = 0;
  minute = 0;
  second = 0;
  microsecond = 0;
}

-- What is not before the year 1000 has a year of four digits.
pub micros-year : (t : DateTime) → in_range t ≡ true → micros year_1000 ≤ micros t → 1000 ≤ t.year
micros-year t h k =
    let first = in_range-IsTime year_1000 (unfold in_range days_in_month is_leap in refl) in
    let a = in_range-IsTime t h in
    let starts : ordinal year_1000 ≡ 364878 = unfold ordinal days_before_month in refl in
    let days : ordinal year_1000 ≤ ordinal t = omega (
      arith,
      k,
      starts,
      micros-days year_1000,
      micros-days t,
      a.hour,
      a.minute,
      a.second,
      a.microsecond,
    ) in
    let order = lex-ordinal year_1000 t true first.is_day a.is_day first.year a.year in
    let last : lex (ordinal year_1000) (ordinal t) true ≡ true = ground (arith, days) in
    ground (arith, order ∙ last)

-- Of two valid datetimes in the years 1000 to 9999, the text that the program writes for the first is at most that of the
-- second exactly when the first instant is at most the second.
pub text_leb-iso_iff :
    (s t : DateTime)
    → IsReadable s
    → IsReadable t
    → (text_leb (iso s) (iso t) ≡ true) ↔ (micros s ≤ micros t)
text_leb-iso_iff s t (h, four_s) (k, four_t) =
    let a = in_range-IsTime s h in
    let b = in_range-IsTime t k in
    let second =
      ap (lex s.second t.second) (lex_last s.microsecond t.microsecond)
      ∙ lex_second s.second t.second s.microsecond t.microsecond a.microsecond b.microsecond in
    let minute =
      ap (lex s.minute t.minute) second
      ∙ lex_minute s.minute t.minute (seconds s) (seconds t)
          (omega (arith, a.second, a.microsecond)) (omega (arith, b.second, b.microsecond)) in
    let hour =
      ap (lex s.hour t.hour) minute
      ∙ lex_hour s.hour t.hour (minutes s) (minutes t)
          (omega (arith, a.minute, a.second, a.microsecond))
          (omega (arith, b.minute, b.second, b.microsecond)) in
    let days =
      ap (λ p. text_leb p (iso t)) (iso-padded s four_s)
      ∙ ap (text_leb (padded s)) (iso-padded t four_t)
      ∙ text_leb-padded s t a.digits b.digits
      ∙ lex-ordinal s t _ a.is_day b.is_day a.year b.year
      ∙ ap (lex (ordinal s) (ordinal t)) hour
      ∙ lex_day (ordinal s) (ordinal t) (hours s) (hours t)
          (omega (arith, a.hour, a.minute, a.second, a.microsecond))
          (omega (arith, b.hour, b.minute, b.second, b.microsecond)) in
    (
      λ e. ground (arith, sym days ∙ e, micros-days s, micros-days t),
      λ e. days ∙ ground (arith, e, micros-days s, micros-days t),
    )
