-- ===== src/Time/Shift.antt =====
-- `now - timedelta(minutes=m)`, for a number of minutes that is not negative.
pub mod Laws
use nexuscone.Prelude.{
  ℕ, zero, suc, ◌+◌, ◌-◌, ◌*◌, ◌/◌, ◌%◌, ◌≤◌, ◌<◌, ◌≡◌, refl, sym, ap, ◌∙◌, inl, inr, true, false,
  Bool, Option, none, some, arith, leb, ◌==◌, if◌then◌else◌, Bool-cases,
}
use nexuscone.Time.{DateTime, is_leap, days_in_month, in_range, days_before_month, ordinal, micros}

-- The same time of day one day earlier; before 1 January of year 1 comes year 0.
unfoldable pub previous_day : DateTime → DateTime
previous_day t =
    if leb 2 t.day
    then record t { day = t.day - 1 }
    else if leb 2 t.month
    then record t { month = t.month - 1; day = days_in_month t.year (t.month - 1) }
    else record t { year = t.year - 1; month = 12; day = 31 }

unfoldable pub days_back : ℕ → DateTime → DateTime
unfolding previous_day
days_back zero t = t
days_back (suc n) t = days_back n (previous_day t)

abbrev pub at_minute : ℕ → DateTime → DateTime
at_minute k t = record t { hour = k / 60; minute = k % 60 }

abbrev pub minute_of_day : DateTime → ℕ
minute_of_day t = t.hour * 60 + t.minute

-- The instant `m` minutes earlier, in a calendar that goes on below year 1.
unfoldable pub shifted : ℕ → DateTime → DateTime
unfolding days_back
shifted m t =
    if leb (m % 1440) (minute_of_day t)
    then at_minute (minute_of_day t - m % 1440) (days_back (m / 1440) t)
    else at_minute (minute_of_day t + 1440 - m % 1440) (days_back (m / 1440 + 1) t)

-- `none` is the OverflowError of a date before year 1.
unfoldable pub minus_minutes : ℕ → DateTime → Option DateTime
unfolding shifted
minus_minutes m t = if (shifted m t).year == 0 then none else some (shifted m t)
