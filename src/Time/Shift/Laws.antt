-- ===== src/Time/Shift/Laws.antt =====
-- The instants of datetimes from which minutes were subtracted.
use nexuscone.Prelude.{
  ℕ, zero, suc, ◌+◌, ◌-◌, ◌*◌, ◌/◌, ◌%◌, ◌≤◌, ◌<◌, ◌≡◌, refl, inl, inr, true, false, some, arith,
  leb, Bool-cases,
}
use nexuscone.Time.{DateTime, days_in_month, in_range, ordinal, micros}
use nexuscone.Time.Calendar.{IsDay, days_before_year, month_step, month_one, year_step}
use nexuscone.Time.Shift.{previous_day, days_back, at_minute, minute_of_day, shifted, minus_minutes}

ordinal-previous_day :
    (t : DateTime) → IsDay t → 1 ≤ (previous_day t).year → ordinal (previous_day t) + 1 ≡ ordinal t
unfolding ordinal previous_day days_before_year
ordinal-previous_day t d = elim (Bool-cases (leb 2 t.day)) [
  | inl later ↦ λ y. rw later (ground arith)
  | inr first ↦ elim (Bool-cases (leb 2 t.month)) [
    | inl after ↦ λ y. rw (first, after) (ground (arith, month_step t.year t.month))
    | inr january ↦
        rw (first, january) (λ y. ground (arith, year_step t.year, month_one t.year t.month))
  ]
]

year_le : (t : DateTime) → (previous_day t).year ≤ t.year
unfolding previous_day
year_le t = ground arith

-- Only 1 January of year 1 has no day before it.
year_pos : (t : DateTime) → IsDay t → 1 ≤ t.year → 2 ≤ ordinal t → 1 ≤ (previous_day t).year
unfolding ordinal previous_day
year_pos t d y = elim (Bool-cases (leb 2 t.day)) [
  | inl later ↦ λ o. rw later y
  | inr first ↦ elim (Bool-cases (leb 2 t.month)) [
    | inl after ↦ λ o. rw (first, after) y
    | inr january ↦ λ o. rw (first, january) (ground (arith, month_one t.year t.month))
  ]
]

previous_day-IsDay : (t : DateTime) → IsDay t → IsDay (previous_day t)
unfolding previous_day days_in_month
previous_day-IsDay t d = ground arith

-- Going back `n` days stays in the calendar and takes `n` from the ordinal.
days_back_lem :
    (n : ℕ) (t : DateTime)
    → IsDay t
    → 1 ≤ t.year
    → n < ordinal t
    → (1 ≤ (days_back n t).year) × (ordinal (days_back n t) + n ≡ ordinal t)
unfolding days_back
days_back_lem zero t d y h = (y, omega arith)
days_back_lem (suc n) t d y h =
    let pos = year_pos t d y (omega arith) in
    let step = ordinal-previous_day t d pos in
    let (more, counted) =
      days_back_lem n (previous_day t) (previous_day-IsDay t d) pos (omega arith) in
    (more, omega arith)

days_back-seconds :
    (n : ℕ) (t : DateTime)
    → ((days_back n t).second ≡ t.second) × ((days_back n t).microsecond ≡ t.microsecond)
unfolding days_back previous_day
days_back-seconds zero t = (refl, refl)
days_back-seconds (suc n) t = ground (arith, days_back-seconds n (previous_day t))

micros-at_minute :
    (k : ℕ) (t : DateTime)
    → micros (at_minute k t) ≡ ((ordinal t * 1440 + k) * 60 + t.second) * 1000000 + t.microsecond
unfolding micros ordinal
micros-at_minute k t = omega arith

micros-parts :
    (t : DateTime)
    → micros t ≡ ((ordinal t * 1440 + minute_of_day t) * 60 + t.second) * 1000000 + t.microsecond
unfolding micros
micros-parts t = omega arith

-- The instant at minute `k` of the day `n` days before.
earlier_lem :
    (m n k : ℕ) (t : DateTime)
    → IsDay t
    → 1 ≤ t.year
    → n < ordinal t
    → n * 1440 + minute_of_day t ≡ m + k
    → (1 ≤ (days_back n t).year) × (micros (at_minute k (days_back n t)) + m * 60000000 ≡ micros t)
earlier_lem m n k t d y h e =
    let (year, counted) = days_back_lem n t d y h in
    let (seconds, microseconds) = days_back-seconds n t in
    let back = micros-at_minute k (days_back n t) in
    let parts = micros-parts t in (year, omega arith)

module _ (m : ℕ) (t : DateTime) where
  shifted-same :
      leb (m % 1440) (minute_of_day t) ≡ true
      → shifted m t ≡ at_minute (minute_of_day t - m % 1440) (days_back (m / 1440) t)
  unfolding shifted
  shifted-same e = rw e

  shifted-earlier :
      leb (m % 1440) (minute_of_day t) ≡ false
      → shifted m t ≡ at_minute (minute_of_day t + 1440 - m % 1440) (days_back (m / 1440 + 1) t)
  unfolding shifted
  shifted-earlier e = rw e

  minus_minutes-shifted : 1 ≤ (shifted m t).year → minus_minutes m t ≡ some (shifted m t)
  unfolding minus_minutes
  minus_minutes-shifted h = ground arith

shifted_lem :
    (m : ℕ) (t : DateTime)
    → IsDay t
    → 1 ≤ t.year
    → minute_of_day t < 1440
    → t.second < 60
    → t.microsecond < 1000000
    → 86400000000 + m * 60000000 ≤ micros t
    → (1 ≤ (shifted m t).year) × (micros (shifted m t) + m * 60000000 ≡ micros t)
shifted_lem m t d y k s u h =
    let parts = micros-parts t in
    elim (Bool-cases (leb (m % 1440) (minute_of_day t))) [
      | inl same ↦
          let enough : m % 1440 ≤ minute_of_day t = ground arith in
          rw (shifted-same m t same) (
            earlier_lem m (m / 1440) (minute_of_day t - m % 1440) t d y (omega arith) (omega arith))
      | inr more ↦
          let short : minute_of_day t < m % 1440 = ground arith in
          rw (shifted-earlier m t more) (
            earlier_lem m (m / 1440 + 1) (minute_of_day t + 1440 - m % 1440) t d y (omega arith)
              (omega arith))
    ]

in_range-fields :
    (t : DateTime)
    → in_range t ≡ true
    → IsDay t
      × (1 ≤ t.year)
      × (minute_of_day t < 1440)
      × (t.second < 60)
      × (t.microsecond < 1000000)
unfolding in_range
in_range-fields t h = (ground arith, ground arith, ground arith, ground arith, ground arith)

days_back-IsDay : (n : ℕ) (t : DateTime) → IsDay t → IsDay (days_back n t)
unfolding days_back
days_back-IsDay zero t d = d
days_back-IsDay (suc n) t d = days_back-IsDay n (previous_day t) (previous_day-IsDay t d)

days_back-year : (n : ℕ) (t : DateTime) → (days_back n t).year ≤ t.year
unfolding days_back
days_back-year zero t = omega arith
days_back-year (suc n) t = omega (arith, days_back-year n (previous_day t), year_le t)

at_minute-in_range :
    (k n : ℕ) (t : DateTime)
    → in_range t ≡ true
    → k < 1440
    → 1 ≤ (days_back n t).year
    → in_range (at_minute k (days_back n t)) ≡ true
unfolding in_range
at_minute-in_range k n t r h y =
    let (d, _, _, s, u) = in_range-fields t r in
    let day = days_back-IsDay n t d in
    let (seconds, microseconds) = days_back-seconds n t in
    ground (
      arith,
      days_back-year n t,
      seconds,
      microseconds,
      day.month_from,
      day.month_to,
      day.day_from,
      day.day_to,
    )

shifted-in_range :
    (m : ℕ) (t : DateTime)
    → in_range t ≡ true
    → 1 ≤ (shifted m t).year
    → in_range (shifted m t) ≡ true
shifted-in_range m t r =
    let (_, _, k, _, _) = in_range-fields t r in
    elim (Bool-cases (leb (m % 1440) (minute_of_day t))) [
      | inl same ↦
          rw (shifted-same m t same)
            (at_minute-in_range (minute_of_day t - m % 1440) (m / 1440) t r (omega arith))
      | inr more ↦
          let short : minute_of_day t < m % 1440 = ground arith in
          rw (shifted-earlier m t more) (
            at_minute-in_range (minute_of_day t + 1440 - m % 1440) (m / 1440 + 1) t r (omega arith))
    ]

-- Where the instant `m` minutes before a valid time lies in year 1 or later, `minus_minutes` returns
-- a valid time at that instant.
pub minus_minutes_lem :
    (m : ℕ) (t : DateTime)
    → in_range t ≡ true
    → 86400000000 + m * 60000000 ≤ micros t
    → (s : DateTime) × (minus_minutes m t ≡ some s)
      × (in_range s ≡ true)
      × (micros s + m * 60000000 ≡ micros t)
minus_minutes_lem m t r h =
    let (d, y, k, s, u) = in_range-fields t r in
    let (year, instant) = shifted_lem m t d y k s u h in
    (shifted m t, minus_minutes-shifted m t year, shifted-in_range m t r year, instant)
