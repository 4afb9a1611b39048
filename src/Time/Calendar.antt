-- ===== src/Time/Calendar.antt =====
-- Counting the days of the calendar.
use nexuscone.Prelude.{
  ℕ, zero, suc, ◌+◌, ◌-◌, ◌*◌, ◌/◌, ◌≤◌, ◌<◌, ◌≡◌, sym, ap, ◌∙◌, inl, inr, arith, if◌then◌else◌,
  Bool-cases,
}
use nexuscone.Time.{DateTime, is_leap, days_in_month, days_before_month}

-- A day of the calendar, from year 1 on.
pub record IsDay (t : DateTime) : Type 0 where
  pub month_from : 1 ≤ t.month
  pub month_to : t.month ≤ 12
  pub day_from : 1 ≤ t.day
  pub day_to : t.day ≤ days_in_month t.year t.month

pub days_before_month-suc :
    (y m : ℕ) → 1 ≤ m → days_before_month y (suc m) ≡ days_before_month y m + days_in_month y m
unfolding days_before_month
days_before_month-suc y m h = ground arith

pub days_before_december : (y : ℕ) → days_before_month y 12 ≡ (if is_leap y then 335 else 334)
unfolding days_before_month days_in_month
days_before_december y = elim (Bool-cases (is_leap y)) [
  | inl leap ↦ rw leap
  | inr common ↦ rw common
]

unfoldable pub days_before_year : ℕ → ℕ
days_before_year y = (y - 1) * 365 + (y - 1) / 4 - (y - 1) / 100 + (y - 1) / 400

pub days_before_year-suc :
    (y : ℕ)
    → 1 ≤ y
    → days_before_year (y + 1) ≡ days_before_year y + (if is_leap y then 366 else 365)
unfolding days_before_year is_leap
days_before_year-suc y h = ground arith

pub month_step :
    (y m : ℕ)
    → 2 ≤ m
    → days_before_month y (m - 1) + days_in_month y (m - 1) ≡ days_before_month y m
month_step y zero h = absurd (omega arith)
month_step y (suc m) h = ground (arith, days_before_month-suc y m)

pub month_one : (y m : ℕ) → 1 ≤ m → m < 2 → days_before_month y m ≡ 0
unfolding days_before_month
month_one y zero h k = absurd (omega arith)
month_one y (suc zero) h k = omega arith
month_one y (suc (suc m)) h k = absurd (omega arith)

pub year_step :
    (y : ℕ)
    → 2 ≤ y
    → days_before_year (y - 1) + days_before_month (y - 1) 12 + 31 ≡ days_before_year y
year_step y h =
    let next : y - 1 + 1 ≡ y = omega arith in
    let grown = ap days_before_year (sym next) ∙ days_before_year-suc (y - 1) (omega arith) in
    ground (arith, grown, days_before_december (y - 1))
