-- ===== src/Time/Days.antt =====
-- Years, months and days against the days that they count.
use nexuscone.Prelude.{
  ℕ, zero, suc, ◌+◌, ◌≤◌, ◌<◌, ◌≡◌, refl, sym, ap, ◌∙◌, ◌⊎◌, inl, inr, Bool, arith, ltb, ◌==◌,
  if◌then◌else◌, Bool-cases, subst,
}
use nexuscone.Time.{DateTime, is_leap, days_in_month, days_before_month, ordinal}
use nexuscone.Time.Calendar.{
  IsDay, days_before_month-suc, days_before_december, days_before_year, days_before_year-suc,
}
use nexuscone.Time.Lexical.{lex}

tri : (a b : ℕ) → (a < b) ⊎ ((a ≡ b) ⊎ (b < a))
tri a b = elim (Bool-cases (ltb a b)) [
  | inl e ↦ inl (ground arith)
  | inr e ↦ elim (Bool-cases (a == b)) [
    | inl f ↦ inr (inl (ground arith))
    | inr f ↦ inr (inr (ground arith))
  ]
]

lex_lt : (a b c d : ℕ) (q r : Bool) → a < b → c < d → lex a b q ≡ lex c d r
lex_lt a b c d q r h k = ground arith

lex_gt : (a b c d : ℕ) (q r : Bool) → b < a → d < c → lex a b q ≡ lex c d r
lex_gt a b c d q r h k = ground arith

lex_shift : (x a b : ℕ) (r : Bool) → lex a b r ≡ lex (x + a) (x + b) r
lex_shift x a b r = ground arith

lex_eq : (a b : ℕ) (r : Bool) → a ≡ b → lex a b r ≡ r
lex_eq a b r h = ground arith

month_mono :
    (y m n : ℕ) → 1 ≤ m → m < n → days_before_month y m + days_in_month y m ≤ days_before_month y n
month_mono y m zero h k = absurd (omega arith)
month_mono y m (suc n) h k = elim (tri m n) [
  | inl below ↦ omega (arith, month_mono y m n h below, days_before_month-suc y n (omega arith))
  | inr rest ↦ elim rest [
    | inl same ↦
        subst (λ i. days_before_month y m + days_in_month y m ≤ days_before_month y (suc i)) same
          (omega (arith, days_before_month-suc y m h))
    | inr above ↦ absurd (omega arith)
  ]
]

year_mono : (y z : ℕ) → 1 ≤ y → y < z → days_before_year (y + 1) ≤ days_before_year z
year_mono y zero h k = absurd (omega arith)
year_mono y (suc z) h k = elim (tri y z) [
  | inl below ↦
      let step = days_before_year-suc z (omega arith) in
      let next : z + 1 ≡ suc z = omega arith in
      omega (arith, year_mono y z h below, step, ap days_before_year next)
  | inr rest ↦ elim rest [
    | inl same ↦ let next : y + 1 ≡ suc z = omega arith in omega (arith, ap days_before_year next)
    | inr above ↦ absurd (omega arith)
  ]
]

day_of_year : DateTime → ℕ
day_of_year t = days_before_month t.year t.month + t.day

days_in_year : (t : DateTime) → IsDay t → day_of_year t ≤ (if is_leap t.year then 366 else 365)
unfolding day_of_year
days_in_year t d = elim (tri t.month 12) [
  | inl early ↦ ground (
    arith,
    month_mono t.year t.month 12 d.month_from early,
    days_before_december t.year,
    d.day_to,
  )
  | inr rest ↦ elim rest [
    | inl last ↦
        let long : t.day ≤ days_in_month t.year 12 =
          subst (λ m. t.day ≤ days_in_month t.year m) last d.day_to in
        let before = ap (days_before_month t.year) last in
        let december : days_in_month t.year 12 ≡ 31 = unfold days_in_month in refl in
        ground (arith, long, before, december, days_before_december t.year)
    | inr never ↦ absurd (omega (arith, never, d.month_to))
  ]
]

ordinal-year : (t : DateTime) → ordinal t ≡ days_before_year t.year + day_of_year t
unfolding ordinal days_before_year day_of_year
ordinal-year t = omega arith

-- Within a year the month and the day compare as the days do.
lex-day_of_year :
    (y m n d e : ℕ) (r : Bool)
    → 1 ≤ m
    → 1 ≤ n
    → 1 ≤ d
    → 1 ≤ e
    → d ≤ days_in_month y m
    → e ≤ days_in_month y n
    → lex m n (lex d e r) ≡ lex (days_before_month y m + d) (days_before_month y n + e) r
lex-day_of_year y m n d e r hm hn hd he h k = elim (tri m n) [
  | inl below ↦
      lex_lt m n (days_before_month y m + d) (days_before_month y n + e) (lex d e r) r below
        (omega (arith, month_mono y m n hm below))
  | inr rest ↦ elim rest [
    | inl same ↦
        lex_eq m n (lex d e r) same
        ∙ lex_shift (days_before_month y m) d e r
        ∙ ap (λ i. lex (days_before_month y m + d) (days_before_month y i + e) r) same
    | inr above ↦
        lex_gt m n (days_before_month y m + d) (days_before_month y n + e) (lex d e r) r above
          (omega (arith, month_mono y n m hn above))
  ]
]

day_pos : (u : DateTime) → IsDay u → 1 ≤ day_of_year u
unfolding day_of_year
day_pos u h = omega (arith, h.day_from)

ordinals :
    (s t : DateTime) (r : Bool)
    → lex (ordinal s) (ordinal t) r
      ≡ lex
          (days_before_year s.year + day_of_year s)
          (days_before_year t.year + (days_before_month t.year t.month + t.day))
          r
unfolding day_of_year
ordinals s t r = rw (ordinal-year s, ordinal-year t) refl

pub lex-ordinal :
    (s t : DateTime) (r : Bool)
    → IsDay s
    → IsDay t
    → 1 ≤ s.year
    → 1 ≤ t.year
    → lex s.year t.year (lex s.month t.month (lex s.day t.day r)) ≡ lex (ordinal s) (ordinal t) r
unfolding day_of_year
lex-ordinal s t r d e y z = elim (tri s.year t.year) [
  | inl below ↦
      lex_lt s.year t.year (ordinal s) (ordinal t) (lex s.month t.month (lex s.day t.day r)) r below
        (ground (
          arith,
          year_mono s.year t.year y below,
          days_before_year-suc s.year y,
          days_in_year s d,
          ordinal-year s,
          ordinal-year t,
          day_pos t e,
        ))
  | inr rest ↦ elim rest [
    | inl same ↦
        let long : t.day ≤ days_in_month s.year t.month =
          subst (λ i. t.day ≤ days_in_month i t.month) (sym same) e.day_to in
        let days =
          lex-day_of_year s.year s.month t.month s.day t.day r d.month_from e.month_from d.day_from
            e.day_from d.day_to long in
        lex_eq s.year t.year _ same
        ∙ days
        ∙ lex_shift (days_before_year s.year) _ _ r
        ∙ ap
            (λ i.
              lex (days_before_year s.year + day_of_year s)
                (days_before_year i + (days_before_month i t.month + t.day)) r)
            same
        ∙ sym (ordinals s t r)
    | inr above ↦
        lex_gt s.year t.year (ordinal s) (ordinal t) (lex s.month t.month (lex s.day t.day r)) r
          above
          (ground (
            arith,
            year_mono t.year s.year z above,
            days_before_year-suc t.year z,
            days_in_year t e,
            ordinal-year s,
            ordinal-year t,
            day_pos s d,
          ))
  ]
]
