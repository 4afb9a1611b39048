-- ===== src/Time/Lexical.antt =====
-- The order of timestamps as texts.
use nexuscone.Prelude.{ℕ, ◌/◌, ◌<◌, ◌≡◌, refl, ap, ◌∙◌, Bool, true, ◌&&◌, ◌||◌, arith, ltb, ◌==◌}
use nexuscone.Text.{text_leb}
use nexuscone.Time.{DateTime, digit}
use nexuscone.Time.RoundTrip.{padded}

-- Compare by two numbers, and where they are equal by what comes after.
abbrev pub lex : ℕ → ℕ → Bool → Bool
lex a b rest = ltb a b || (a == b && rest)

lex_same : (c : ℕ) (rest : Bool) → lex c c rest ≡ rest
lex_same c rest = ground arith

lex-digit : (p q : ℕ) (rest : Bool) → p < 10 → q < 10 → lex (digit p) (digit q) rest ≡ lex p q rest
lex-digit p q rest h k = ground arith

lex_next :
    (p q a b : ℕ) (rest : Bool)
    → a ≡ p / 10
    → b ≡ q / 10
    → lex a b (lex (digit p) (digit q) rest) ≡ lex p q rest
lex_next p q a b rest h k = ground arith

lex_two :
    (p q : ℕ) (rest : Bool)
    → p < 100
    → q < 100
    → lex (digit (p / 10)) (digit (q / 10)) (lex (digit p) (digit q) rest) ≡ lex p q rest
lex_two p q rest h k =
    lex-digit (p / 10) (q / 10) _ (omega arith) (omega arith)
    ∙ lex_next p q (p / 10) (q / 10) rest refl refl

lex_four :
    (p q : ℕ) (rest : Bool)
    → p < 10000
    → q < 10000
    → lex (digit (p / 1000)) (digit (q / 1000)) (
        lex
          (digit (p / 100))
          (digit (q / 100))
          (lex (digit (p / 10)) (digit (q / 10)) (lex (digit p) (digit q) rest)))
      ≡ lex p q rest
lex_four p q rest h k =
    lex-digit (p / 1000) (q / 1000) _ (omega arith) (omega arith)
    ∙ lex_next (p / 100) (q / 100) (p / 1000) (q / 1000) _ (omega arith) (omega arith)
    ∙ lex_next (p / 10) (q / 10) (p / 100) (q / 100) _ (omega arith) (omega arith)
    ∙ lex_next p q (p / 10) (q / 10) rest refl refl

lex_six :
    (p q : ℕ) (rest : Bool)
    → p < 1000000
    → q < 1000000
    → lex (digit (p / 100000)) (digit (q / 100000)) (
        lex (digit (p / 10000)) (digit (q / 10000)) (
          lex (digit (p / 1000)) (digit (q / 1000)) (
            lex
              (digit (p / 100))
              (digit (q / 100))
              (lex (digit (p / 10)) (digit (q / 10)) (lex (digit p) (digit q) rest)))))
      ≡ lex p q rest
lex_six p q rest h k =
    lex-digit (p / 100000) (q / 100000) _ (omega arith) (omega arith)
    ∙ lex_next (p / 10000) (q / 10000) (p / 100000) (q / 100000) _ (omega arith) (omega arith)
    ∙ lex_next (p / 1000) (q / 1000) (p / 10000) (q / 10000) _ (omega arith) (omega arith)
    ∙ lex_next (p / 100) (q / 100) (p / 1000) (q / 1000) _ (omega arith) (omega arith)
    ∙ lex_next (p / 10) (q / 10) (p / 100) (q / 100) _ (omega arith) (omega arith)
    ∙ lex_next p q (p / 10) (q / 10) rest refl refl

-- The fields have as many digits as the format gives them.
pub record HasDigits (t : DateTime) : Type 0 where
  pub year : t.year < 10000
  pub month : t.month < 100
  pub day : t.day < 100
  pub hour : t.hour < 100
  pub minute : t.minute < 100
  pub second : t.second < 100
  pub microsecond : t.microsecond < 1000000

-- The texts compare as the fields do, the greatest first.
pub text_leb-padded :
    (s t : DateTime)
    → HasDigits s
    → HasDigits t
    → text_leb (padded s) (padded t)
      ≡ lex s.year t.year (
          lex s.month t.month (
            lex s.day t.day (
              lex s.hour t.hour (
                lex s.minute t.minute
                  (lex s.second t.second (lex s.microsecond t.microsecond true))))))
unfolding text_leb padded
text_leb-padded s t h k =
    lex_four s.year t.year _ h.year k.year
    ∙ ap (lex s.year t.year) (
        lex_same b'-' _
        ∙ lex_two s.month t.month _ h.month k.month
        ∙ ap (lex s.month t.month) (
            lex_same b'-' _
            ∙ lex_two s.day t.day _ h.day k.day
            ∙ ap (lex s.day t.day) (
                lex_same b'T' _
                ∙ lex_two s.hour t.hour _ h.hour k.hour
                ∙ ap (lex s.hour t.hour) (
                    lex_same b':' _
                    ∙ lex_two s.minute t.minute _ h.minute k.minute
                    ∙ ap (lex s.minute t.minute) (
                        lex_same b':' _
                        ∙ lex_two s.second t.second _ h.second k.second
                        ∙ ap (lex s.second t.second) (
                            lex_same b'.' _
                            ∙ lex_six s.microsecond t.microsecond _ h.microsecond
                                k.microsecond))))))
