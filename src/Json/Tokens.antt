-- ===== src/Json/Tokens.antt =====
-- What numbers and constants leave of a text.
use nexuscone.Prelude.{
  ℕ, suc, ◌+◌, ◌-◌, ◌*◌, ◌≤◌, ◌<◌, ◌≡◌, refl, ap, Bool, true, false, inl, inr, [], ◌∷◌, Option,
  none, some, arith, leb, ◌==◌, ◌&&◌, if◌then◌else◌, length, Bool-cases, Option-cases,
}
use nexuscone.Text.{Text, codes}
use nexuscone.Text.Decimal.{read_digits, is_digit}
use nexuscone.Json.{Value, null, boolean}
use nexuscone.Json.Print.{quote}
use nexuscone.Json.Scan.{scan}
use nexuscone.Json.Shrink.{Within, Within-mono, Agree, Agree-mono, scan-Agree}
use nexuscone.Json.Parse.{
  after, parse_nat, whole, positive, negative, parse_number, constant, as_str, parse_scalar,
  continues,
}

length-read_digits : (acc : ℕ) (s : Text) → length (read_digits acc s).1 ≤ length s
unfolding read_digits
length-read_digits acc [] = omega arith
length-read_digits acc (c ∷ cs) = elim (Bool-cases (is_digit c)) [
  | inl digit ↦ rw digit (omega (arith, length-read_digits (acc * 10 + (c - b'0')) cs))
  | inr done ↦ rw done (omega arith)
]

whole-Within : (p : ℕ × Text) (n : ℕ) → length p.1 < n → Within n (whole p)
whole-Within (m, rest) n h = elim (Bool-cases (continues rest)) [
  | inl more ↦ rw more tt
  | inr done ↦ rw done h
]

parse_nat-Within : (s : Text) → Within (length s) (parse_nat s)
unfolding parse_nat
parse_nat-Within [] = tt
parse_nat-Within (c ∷ cs) = elim (Bool-cases (c == b'0')) [
  | inl nought ↦ rw nought (whole-Within (0, cs) (suc (length cs)) (omega arith))
  | inr positive ↦ elim (Bool-cases (leb b'1' c && leb c b'9')) [
    | inl digit ↦
        let leading : is_digit c ≡ true = ground arith in
        let rest = length-read_digits (0 * 10 + (c - b'0')) cs in
        rw positive rw digit (
          whole-Within (read_digits 0 (c ∷ cs)) (suc (length cs))
            (unfold read_digits in rw leading (omega (arith, rest))))
    | inr odd ↦ rw positive rw odd tt
  ]
]

positive-Within : (n : ℕ) (o : Option (ℕ × Text)) → Within n o → Within n (positive o)
positive-Within n none w = tt
positive-Within n (some (m, rest)) w = w

negative-Within : (n : ℕ) (o : Option (ℕ × Text)) → Within n o → Within n (negative o)
negative-Within n none w = tt
negative-Within n (some (m, rest)) w = w

pub choose-Within :
    {A : Type 0} (n : ℕ) (b : Bool) (o p : Option (A × Text))
    → Within n o
    → Within n p
    → Within n (if b then o else p)
choose-Within n true o p h k = h
choose-Within n false o p h k = k

pub parse_number-Within : (s : Text) → Within (length s) (parse_number s)
parse_number-Within [] = tt
parse_number-Within (c ∷ cs) =
    choose-Within (suc (length cs)) (c == b'-') (negative (parse_nat cs))
      (positive (parse_nat (c ∷ cs)))
      (negative-Within (suc (length cs)) (parse_nat cs) (
        Within-mono (length cs) (suc (length cs)) (parse_nat cs) (omega arith)
          (parse_nat-Within cs)))
      (positive-Within (suc (length cs)) (parse_nat (c ∷ cs)) (parse_nat-Within (c ∷ cs)))

-- A constant takes at least its first character.
after-shorter :
    (p : Text) (s rest : Text) → after p s ≡ some rest → length rest + length p ≤ length s
unfolding after
after-shorter [] s rest e = let same : s ≡ rest = cc in omega (arith, ap length same)
after-shorter (p ∷ ps) [] rest e = cc
after-shorter (p ∷ ps) (c ∷ cs) rest e = elim (Bool-cases (p == c)) [
  | inl same ↦ omega (arith, after-shorter ps cs rest (rw same at e))
  | inr other ↦ let never : none ≡ some rest = rw other at e in cc
]

constant-Within :
    (v : Value) (p : ℕ) (ps s : Text) → Within (length s) (constant v (after (p ∷ ps) s))
constant-Within v p ps s = elim (Option-cases (after (p ∷ ps) s)) [
  | inl e ↦ rw e tt
  | inr (rest, e) ↦ rw e (omega (arith, after-shorter (p ∷ ps) s rest e))
]

as_str-Agree : (n : ℕ) (o p : Option (Text × Text)) → Agree n o p → Agree n (as_str o) (as_str p)
as_str-Agree n none p (same, w) = (ap as_str same, tt)
as_str-Agree n (some (t, rest)) p (same, w) = (ap as_str same, w)

pub choose-Agree :
    {A : Type 0} (n : ℕ) (b : Bool) (o₁ o₂ p₁ p₂ : Option (A × Text))
    → Agree n o₁ o₂
    → Agree n p₁ p₂
    → Agree n (if b then o₁ else p₁) (if b then o₂ else p₂)
choose-Agree n true o₁ o₂ p₁ p₂ h k = h
choose-Agree n false o₁ o₂ p₁ p₂ h k = k

pub parse_scalar-Agree :
    (f g c : ℕ) (cs : Text)
    → length cs < f
    → length cs < g
    → Agree (suc (length cs)) (parse_scalar f c cs) (parse_scalar g c cs)
unfolding parse_scalar
parse_scalar-Agree f g c cs h k =
    let n = suc (length cs) in
    choose-Agree n (c == quote) _ _ _ _
      (as_str-Agree n (scan f cs) (scan g cs)
        (Agree-mono (length cs) n (scan f cs) (scan g cs) (omega arith) (scan-Agree f g cs h k)))
      (
        refl,
        choose-Within n (c == b'n') _ _ (constant-Within null b'n' (codes "ull") (c ∷ cs)) (
            choose-Within n (c == b't') _ _
              (constant-Within (boolean true) b't' (codes "rue") (c ∷ cs))
              (choose-Within n (c == b'f') _ _
                (constant-Within (boolean false) b'f' (codes "alse") (c ∷ cs))
                (parse_number-Within (c ∷ cs)))),
      )
