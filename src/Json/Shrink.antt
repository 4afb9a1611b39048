-- ===== src/Json/Shrink.antt =====
-- What the pieces of the decoder leave of a text.
use nexuscone.Prelude.{
  ℕ, zero, suc, ◌⊎◌, ◌≤◌, ◌<◌, ◌≡◌, refl, ap, Bool, true, false, inl, inr, [], ◌∷◌, Option, none,
  some, arith, ltb, ◌==◌, ◌&&◌, if◌then◌else◌, length, Bool-cases,
}
use nexuscone.Text.{Text}
use nexuscone.Text.Hex.{hex_value}
use nexuscone.Json.Print.{quote, backslash}
use nexuscone.Json.Scan.{
  Step, char, stop, fail, decode4, four, join_pair, scan_low, scan_unicode, scan_escape, scan_step,
  scan, push, is_high, is_low,
}
use nexuscone.Json.Parse.{skip_space}

-- What is left has fewer than `n` characters.
abbrev pub Within : {A : Type 0} → ℕ → Option (A × Text) → Type 0
Within n none = Unit
Within n (some (a, rest)) = length rest < n

pub Within-mono : {A : Type 0} (m n : ℕ) (o : Option (A × Text)) → m ≤ n → Within m o → Within n o
Within-mono m n none h w = tt
Within-mono m n (some (a, rest)) h w = omega (arith, h, w)

pub length-skip_space : (s : Text) → length (skip_space s) ≤ length s
unfolding skip_space
length-skip_space [] = omega arith
length-skip_space (c ∷ cs) = ground (arith, length-skip_space cs)

abbrev StepWithin : ℕ → Step → Type 0
StepWithin n (char c rest) = length rest < n
StepWithin n (stop rest) = length rest < n
StepWithin n fail = Unit

four-Within :
    (a b c d : Option ℕ) (n : ℕ) (rest : Text) → length rest < n → Within n (four a b c d rest)
four-Within none b c d n rest h = tt
four-Within (some a) none c d n rest h = tt
four-Within (some a) (some b) none d n rest h = tt
four-Within (some a) (some b) (some c) none n rest h = tt
four-Within (some a) (some b) (some c) (some d) n rest h = h

decode4-Within : (s : Text) → Within (length s) (decode4 s)
unfolding decode4
decode4-Within [] = tt
decode4-Within (a ∷ []) = tt
decode4-Within (a ∷ b ∷ []) = tt
decode4-Within (a ∷ b ∷ c ∷ []) = tt
decode4-Within (a ∷ b ∷ c ∷ d ∷ rest) =
    four-Within (hex_value a) (hex_value b) (hex_value c) (hex_value d) _ rest (omega arith)

join_pair-StepWithin :
    (u n : ℕ) (here : Text) (o : Option (ℕ × Text))
    → length here < n
    → Within n o
    → StepWithin n (join_pair u here o)
join_pair-StepWithin u n here none h w = tt
join_pair-StepWithin u n here (some (l, rest)) h w = elim (Bool-cases (is_low l)) [
  | inl low ↦ rw low w
  | inr not_low ↦ rw not_low h
]

scan_low-StepWithin : (u n : ℕ) (s : Text) → length s < n → StepWithin n (scan_low u s)
scan_low-StepWithin u n [] h = h
scan_low-StepWithin u n (b ∷ []) h = h
scan_low-StepWithin u n (b ∷ w ∷ cs) h = elim (Bool-cases (b == backslash && w == b'u')) [
  | inl pair ↦ rw pair (
      join_pair-StepWithin u n (b ∷ w ∷ cs) (decode4 cs) h
        (Within-mono (length cs) n (decode4 cs) (omega (arith, h)) (decode4-Within cs)))
  | inr alone ↦ rw alone h
]

scan_unicode-StepWithin :
    (n : ℕ) (o : Option (ℕ × Text)) → Within n o → StepWithin n (scan_unicode o)
scan_unicode-StepWithin n none w = tt
scan_unicode-StepWithin n (some (u, rest)) w = elim (Bool-cases (is_high u)) [
  | inl high ↦ rw high (scan_low-StepWithin u n rest w)
  | inr plain ↦ rw plain w
]

choose-StepWithin :
    (n : ℕ) (b : Bool) (x y : Step)
    → StepWithin n x
    → StepWithin n y
    → StepWithin n (if b then x else y)
choose-StepWithin n true x y h k = h
choose-StepWithin n false x y h k = k

scan_escape-StepWithin : (n : ℕ) (s : Text) → length s ≤ n → StepWithin n (scan_escape s)
scan_escape-StepWithin n [] h = tt
scan_escape-StepWithin n (e ∷ cs) h =
    let less : length cs < n = omega (arith, h) in
    let unicode =
      scan_unicode-StepWithin n (decode4 cs)
        (Within-mono (length cs) n (decode4 cs) (omega (arith, less)) (decode4-Within cs)) in
    choose-StepWithin n (e == quote) _ _ less (
      choose-StepWithin n (e == backslash) _ _ less (
        choose-StepWithin n (e == b'/') _ _ less (
          choose-StepWithin n (e == b'b') _ _ less (
            choose-StepWithin n (e == b'f') _ _ less (
              choose-StepWithin n (e == b'n') _ _ less (
                choose-StepWithin n (e == b'r') _ _ less (
                  choose-StepWithin n (e == b't') _ _ less
                    (choose-StepWithin n (e == b'u') _ _ unicode tt))))))))

scan_step-StepWithin : (s : Text) → StepWithin (length s) (scan_step s)
unfolding scan_step
scan_step-StepWithin [] = tt
scan_step-StepWithin (c ∷ cs) =
    let less : length cs < suc (length cs) = omega arith in
    choose-StepWithin _ (c == quote) _ _ less (
      choose-StepWithin _ (c == backslash) _ _
        (scan_escape-StepWithin (suc (length cs)) cs (omega arith))
        (choose-StepWithin _ (ltb c 32) _ _ tt less))

-- Two results that are the same, with fewer than `n` characters left.
abbrev pub Agree : {A : Type 0} → ℕ → Option (A × Text) → Option (A × Text) → Type 0
Agree n o p = (o ≡ p) × Within n o

pub Agree-mono :
    {A : Type 0} (m n : ℕ) (o p : Option (A × Text)) → m ≤ n → Agree m o p → Agree n o p
Agree-mono m n o p h (same, w) = (same, Within-mono m n o h w)

Within-push : (c n : ℕ) (o : Option (Text × Text)) → Within n o → Within n (push c o)
Within-push c n none w = tt
Within-push c n (some (t, rest)) w = w

Step-cases :
    (st : Step)
    → ((c : ℕ) × (rest : Text) × (st ≡ char c rest))
      ⊎ (((rest : Text) × (st ≡ stop rest)) ⊎ (st ≡ fail))
Step-cases (char c rest) = inl (c, rest, refl)
Step-cases (stop rest) = inr (inl (rest, refl))
Step-cases fail = inr (inr refl)

-- A string literal is read the same with any fuel above its length.
pub scan-Agree :
    (f g : ℕ) (s : Text) → length s < f → length s < g → Agree (length s) (scan f s) (scan g s)
unfolding scan
scan-Agree zero g s h k = absurd (omega (arith, h))
scan-Agree (suc f) zero s h k = absurd (omega (arith, k))
scan-Agree (suc f) (suc g) s h k =
    let w = scan_step-StepWithin s in
    elim (Step-cases (scan_step s)) [
      | inl (c, rest, e) ↦
          let less : length rest < length s = rw e at w in
          let (same, within) =
            scan-Agree f g rest (omega (arith, h, less)) (omega (arith, k, less)) in
          rw (scan, e)
            (
              ap (push c) same,
              Within-push c (length s) (scan f rest)
                  (Within-mono (length rest) (length s) (scan f rest) (omega (arith, less)) within),
            )
      | inr other ↦ elim other [
        | inl (rest, e) ↦ rw (scan, e) (refl, rw e at w)
        | inr e ↦ rw (scan, e) (refl, tt)
      ]
    ]
