-- ===== src/Text/Utf8.antt =====
-- `str.encode("utf-8")`.
use nexuscone.Prelude.{
  ℕ, ◌+◌, ◌/◌, ◌%◌, ◌<◌, ◌≡◌, refl, true, false, ◌&&◌, [], ◌∷◌, ◌++◌, Option, none, some, inl, inr,
  Option-cases, arith, ltb, leb, if◌then◌else◌, All,
}
use nexuscone.Text.{Text, Bytes}

-- A code point that is no surrogate: what UTF-8 can encode.
abbrev pub IsScalar : ℕ → Type 0
IsScalar c = (c < 0x110000) × (leb 0xd800 c && leb c 0xdfff ≡ false)

abbrev pub IsScalarText : Text → Type 0
IsScalarText = All IsScalar

-- The bytes of one code point; `none` stands for the UnicodeEncodeError on a surrogate.
unfoldable pub utf8_char : ℕ → Option Bytes
utf8_char c =
    if ltb c 0x80
    then some (c ∷ [])
    else if ltb c 0x800
    then some ((0xc0 + c / 64) ∷ (0x80 + c % 64) ∷ [])
    else if leb 0xd800 c && leb c 0xdfff
    then none
    else if ltb c 0x10000
    then some ((0xe0 + c / 4096) ∷ (0x80 + c / 64 % 64) ∷ (0x80 + c % 64) ∷ [])
    else some
        ((0xf0 + c / 262144) ∷ (0x80 + c / 4096 % 64) ∷ (0x80 + c / 64 % 64) ∷ (0x80 + c % 64) ∷ [])

abbrev join : Option Bytes → Option Bytes → Option Bytes
join (some a) (some b) = some (a ++ b)
join _ _ = none

unfoldable pub utf8 : Text → Option Bytes
unfolding utf8_char
utf8 [] = some []
utf8 (c ∷ t) = join (utf8_char c) (utf8 t)

-- ASCII text is its own encoding.
pub utf8_ascii : (t : Text) → All (λ c. c < 128) t → utf8 t ≡ some t
unfolding utf8
utf8_ascii [] h = refl
utf8_ascii (c ∷ t) h = let small : ltb c 0x80 ≡ true = ground arith in rw (small, utf8_ascii t h.1)

utf8_char_total : (c : ℕ) → IsScalar c → (b : Bytes) × (utf8_char c ≡ some b)
unfolding utf8_char
utf8_char_total c h = elim (Option-cases (utf8_char c)) [
  | inl e ↦ absurd (ground arith)
  | inr found ↦ found
]

-- A text without surrogates can be encoded.
pub utf8_total : (t : Text) → IsScalarText t → (b : Bytes) × (utf8 t ≡ some b)
unfolding utf8
utf8_total [] h = ([], refl)
utf8_total (c ∷ t) h =
    let (b, e) = utf8_char_total c h.0 in let (bs, es) = utf8_total t h.1 in (b ++ bs, rw (e, es))
