-- ===== src/Json/Scan.antt =====
-- `json.decoder.scanstring` (strict), and that it reads back what `escape` writes.
use mathlib.Core.List.{append_assoc}
use nexuscone.Prelude.{
  ℕ, zero, suc, ◌+◌, ◌-◌, ◌*◌, ◌/◌, ◌%◌, ◌<◌, ◌≤◌, ◌≡◌, refl, ◌≢◌, Bool, true, false, ◌&&◌, [], ◌∷◌,
  ◌++◌, Option, none, some, arith, ltb, leb, ◌==◌, if◌then◌else◌, length,
}
use nexuscone.Text.{Text}
use nexuscone.Text.Hex.{hex_value, hex_value-hex_digit}
use nexuscone.Text.Utf8.{IsScalar, IsScalarText}
use nexuscone.Json.Print.{
  quote, backslash, hex4, u_escape, high_surrogate, low_surrogate, escape_char, escape,
}

abbrev pub four : Option ℕ → Option ℕ → Option ℕ → Option ℕ → Text → Option (ℕ × Text)
four (some a) (some b) (some c) (some d) rest = some (a * 4096 + b * 256 + c * 16 + d, rest)
four _ _ _ _ rest = none

-- `_decode_uXXXX`: exactly four hexadecimal digits.
unfoldable pub decode4 : Text → Option (ℕ × Text)
decode4 (a ∷ b ∷ c ∷ d ∷ rest) = four (hex_value a) (hex_value b) (hex_value c) (hex_value d) rest
decode4 _ = none

-- What a string literal goes on with: one code point, the closing quote, or an error.
pub data Step : Type 0 where
  char : ℕ → Text → Step
  stop : Text → Step
  fail : Step

abbrev pub is_high : ℕ → Bool
is_high u = leb 0xd800 u && leb u 0xdbff

abbrev pub is_low : ℕ → Bool
is_low u = leb 0xdc00 u && leb u 0xdfff

abbrev pub join_pair : ℕ → Text → Option (ℕ × Text) → Step
join_pair u here none = fail
join_pair u here (some (l, rest)) =
    if is_low l then char (0x10000 + (u - 0xd800) * 1024 + (l - 0xdc00)) rest else char u here

abbrev pub scan_low : ℕ → Text → Step
scan_low u (b ∷ w ∷ cs) =
    if b == backslash && w == b'u'
    then join_pair u (b ∷ w ∷ cs) (decode4 cs)
    else char u (b ∷ w ∷ cs)
scan_low u cs = char u cs

abbrev pub scan_unicode : Option (ℕ × Text) → Step
scan_unicode none = fail
scan_unicode (some (u, rest)) = if is_high u then scan_low u rest else char u rest

abbrev pub scan_escape : Text → Step
scan_escape [] = fail
scan_escape (e ∷ cs) =
    if e == quote
    then char quote cs
    else if e == backslash
    then char backslash cs
    else if e == b'/'
    then char b'/' cs
    else if e == b'b'
    then char 8 cs
    else if e == b'f'
    then char 12 cs
    else if e == b'n'
    then char 10 cs
    else if e == b'r'
    then char 13 cs
    else if e == b't'
    then char 9 cs
    else if e == b'u'
    then scan_unicode (decode4 cs)
    else fail

unfoldable pub scan_step : Text → Step
scan_step [] = fail
scan_step (c ∷ cs) =
    if c == quote
    then stop cs
    else if c == backslash
    then scan_escape cs
    else if ltb c 32
    then fail
    else char c cs

abbrev pub push : ℕ → Option (Text × Text) → Option (Text × Text)
push c none = none
push c (some (t, rest)) = some (c ∷ t, rest)

-- The text up to the closing quote, and what follows it; one unit of fuel for each code point.
unfoldable pub scan : ℕ → Text → Option (Text × Text)
scan zero s = none
scan (suc f) s = elim (scan_step s) [
  | char c rest ↦ push c (scan f rest)
  | stop rest ↦ some ([], rest)
  | fail ↦ none
]

decode4-hex4 : (n : ℕ) (rest : Text) → n < 65536 → decode4 (hex4 n ++ rest) ≡ some (n, rest)
unfolding decode4 hex4
decode4-hex4 n rest h =
    let value : n / 4096 * 4096 + n / 256 % 16 * 256 + n / 16 % 16 * 16 + n % 16 ≡ n =
      omega arith in
    rw (
      hex_value-hex_digit (n / 4096) (omega arith),
      hex_value-hex_digit (n / 256 % 16) (omega arith),
      hex_value-hex_digit (n / 16 % 16) (omega arith),
      hex_value-hex_digit (n % 16) (omega arith),
      value,
    )

-- A `\uXXXX` that is no surrogate.
scan_step-u_escape :
    (c : ℕ) (rest : Text)
    → c < 65536
    → is_high c ≡ false
    → scan_step (u_escape c ++ rest) ≡ char c rest
unfolding scan_step u_escape
scan_step-u_escape c rest h k = rw (decode4-hex4 c rest h, k)

-- A surrogate pair.
scan_step-pair :
    (c : ℕ) (rest : Text)
    → 65536 ≤ c
    → c < 0x110000
    → scan_step (u_escape (high_surrogate c) ++ u_escape (low_surrogate c) ++ rest) ≡ char c rest
unfolding scan_step u_escape
scan_step-pair c rest h k =
    let high : is_high (high_surrogate c) ≡ true = ground arith in
    let low : is_low (low_surrogate c) ≡ true = ground arith in
    let value : 0x10000 + (high_surrogate c - 0xd800) * 1024 + (low_surrogate c - 0xdc00) ≡ c =
      omega arith in
    rw (
      decode4-hex4 (high_surrogate c) (u_escape (low_surrogate c) ++ rest) (omega arith),
      high,
      decode4-hex4 (low_surrogate c) rest (omega arith),
      low,
      value,
    )

-- The seven escapes of two characters.
short_escapes :
    (rest : Text)
    → (scan_step (backslash ∷ quote ∷ rest) ≡ char quote rest)
      × (scan_step (backslash ∷ backslash ∷ rest) ≡ char backslash rest)
      × (scan_step (backslash ∷ b'n' ∷ rest) ≡ char 10 rest)
      × (scan_step (backslash ∷ b'r' ∷ rest) ≡ char 13 rest)
      × (scan_step (backslash ∷ b't' ∷ rest) ≡ char 9 rest)
      × (scan_step (backslash ∷ b'f' ∷ rest) ≡ char 12 rest)
      × (scan_step (backslash ∷ b'b' ∷ rest) ≡ char 8 rest)
unfolding scan_step
short_escapes rest = (refl, refl, refl, refl, refl, refl, refl)

-- A character that stands for itself.
scan_step-plain :
    (c : ℕ) (rest : Text) → 32 ≤ c → c ≢ quote → c ≢ backslash → scan_step (c ∷ rest) ≡ char c rest
unfolding scan_step
scan_step-plain c rest h p q = ground arith

-- One code point that UTF-8 can encode is read back.
pub scan_step-escape_char :
    (c : ℕ) (rest : Text) → IsScalar c → scan_step (escape_char c ++ rest) ≡ char c rest
unfolding escape_char
scan_step-escape_char c rest h = ground (
  arith,
  short_escapes rest,
  scan_step-plain c rest,
  scan_step-u_escape c rest,
  scan_step-pair c rest,
)

scan-char :
    (f c : ℕ) (s rest : Text) → scan_step s ≡ char c rest → scan (suc f) s ≡ push c (scan f rest)
unfolding scan
scan-char f c s rest e = rw (e, scan)

pub scan-escape :
    (t rest : Text) (f : ℕ)
    → IsScalarText t
    → length t < f
    → scan f (escape t ++ quote ∷ rest) ≡ some (t, rest)
unfolding scan escape
scan-escape t rest zero h k = elim k [ ]
scan-escape [] rest (suc f) h k = unfold scan_step in refl
scan-escape (c ∷ t) rest (suc f) h k = rw (
  append_assoc,
  scan-char f c _ (escape t ++ quote ∷ rest) (scan_step-escape_char c _ h.0),
  scan-escape t rest f h.1 (omega arith),
)
