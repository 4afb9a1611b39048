-- ===== src/Text/Hex.antt =====
-- Hexadecimal notation: `bytes.hex` and `bytes.fromhex`.
use nexuscone.Prelude.{
  ℕ, ◌+◌, ◌-◌, ◌*◌, ◌/◌, ◌%◌, ◌≤◌, ◌<◌, ◌≡◌, refl, Bool, ◌&&◌, ◌||◌, List, [], ◌∷◌, Option, none,
  some, arith, ltb, leb, ◌==◌, if◌then◌else◌, All, length,
}

-- One lower-case hexadecimal digit.
unfoldable pub hex_digit : ℕ → ℕ
hex_digit d = if ltb d 10 then b'0' + d else b'a' + (d - 10)

unfoldable pub hex_value : ℕ → Option ℕ
hex_value c =
    if leb b'0' c && leb c b'9'
    then some (c - b'0')
    else if leb b'a' c && leb c b'f'
    then some (c - b'a' + 10)
    else if leb b'A' c && leb c b'F'
    then some (c - b'A' + 10)
    else none

pub hex_value-hex_digit : (d : ℕ) → d < 16 → hex_value (hex_digit d) ≡ some d
unfolding hex_value hex_digit
hex_value-hex_digit d h = ground arith

pub hex_digit-range : (d : ℕ) → d < 16 → (b'0' ≤ hex_digit d) × (hex_digit d ≤ b'f')
unfolding hex_digit
hex_digit-range d h = ground arith

-- `bytes.hex`.
unfoldable pub hex : List ℕ → List ℕ
hex [] = []
hex (b ∷ bs) = hex_digit (b / 16) ∷ hex_digit (b % 16) ∷ hex bs

-- ASCII white space, which `bytes.fromhex` skips between bytes.
abbrev pub is_space : ℕ → Bool
is_space c = c == 32 || (leb 9 c && leb c 13)

abbrev cons_byte : Option ℕ → Option ℕ → Option (List ℕ) → Option (List ℕ)
cons_byte (some h) (some l) (some bs) = some ((h * 16 + l) ∷ bs)
cons_byte _ _ _ = none

-- `bytes.fromhex`; `none` is its ValueError.
unfoldable pub from_hex : List ℕ → Option (List ℕ)
from_hex [] = some []
from_hex (c ∷ []) = if is_space c then some [] else none
from_hex (c ∷ d ∷ cs) =
    let later = from_hex (d ∷ cs) in
    let rest = from_hex cs in
    if is_space c then later else cons_byte (hex_value c) (hex_value d) rest

-- `bytes.fromhex` of `bytes.hex` gives the bytes back.
pub from_hex-hex : (bs : List ℕ) → All (λ b. b < 256) bs → from_hex (hex bs) ≡ some bs
unfolding from_hex hex
from_hex-hex [] h = refl
from_hex-hex (b ∷ bs) h = ground (
  arith,
  from_hex-hex bs,
  hex_digit-range (b / 16),
  hex_value-hex_digit (b / 16),
  hex_value-hex_digit (b % 16),
)

pub length-hex : (bs : List ℕ) → length (hex bs) ≡ 2 * length bs
unfolding hex
length-hex [] = refl
length-hex (b ∷ bs) = omega (arith, length-hex bs)

-- Hexadecimal text is ASCII.
pub hex-ascii : (bs : List ℕ) → All (λ b. b < 256) bs → All (λ c. c < 128) (hex bs)
unfolding hex
hex-ascii [] h = tt
hex-ascii (b ∷ bs) h =
    let high = hex_digit-range (b / 16) (omega arith) in
    let low = hex_digit-range (b % 16) (omega arith) in
    (omega arith, (omega arith, hex-ascii bs h.1))
