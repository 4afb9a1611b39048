-- ===== src/Canonical.antt =====
-- canonical.py: canonical JSON and the SHA-256 digest in hexadecimal.
pub mod Laws
use nexuscone.Prelude.{
  ℕ, ◌+◌, ◌<◌, ◌≡◌, Bool, true, ◌&&◌, Option, none, some, List, [], ◌∷◌, length, leb, All,
  if◌then◌else◌,
}
use nexuscone.Text.{Text, Bytes}
use nexuscone.Text.Hex.{hex}
use nexuscone.Text.Utf8.{utf8}
use nexuscone.Prelude.Int.{ℤ, pos, negsuc}
use nexuscone.Text.Decimal.{decimal}
use nexuscone.Json.{
  Value, null, boolean, int, str, arr, obj, Items, nil, cons, Members, end, member, sort_keys,
}
use nexuscone.Json.Print.{print}

-- `hashlib.sha256(...).digest()`: 32 bytes for every message. Nothing else is assumed of it.
pub record Sha256 : Type 0 where
  pub digest : Bytes → Bytes
  pub digest_length : (m : Bytes) → length (digest m) ≡ 32
  pub digest_bytes : (m : Bytes) → All (λ b. b < 256) (digest m)

-- `json.dumps(payload, sort_keys=True, separators=(",", ":"))`
unfoldable pub canonical_json : Value → Text
canonical_json payload = print (sort_keys payload)

-- Python writes no int of more than 4300 digits: `int.__repr__` raises a ValueError.
unfoldable pub digits_fit : ℤ → Bool
digits_fit (pos n) = leb (length (decimal n)) 4300
digits_fit (negsuc n) = leb (length (decimal (n + 1))) 4300

unfoldable mutual
  unfolding digits_fit

  pub ints_fit : Value → Bool
  ints_fit null = true
  ints_fit (boolean b) = true
  ints_fit (int n) = digits_fit n
  ints_fit (str s) = true
  ints_fit (arr xs) = items_fit xs
  ints_fit (obj ms) = members_fit ms

  pub items_fit : Items → Bool
  items_fit nil = true
  items_fit (cons x xs) = ints_fit x && items_fit xs

  pub members_fit : Members → Bool
  members_fit end = true
  members_fit (member k x ms) = ints_fit x && members_fit ms

-- `canonical_json` of a value that may hold such an int; `none` is the ValueError.
unfoldable pub dumps : Value → Option Text
unfolding canonical_json ints_fit
dumps payload = if ints_fit payload then some (canonical_json payload) else none

abbrev hex_of : Sha256 → Option Bytes → Option Text
hex_of h none = none
hex_of h (some m) = some (hex (h.digest m))

-- `hashlib.sha256(text.encode("utf-8")).hexdigest()`; `none` is the UnicodeEncodeError.
unfoldable pub sha256_hex : Sha256 → Text → Option Text
sha256_hex h text = hex_of h (utf8 text)
