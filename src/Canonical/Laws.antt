-- ===== src/Canonical/Laws.antt =====
-- What canonical_json and sha256_hex guarantee.
use nexuscone.Prelude.{◌≡◌, ap, some}
use nexuscone.Text.Hex.{hex}
use nexuscone.Text.Utf8.{utf8_ascii}
use nexuscone.Json.{Value, sort_keys}
use nexuscone.Json.Print.{print}
use nexuscone.Json.Parse.{loads}
use nexuscone.Json.Order.{IsValid, sort_keys-IsCanonical}
use nexuscone.Json.RoundTrip.{loads-print}
use nexuscone.Json.Ascii.{print-IsAscii}
use nexuscone.Canonical.{Sha256, canonical_json, sha256_hex}

-- Decoding the canonical JSON of a value with scalar texts and without repeated keys gives the
-- value with the keys of every dict sorted.
pub loads-canonical_json : (v : Value) → IsValid v → loads (canonical_json v) ≡ some (sort_keys v)
unfolding canonical_json
loads-canonical_json v h = loads-print (sort_keys v) (sort_keys-IsCanonical v h)

-- Two values with scalar texts and without repeated keys that have the same canonical JSON are
-- the same up to the order of keys.
pub canonical_json-injective :
    (v w : Value)
    → IsValid v
    → IsValid w
    → canonical_json v ≡ canonical_json w
    → sort_keys v ≡ sort_keys w
canonical_json-injective v w h k e =
    cc (loads-canonical_json v h, loads-canonical_json w k, ap loads e)

-- Hashing canonical JSON never fails to encode, and hashes the code points as they are.
pub sha256_hex-canonical_json :
    (h : Sha256) (v : Value)
    → sha256_hex h (canonical_json v) ≡ some (hex (h.digest (canonical_json v)))
unfolding canonical_json sha256_hex
sha256_hex-canonical_json h v = rw (utf8_ascii (print (sort_keys v)) (print-IsAscii (sort_keys v)))
