-- ===== src/Rfc3161.antt =====
-- rfc3161.py: submitting a digest to a Time-Stamp Authority, and verifying a stored token. TSAError
-- is the errors that begin with `tsa_`.
pub mod Laws
pub mod Track
use nexuscone.Prelude.{
  ℕ, suc, ◌+◌, Bool, true, false, ◌||◌, not, Option, none, some, List, [], ◌∷◌, ◌==◌,
}
use nexuscone.Prelude.Int.{ℤ}
use nexuscone.Text.{Text, Bytes, codes, text_eq}
use nexuscone.Text.Hex.{hex}
use nexuscone.Time.{DateTime}
use nexuscone.Json.Print.{print_int}
use nexuscone.Canonical.{Sha256}
use nexuscone.Exec.{
  Error, Result, ok, err, bad_url, tsa_http_failed, tsa_http_status, tsa_malformed, tsa_rejected,
  tsa_no_info, tsa_not_sha256, tsa_imprint_mismatch, or_raise, raise_if, ◌>>=◌, ◌>>◌,
}

-- What rfc3161_client decodes of a token; `gen_time` is in UTC.
pub record TstInfo : Type 0 where
  pub gen_time : DateTime
  pub hash_algorithm : Text
  pub message : Bytes
  pub serial_number : ℤ

pub record TimeStampResp : Type 0 where
  pub status : ℕ
  pub tst_info : Option TstInfo

-- The library rfc3161_client and urllib. `request` is the body for a digest, or `none` where `Request`
-- raises on the URL. `urlopen n` is the n-th request that is sent, and gives the HTTP status and the
-- body; `none` is any exception.
pub record Tsa : Type 0 where
  pub request : Text → Bytes → Option Bytes
  pub urlopen : ℕ → Text → Bytes → Option (ℕ × Bytes)
  pub decode_timestamp_response : Bytes → Option TimeStampResp
  pub granted : ℕ
  pub granted_with_mods : ℕ

-- class TSAResponse
pub record TsaResponse : Type 0 where
  pub tst_blob : Bytes
  pub tsa_url : Text
  pub gen_time : DateTime
  pub hash_algorithm : Text
  pub serial_number : Text

abbrev pub sha256_oid : Text
sha256_oid = codes "2.16.840.1.101.3.4.2.1"

abbrev pub is_granted : Tsa → ℕ → Bool
is_granted tsa status = status == tsa.granted || status == tsa.granted_with_mods

-- The response that is returned for a token.
abbrev pub response_of : Bytes → Text → TstInfo → TsaResponse
response_of tst_blob tsa_url info = record {
  tst_blob = tst_blob;
  tsa_url = tsa_url;
  gen_time = info.gen_time;
  hash_algorithm = info.hash_algorithm;
  serial_number = print_int info.serial_number;
}

unfoldable pub submit_to_tsa : Tsa → ℕ → Bytes → Text → Result TsaResponse
submit_to_tsa tsa n digest tsa_url = do
  request ← or_raise (bad_url tsa_url) (tsa.request tsa_url digest)
  (status, body) ← or_raise (tsa_http_failed tsa_url) (tsa.urlopen n tsa_url request)
  raise_if (not (status == 200)) (tsa_http_status tsa_url status)
  response ← or_raise tsa_malformed (tsa.decode_timestamp_response body)
  raise_if (not (is_granted tsa response.status)) (tsa_rejected response.status)
  tst_info ← or_raise tsa_no_info response.tst_info
  ok (response_of body tsa_url tst_info)

unfoldable pub verify_tst : Tsa → Sha256 → Bytes → Bytes → Text → Result TsaResponse
verify_tst tsa h tst_blob digest tsa_url = do
  response ← or_raise tsa_malformed (tsa.decode_timestamp_response tst_blob)
  raise_if (not (is_granted tsa response.status)) (tsa_rejected response.status)
  tst_info ← or_raise tsa_no_info response.tst_info
  raise_if (not (text_eq tst_info.hash_algorithm sha256_oid))
      (tsa_not_sha256 tst_info.hash_algorithm)
  raise_if (not (text_eq (h.digest digest) tst_info.message))
      (tsa_imprint_mismatch (hex (h.digest digest)) (hex tst_info.message))
  ok (response_of tst_blob tsa_url tst_info)

-- `except TSAError`
unfoldable pub is_tsa_error : Error → Bool
is_tsa_error (tsa_http_failed url) = true
is_tsa_error (tsa_http_status url status) = true
is_tsa_error tsa_malformed = true
is_tsa_error (tsa_rejected status) = true
is_tsa_error tsa_no_info = true
is_tsa_error (tsa_not_sha256 oid) = true
is_tsa_error (tsa_imprint_mismatch expected stored) = true
is_tsa_error _ = false

-- `Ledger._submit_tsa_track` of chain.py: the first URL that answers, or the last error.
unfoldable pub submit_tsa_track :
    Tsa → ℕ → Bytes → Option Error → List Text → Result (Option TsaResponse × Option Error)
unfolding is_tsa_error
submit_tsa_track tsa n digest last_error [] = ok (none, last_error)
submit_tsa_track tsa n digest last_error (url ∷ urls) = elim (submit_to_tsa tsa n digest url) [
  | ok response ↦ ok (some response, none)
  | err e ↦ elim (is_tsa_error e) [
    | true ↦ submit_tsa_track tsa (n + 1) digest (some e) urls
    | false ↦ err e
  ]
]
