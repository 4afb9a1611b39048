-- ===== src/Exec.antt =====
-- Python's exceptions as values, and methods that change an object and may raise. What was written
-- before a raise stays written, so the object comes back beside the error too.
pub mod Action
pub mod Inversion
pub mod Mapped
use nexuscone.Prelude.{ℕ, Bool, true, false, Option, none, some, List, [], ◌∷◌}
use nexuscone.Text.{Text}

-- One constructor for each place that raises, with the values that the message names.
pub data Error : Type 0 where
  not_initialised : Error
  unicode_error : Error
  value_error : Error
  json_error : Error
  hex_error : Error
  seed_length_error : Error
  key_error : Error
  date_error : Error
  overflow_error : Error
  integrity_error : Error
  verifier_raised : Error
  entry_not_found : ℕ → Error
  previous_hash_mismatch : ℕ → Text → Text → Error
  entry_hash_mismatch : ℕ → Text → Text → Error
  signature_invalid : ℕ → Error
  bad_role : Text → Error
  witness_not_found : ℕ → Error
  witness_retired : ℕ → Error
  key_id_mismatch : ℕ → Error
  unknown_witness : ℕ → ℕ → Error
  prev_attestation_mismatch : ℕ → ℕ → Text → Text → Error
  attestation_hash_mismatch : ℕ → ℕ → Text → Text → Error
  attestation_signature_raised : ℕ → ℕ → Error
  attestation_signature_failed : ℕ → ℕ → Error
  bad_url : Text → Error
  tsa_http_failed : Text → Error
  tsa_http_status : Text → ℕ → Error
  tsa_malformed : Error
  tsa_rejected : ℕ → Error
  tsa_no_info : Error
  tsa_not_sha256 : Text → Error
  tsa_imprint_mismatch : Text → Text → Error
  timestamp_error : Error
  assertion_error : Error
  type_error : Error
  cannot_anchor : Error
  both_tracks_failed : List Text → Error → Error
  calendars_failed : List Text → Error
  anchor_not_found : ℕ → Error
  no_bitcoin_attestation : Error
  height_mismatch : ℕ → Error

pub data Result {ℓ} (X : Type ℓ) : Type ℓ where
  err : (raised : Error) → Result X
  ok : (returned : X) → Result X

-- A value that is missing raises.
abbrev pub or_raise {ℓ} : {X : Type ℓ} → Error → Option X → Result X
or_raise raised none = err raised
or_raise raised (some x) = ok x

abbrev pub raise_if : Bool → Error → Result (Unit {0})
raise_if true raised = err raised
raise_if false raised = ok tt

module _ {ℓ κ} {X : Type ℓ} {Y : Type κ} where
  infixl 5 ◌>>=◌
  abbrev pub ◌>>=◌ : Result X → (X → Result Y) → Result Y
  ◌>>=◌ (err raised) next = err raised
  ◌>>=◌ (ok x) next = next x

infixl 5 ◌>>◌
abbrev pub ◌>>◌ {κ} : {Y : Type κ} → Result (Unit {0}) → Result Y → Result Y
first >> second = first >>= λ done. second

-- `[f(x) for x in xs]`
unfoldable pub map_result {ℓ κ} :
    {X : Type ℓ} {Y : Type κ} → (X → Result Y) → List X → Result (List Y)
map_result f [] = ok []
map_result f (x ∷ xs) = do y ← f x; ys ← map_result f xs; ok (y ∷ ys)
