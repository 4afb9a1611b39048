-- ===== src/Witnesses/Attest.antt =====
-- chain.py, the attestations: signing the chain head and querying what was signed.
use nexuscone.Prelude.{
  ℕ, Bool, true, false, ◌&&◌, not, Option, none, some, List, [], ◌∷◌, ◌++◌, ◌==◌, last?,
}
use nexuscone.Prelude.Int.{ℤ, pos}
use nexuscone.Text.{Text, codes, text_eq, text_leb}
use nexuscone.Text.Hex.{hex, from_hex}
use nexuscone.Time.{DateTime, iso, from_iso}
use nexuscone.Json.{int, str, obj, Members, member, end}
use nexuscone.Canonical.{Sha256, canonical_json, sha256_hex}
use nexuscone.Exec.{
  Result, ok, err, Error, integrity_error, date_error, unicode_error, hex_error, witness_retired,
  key_id_mismatch, or_raise, raise_if, map_result,
}
use nexuscone.Exec as Exec
use nexuscone.Exec.Action.{Action, pure, lift, gets, put, ◌>>=◌, ◌>>◌}
use nexuscone.Store.{
  EntryRow, WitnessRow, AttestationRow, AttestationTable, Database, genesis_previous_hash,
}
use nexuscone.Store.Query.{where_rows, first_row, limit_rows, next_rowid}
use nexuscone.Entries.{Signer, LedgerEntry}
use nexuscone.Entries.Query.{get_latest_entry}
use nexuscone.Witnesses.{get_witness}

-- class WitnessAttestation
pub record WitnessAttestation : Type 0 where
  pub attestation_id : ℕ
  pub witness_id : ℕ
  pub chain_head_entry_id : ℕ
  pub chain_head_hash : Text
  pub signed_at : DateTime
  pub prev_attestation_hash : Text
  pub attestation_hash : Text
  pub signature_hex : Text

-- `_compute_witness_attestation_hash`
unfoldable pub attestation_fields : ℕ → ℕ → Text → Text → Text → Members
attestation_fields witness_id chain_head_entry_id chain_head_hash signed_at prev_attestation_hash =
    member (codes "witness_id") (int (pos witness_id)) (
      member (codes "chain_head_entry_id") (int (pos chain_head_entry_id)) (
        member (codes "chain_head_hash") (str chain_head_hash) (
          member (codes "signed_at") (str signed_at)
            (member (codes "prev_attestation_hash") (str prev_attestation_hash) end))))

unfoldable pub compute_attestation_hash : Sha256 → ℕ → ℕ → Text → Text → Text → Option Text
compute_attestation_hash h witness_id chain_head_entry_id chain_head_hash signed_at
      prev_attestation_hash =
    sha256_hex h (
      canonical_json (
        obj (
          attestation_fields witness_id chain_head_entry_id chain_head_hash signed_at
            prev_attestation_hash)))

-- `_row_to_witness_attestation`
unfoldable pub row_to_attestation : AttestationRow → Result WitnessAttestation
row_to_attestation row = Exec.◌>>=◌ (or_raise date_error (from_iso row.signed_at)) λ signed_at.
    ok (record {
      attestation_id = row.attestation_id;
      witness_id = row.witness_id;
      chain_head_entry_id = row.chain_head_entry_id;
      chain_head_hash = row.chain_head_hash;
      signed_at = signed_at;
      prev_attestation_hash = row.prev_attestation_hash;
      attestation_hash = row.attestation_hash;
      signature_hex = row.signature_hex;
    })

abbrev pub prev_hash_of : Option AttestationRow → Text
prev_hash_of none = genesis_previous_hash
prev_hash_of (some row) = row.attestation_hash

-- `_get_last_witness_attestation_hash`
unfoldable pub last_attestation_hash : ℕ → AttestationTable → Text
last_attestation_hash witness_id t =
    prev_hash_of (last? (where_rows (λ r. r.witness_id == witness_id) t.rows))

abbrev pub attestation_key : AttestationRow → ℕ
attestation_key r = r.attestation_id

abbrev pub present : {A : Type 0} → Option A → Bool
present none = false
present (some a) = true

-- The foreign keys of a new attestation.
abbrev pub references_hold : Database → ℕ → ℕ → Bool
references_hold db witness_id entry_id =
    present (first_row (λ (r : WitnessRow). r.witness_id == witness_id) db.witnesses.rows)
    && present (first_row (λ (r : EntryRow). r.entry_id == entry_id) db.entries.rows)

-- `INSERT INTO witness_attestations` and the commit; returns the new id.
unfoldable pub insert_attestation : (ℕ → AttestationRow) → Action Database ℕ
insert_attestation row_at = do
  db ← gets (λ db. db)
  let t = db.attestations
  let attestation_id = next_rowid attestation_key t.sequence t.rows
  let row = row_at attestation_id
  lift (raise_if (not (references_hold db row.witness_id row.chain_head_entry_id)) integrity_error)
  put (record db { attestations = record { sequence = attestation_id; rows = t.rows ++ row ∷ [] } })
  pure attestation_id

-- The part of `attest_with_witness` that signs the head.
unfoldable pub attest_head :
    Sha256 → DateTime → ℕ → Signer → LedgerEntry → Action Database WitnessAttestation
unfolding insert_attestation last_attestation_hash
attest_head h signed_at witness_id signer latest_entry = do
  prev_attestation_hash ← gets (λ db. last_attestation_hash witness_id db.attestations)
  let signed_at_iso = iso signed_at
  attestation_hash ← lift (
      or_raise unicode_error (
        compute_attestation_hash h witness_id latest_entry.entry_id latest_entry.entry_hash
          signed_at_iso prev_attestation_hash))
  message ← lift (or_raise hex_error (from_hex attestation_hash))
  signature ← lift (signer.sign message)
  let signature_hex = hex signature
  attestation_id ← insert_attestation (λ i. record {
    attestation_id = i;
    witness_id = witness_id;
    chain_head_entry_id = latest_entry.entry_id;
    chain_head_hash = latest_entry.entry_hash;
    signed_at = signed_at_iso;
    prev_attestation_hash = prev_attestation_hash;
    attestation_hash = attestation_hash;
    signature_hex = signature_hex;
  })
  pure (record {
    attestation_id = attestation_id;
    witness_id = witness_id;
    chain_head_entry_id = latest_entry.entry_id;
    chain_head_hash = latest_entry.entry_hash;
    signed_at = signed_at;
    prev_attestation_hash = prev_attestation_hash;
    attestation_hash = attestation_hash;
    signature_hex = signature_hex;
  })

abbrev pub is_retired : Option DateTime → Bool
is_retired none = false
is_retired (some t) = true

abbrev attest_if_any :
    Sha256
    → DateTime
    → ℕ
    → Signer
    → Option LedgerEntry
    → Action Database (Option WitnessAttestation)
attest_if_any h now witness_id signer none = pure none
attest_if_any h now witness_id signer (some latest) = do
  attestation ← attest_head h now witness_id signer latest
  pure (some attestation)

-- `Ledger.attest_with_witness` under the lock; `now` is the clock's time.
unfoldable pub attest_with_witness :
    Sha256 → DateTime → ℕ → Signer → Action Database (Option WitnessAttestation)
unfolding attest_head
attest_with_witness h now witness_id signer = do
  witness ← get_witness witness_id
  lift (raise_if (is_retired witness.retired_at) (witness_retired witness_id))
  lift (raise_if (not (text_eq signer.key_id witness.public_key_hex)) (key_id_mismatch witness_id))
  latest_entry ← get_latest_entry
  attest_if_any h now witness_id signer latest_entry

abbrev equals_id : Option ℕ → ℕ → Bool
equals_id none n = true
equals_id (some m) n = n == m

abbrev at_least : Option Text → Text → Bool
at_least none t = true
at_least (some s) t = text_leb s t

abbrev at_most : Option Text → Text → Bool
at_most none t = true
at_most (some s) t = text_leb t s

-- The optional filters of `get_witness_attestations`.
pub record AttestationFilter : Type 0 where
  pub witness_id : Option ℕ
  pub chain_head_entry_id : Option ℕ
  pub since : Option Text
  pub until : Option Text

unfoldable pub selects : AttestationFilter → AttestationRow → Bool
selects q row =
    equals_id q.witness_id row.witness_id
    && equals_id q.chain_head_entry_id row.chain_head_entry_id
    && at_least q.since row.signed_at
    && at_most q.until row.signed_at

-- `Ledger.get_witness_attestations`
unfoldable pub get_witness_attestations :
    AttestationFilter → ℤ → Action Database (List WitnessAttestation)
unfolding selects row_to_attestation
get_witness_attestations q limit = do
  t ← gets (λ db. db.attestations)
  lift (map_result row_to_attestation (limit_rows limit (where_rows (selects q) t.rows)))
