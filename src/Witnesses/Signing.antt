-- ===== src/Witnesses/Signing.antt =====
-- What `attest_with_witness` does where the witness may sign.
use nexuscone.Prelude.{
  ℕ, ◌≡◌, sym, true, none, some, List, [], ◌∷◌, ◌++◌, last?, ◌==◌, ==_refl, Bool-cases, inl, inr,
}
use nexuscone.Text.{Bytes, text_eq_iff}
use nexuscone.Text.Hex.{hex, from_hex-hex}
use nexuscone.Time.{DateTime, iso}
use nexuscone.Json.{Value, obj}
use nexuscone.Json.Parse.{loads}
use nexuscone.Canonical.{Sha256, canonical_json}
use nexuscone.Canonical.Laws.{sha256_hex-canonical_json}
use nexuscone.Exec.{ok}
use nexuscone.Store.{EntryRow, WitnessRow, AttestationRow, AttestationTable, EntryTable, Database}
use nexuscone.Store.Query.{first_row, next_rowid}
use nexuscone.Entries.{Signer, LedgerEntry, event_type_of, format_version_of, row_to_entry}
use nexuscone.Entries.Query.{get_latest_entry}
use nexuscone.Witnesses.{Witness, row_to_witness, get_witness}
use nexuscone.Witnesses.Attest.{
  WitnessAttestation, attestation_fields, compute_attestation_hash, last_attestation_hash,
  attestation_key, references_hold, present, insert_attestation, attest_head, attest_with_witness,
}

-- The witness may sign: it is registered and not retired, the key is the signer's, and there is a
-- head to sign that can be read.
pub record CanAttest (db : Database) (i : ℕ) (signer : Signer) : Type 0 where
  pub witness_row : WitnessRow
  pub witness : Witness
  pub head : EntryRow
  pub payload : Value
  pub found : first_row (λ (r : WitnessRow). r.witness_id == i) db.witnesses.rows ≡ some witness_row
  pub readable : row_to_witness witness_row ≡ ok witness
  pub active : witness.retired_at ≡ none
  pub keyed : witness.public_key_hex ≡ signer.key_id
  pub tip : last? db.entries.rows ≡ some head
  pub decoded : loads head.payload ≡ some payload

-- The bytes that are signed.
unfoldable pub signed_digest : Sha256 → DateTime → ℕ → EntryRow → AttestationTable → Bytes
signed_digest h now i head t = h.digest (
    canonical_json (
      obj
        (attestation_fields i head.entry_id head.entry_hash (iso now) (last_attestation_hash i t))))

-- The row that is added, with a signature.
unfoldable pub attested_row :
    Sha256 → DateTime → ℕ → Bytes → EntryRow → AttestationTable → AttestationRow
attested_row h now i signature head t = record {
  attestation_id = next_rowid attestation_key t.sequence t.rows;
  witness_id = i;
  chain_head_entry_id = head.entry_id;
  chain_head_hash = head.entry_hash;
  signed_at = iso now;
  prev_attestation_hash = last_attestation_hash i t;
  attestation_hash = hex (signed_digest h now i head t);
  signature_hex = hex signature;
}

unfoldable pub attestation_at : DateTime → AttestationRow → WitnessAttestation
attestation_at now row = record {
  attestation_id = row.attestation_id;
  witness_id = row.witness_id;
  chain_head_entry_id = row.chain_head_entry_id;
  chain_head_hash = row.chain_head_hash;
  signed_at = now;
  prev_attestation_hash = row.prev_attestation_hash;
  attestation_hash = row.attestation_hash;
  signature_hex = row.signature_hex;
}

abbrev pub with_attestation : Database → AttestationRow → Database
with_attestation db row = record db {
  attestations = record { sequence = row.attestation_id; rows = db.attestations.rows ++ row ∷ [] };
}

-- The last row is found by its id, or another row with that id before it.
tip-present :
    (rows : List EntryRow) (head : EntryRow)
    → last? rows ≡ some head
    → present (first_row (λ (r : EntryRow). r.entry_id == head.entry_id) rows) ≡ true
unfolding first_row
tip-present [] head e = cc
tip-present (r ∷ []) head e = let same : r ≡ head = cc e in rw (sym same, ==_refl r.entry_id)
tip-present (r ∷ q ∷ rows) head e = elim (Bool-cases (r.entry_id == head.entry_id)) [
  | inl here ↦ rw here
  | inr later ↦ rw later (tip-present (q ∷ rows) head e)
]

get_witness-found :
    (i : ℕ) (signer : Signer) (db : Database) (c : CanAttest db i signer)
    → get_witness i db ≡ (ok c.witness, db)
unfolding get_witness
get_witness-found i signer db c = rw (c.found, c.readable)

-- The entry that the head row holds.
abbrev head_entry : EntryTable → EntryRow → Value → LedgerEntry
head_entry t row payload = record {
  entry_id = row.entry_id;
  timestamp = row.timestamp;
  actor = row.actor;
  action = row.action;
  payload = payload;
  previous_hash = row.previous_hash;
  entry_hash = row.entry_hash;
  signature = row.signature;
  signing_key_id = row.signing_key_id;
  event_type = event_type_of t row;
  format_version = format_version_of t row;
}

get_latest_entry-tip :
    (i : ℕ) (signer : Signer) (db : Database) (c : CanAttest db i signer)
    → get_latest_entry db ≡ (ok (some (head_entry db.entries c.head c.payload)), db)
unfolding get_latest_entry row_to_entry
get_latest_entry-tip i signer db c = rw (c.tip, c.decoded)

insert_attestation-eq :
    (row_at : ℕ → AttestationRow) (db : Database)
    → let t = db.attestations in
      let n = next_rowid attestation_key t.sequence t.rows in
      references_hold db (row_at n).witness_id (row_at n).chain_head_entry_id ≡ true
      → insert_attestation row_at db ≡ (
        ok n,
        record db { attestations = record { sequence = n; rows = t.rows ++ row_at n ∷ [] } },
      )
unfolding insert_attestation
insert_attestation-eq row_at db e = rw e

attest_head-eq :
    (h : Sha256) (now : DateTime) (i : ℕ) (signer : Signer) (db : Database)
    (c : CanAttest db i signer) (signature : Bytes)
    → signer.sign (signed_digest h now i c.head db.attestations) ≡ ok signature
    → let row = attested_row h now i signature c.head db.attestations in
      attest_head h now i signer (head_entry db.entries c.head c.payload) db
      ≡ (ok (attestation_at now row), with_attestation db row)
unfolding attest_head attested_row attestation_at signed_digest compute_attestation_hash
attest_head-eq h now i signer db c signature signed =
    let t = db.attestations in
    let prev = last_attestation_hash i t in
    let message =
      canonical_json
        (obj (attestation_fields i c.head.entry_id c.head.entry_hash (iso now) prev)) in
    let digest = h.digest message in
    let row_at : ℕ → AttestationRow = λ n. record {
      attestation_id = n;
      witness_id = i;
      chain_head_entry_id = c.head.entry_id;
      chain_head_hash = c.head.entry_hash;
      signed_at = iso now;
      prev_attestation_hash = prev;
      attestation_hash = hex digest;
      signature_hex = hex signature;
    } in
    let held : references_hold db i c.head.entry_id ≡ true =
      rw (c.found, tip-present db.entries.rows c.head c.tip) in
    rw (
      sha256_hex-canonical_json h
          (obj (attestation_fields i c.head.entry_id c.head.entry_hash (iso now) prev)),
      from_hex-hex digest (h.digest_bytes message),
      signed,
      insert_attestation-eq row_at db held,
    )

-- `attest_with_witness` adds exactly the described row and returns it.
pub attest_with_witness_lem :
    (h : Sha256) (now : DateTime) (i : ℕ) (signer : Signer) (db : Database)
    (c : CanAttest db i signer) (signature : Bytes)
    → signer.sign (signed_digest h now i c.head db.attestations) ≡ ok signature
    → let row = attested_row h now i signature c.head db.attestations in
      attest_with_witness h now i signer db
      ≡ (ok (some (attestation_at now row)), with_attestation db row)
unfolding attest_with_witness
attest_with_witness_lem h now i signer db c signature signed =
    let same_key = (text_eq_iff signer.key_id c.witness.public_key_hex).1 (sym c.keyed) in
    rw (
      get_witness-found i signer db c,
      c.active,
      same_key,
      get_latest_entry-tip i signer db c,
      attest_head-eq h now i signer db c signature signed,
    )
