-- ===== src/Witnesses/Verify.antt =====
-- chain.py: `Ledger.verify_witness_attestations`.
use nexuscone.Prelude.{
  ℕ, ◌+◌, Bool, not, Option, none, some, List, [], ◌∷◌, ◌==◌, leb, if◌then◌else◌,
}
use nexuscone.Text.{Text, Bytes, text_eq}
use nexuscone.Text.Hex.{from_hex}
use nexuscone.Canonical.{Sha256}
use nexuscone.Exec.{
  Result, ok, err, unicode_error, unknown_witness, prev_attestation_mismatch,
  attestation_hash_mismatch, attestation_signature_raised, attestation_signature_failed, or_raise,
  raise_if, map_result, ◌>>=◌, ◌>>◌,
}
use nexuscone.Exec.Action.{Action}
use nexuscone.Store.{AttestationRow, Database, genesis_previous_hash}
use nexuscone.Store.Query.{first_row}
use nexuscone.Entries.Verify.{Verifier}
use nexuscone.Witnesses.{Witness, row_to_witness}
use nexuscone.Witnesses.Attest.{compute_attestation_hash}

-- `ORDER BY witness_id, attestation_id`: a stable sort by witness of rows that come by attestation.
unfoldable pub insert_by_witness : AttestationRow → List AttestationRow → List AttestationRow
insert_by_witness r [] = r ∷ []
insert_by_witness r (x ∷ xs) =
    if leb r.witness_id x.witness_id then r ∷ x ∷ xs else x ∷ insert_by_witness r xs

unfoldable pub sort_by_witness : List AttestationRow → List AttestationRow
unfolding insert_by_witness
sort_by_witness [] = []
sort_by_witness (r ∷ rs) = insert_by_witness r (sort_by_witness rs)

-- `expected_prev.get(witness_id, GENESIS_WITNESS_PREV_HASH)`; a later assignment stands before an
-- earlier one.
unfoldable pub expected_of : List (ℕ × Text) → ℕ → Text
expected_of [] w = genesis_previous_hash
expected_of ((i, t) ∷ d) w = if i == w then t else expected_of d w

-- `verifier.verify(...)` in its `try`: `none` is any exception.
abbrev pub verdict : Verifier → Text → Option Bytes → Option Bytes → Option Bool
verdict v key none s = none
verdict v key (some m) none = none
verdict v key (some m) (some s) = v.verify (some key) m s

abbrev pub signature_outcome : AttestationRow → Option Bool → Result (Unit {0})
signature_outcome row none = err (attestation_signature_raised row.attestation_id row.witness_id)
signature_outcome row (some valid) =
    raise_if (not valid) (attestation_signature_failed row.attestation_id row.witness_id)

-- The body of the loop for one row, given what its witness last signed.
unfoldable pub check_attestation :
    Sha256 → Verifier → List Witness → Text → AttestationRow → Result (Unit {0})
check_attestation h v witnesses prev row = do
  witness ←
      or_raise (unknown_witness row.attestation_id row.witness_id)
        (first_row (λ w. w.witness_id == row.witness_id) witnesses)
  raise_if (not (text_eq row.prev_attestation_hash prev))
      (prev_attestation_mismatch row.attestation_id row.witness_id prev row.prev_attestation_hash)
  recomputed ← or_raise unicode_error (
      compute_attestation_hash h row.witness_id row.chain_head_entry_id row.chain_head_hash
        row.signed_at row.prev_attestation_hash)
  raise_if (not (text_eq recomputed row.attestation_hash))
      (attestation_hash_mismatch row.attestation_id row.witness_id recomputed row.attestation_hash)
  signature_outcome row
      (verdict v witness.public_key_hex (from_hex recomputed) (from_hex row.signature_hex))

-- The loop, with the dict `expected_prev` and the count `verified`.
unfoldable pub check_attestations :
    Sha256 → Verifier → List Witness → List (ℕ × Text) → ℕ → List AttestationRow → Result ℕ
check_attestations h v witnesses expected_prev verified [] = ok verified
check_attestations h v witnesses expected_prev verified (row ∷ rows) =
    check_attestation h v witnesses (expected_of expected_prev row.witness_id) row
    >> check_attestations h v witnesses ((row.witness_id, row.attestation_hash) ∷ expected_prev)
        (verified + 1) rows

-- `Ledger.verify_witness_attestations`
unfoldable pub verify_witness_attestations : Sha256 → Verifier → Action Database ℕ
unfolding sort_by_witness
verify_witness_attestations h v db = (
  map_result row_to_witness db.witnesses.rows >>= λ witnesses.
      check_attestations h v witnesses [] 0 (sort_by_witness db.attestations.rows),
  db,
)
