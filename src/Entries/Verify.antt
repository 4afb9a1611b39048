-- ===== src/Entries/Verify.antt =====
-- chain.py: `Ledger.verify_chain`.
use nexuscone.Prelude.{ℕ, Bool, not, Option, none, some, List, [], ◌∷◌, length}
use nexuscone.Text.{Text, Bytes, text_eq}
use nexuscone.Text.Hex.{from_hex}
use nexuscone.Text.Utf8.{utf8}
use nexuscone.Canonical.{Sha256}
use nexuscone.Exec.{
  Result, ok, unicode_error, hex_error, verifier_raised, previous_hash_mismatch,
  entry_hash_mismatch, signature_invalid, or_raise, raise_if, ◌>>=◌, ◌>>◌,
}
use nexuscone.Exec.Action.{Action}
use nexuscone.Store.{EntryRow, EntryTable, Database, genesis_previous_hash}
use nexuscone.Entries.{compute_entry_hash, event_type_of, format_version_of}

-- class Verifier; the key id is NULL in a row that has a signature without one, and `none` is an
-- exception.
pub record Verifier : Type 0 where
  pub verify : Option Text → Bytes → Bytes → Option Bool

-- The check of one signature.
unfoldable pub check_signature : Verifier → EntryRow → Text → Result (Unit {0})
check_signature v row signature = do
  message ← or_raise unicode_error (utf8 row.entry_hash)
  bytes ← or_raise hex_error (from_hex signature)
  valid ← or_raise verifier_raised (v.verify row.signing_key_id message bytes)
  raise_if (not valid) (signature_invalid row.entry_id)

-- `if verifier is not None and row["signature"] is not None`
abbrev pub check_if_signed : Option Verifier → EntryRow → Option Text → Result (Unit {0})
check_if_signed none row signature = ok tt
check_if_signed (some v) row none = ok tt
check_if_signed (some v) row (some signature) = check_signature v row signature

-- The body of the loop, for one row.
unfoldable pub check_row :
    Sha256 → Option Verifier → EntryTable → Text → EntryRow → Result (Unit {0})
check_row h verifier t expected_previous row = do
  raise_if (not (text_eq row.previous_hash expected_previous))
      (previous_hash_mismatch row.entry_id expected_previous row.previous_hash)
  recomputed ← or_raise unicode_error (
      compute_entry_hash h row.entry_id row.timestamp row.actor row.action row.payload
        row.previous_hash (event_type_of t row) (format_version_of t row))
  raise_if (not (text_eq recomputed row.entry_hash))
      (entry_hash_mismatch row.entry_id recomputed row.entry_hash)
  check_if_signed verifier row row.signature

-- The loop over the rows.
unfoldable pub check_rows :
    Sha256 → Option Verifier → EntryTable → Text → List EntryRow → Result (Unit {0})
check_rows h verifier t expected_previous [] = ok tt
check_rows h verifier t expected_previous (row ∷ rows) =
    check_row h verifier t expected_previous row >> check_rows h verifier t row.entry_hash rows

unfoldable pub verify_chain : Sha256 → Option Verifier → Action Database ℕ
verify_chain h verifier db = (
  check_rows h verifier db.entries genesis_previous_hash db.entries.rows
      >> ok (length db.entries.rows),
  db,
)
