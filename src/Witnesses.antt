-- ===== src/Witnesses.antt =====
-- chain.py and witnesses.py, the witness registry: registering, retiring and listing witnesses.
pub mod Attest
pub mod Verify
pub mod Chain
pub mod Sorted
pub mod Verdict
pub mod Signing
pub mod Growth
pub mod Refusal
pub mod Retirement
use nexuscone.Prelude.{
  ℕ, suc, ◌+◌, Bool, true, false, ◌&&◌, ◌||◌, not, Option, none, some, List, [], ◌∷◌, ◌++◌, ◌==◌,
  if◌then◌else◌,
}
use nexuscone.Text.{Text, codes, text_eq}
use nexuscone.Time.{DateTime, iso, from_iso}
use nexuscone.Exec.{
  Result, ok, err, Error, integrity_error, unicode_error, date_error, bad_role, witness_not_found,
  or_raise, raise_if, map_result,
}
use nexuscone.Exec as Exec
use nexuscone.Exec.Action.{Action, pure, lift, gets, put, ◌>>=◌, ◌>>◌}
use nexuscone.Store.{WitnessRow, WitnessTable, Database, Ledger}
use nexuscone.Store.Query.{where_rows, first_row, update_rows, next_rowid}
use nexuscone.Entries.{is_storable}
use nexuscone.Ledger.{method}

abbrev pub witness_role_consortium : Text
witness_role_consortium = codes "consortium"

abbrev pub witness_role_regulator : Text
witness_role_regulator = codes "regulator"

abbrev pub witness_role_self : Text
witness_role_self = codes "self"

-- `role in WITNESS_ROLES`
unfoldable pub is_role : Text → Bool
is_role role =
    text_eq role witness_role_consortium
    || text_eq role witness_role_regulator
    || text_eq role witness_role_self

-- class Witness
pub record Witness : Type 0 where
  pub witness_id : ℕ
  pub label : Text
  pub public_key_hex : Text
  pub role : Text
  pub created_at : DateTime
  pub retired_at : Option DateTime

abbrev pub optional_iso : Option Text → Result (Option DateTime)
optional_iso none = ok none
optional_iso (some s) = Exec.◌>>=◌ (or_raise date_error (from_iso s)) λ t. ok (some t)

-- `_row_to_witness`
unfoldable pub row_to_witness : WitnessRow → Result Witness
row_to_witness row = Exec.◌>>=◌ (optional_iso row.retired_at) λ retired_at.
    Exec.◌>>=◌ (or_raise date_error (from_iso row.created_at)) λ created_at. ok (record {
      witness_id = row.witness_id;
      label = row.label;
      public_key_hex = row.public_key_hex;
      role = row.role;
      created_at = created_at;
      retired_at = retired_at;
    })

abbrev pub witness_key : WitnessRow → ℕ
witness_key r = r.witness_id

abbrev taken : Text → Text → WitnessRow → Bool
taken label public_key_hex r = text_eq r.label label || text_eq r.public_key_hex public_key_hex

abbrev pub duplicate? : Option WitnessRow → Bool
duplicate? none = false
duplicate? (some r) = true

-- `INSERT INTO witnesses` with its two UNIQUE columns, and the commit.
unfoldable pub insert_witness : DateTime → Text → Text → Text → Action Database Witness
unfolding is_storable
insert_witness created_at label public_key_hex role = do
  lift (raise_if (not (is_storable label && is_storable public_key_hex)) unicode_error)
  t ← gets (λ db. db.witnesses)
  lift (raise_if (duplicate? (first_row (taken label public_key_hex) t.rows)) integrity_error)
  let witness_id = next_rowid witness_key t.sequence t.rows
  let row : WitnessRow = record {
    witness_id = witness_id;
    label = label;
    public_key_hex = public_key_hex;
    role = role;
    created_at = iso created_at;
    retired_at = none;
  }
  db ← gets (λ db. db)
  put (record db { witnesses = record { sequence = witness_id; rows = t.rows ++ row ∷ [] } })
  pure (record {
    witness_id = witness_id;
    label = label;
    public_key_hex = public_key_hex;
    role = role;
    created_at = created_at;
    retired_at = none;
  })

-- `Ledger.register_witness`: the role is checked before the connection.
unfoldable pub register_witness : DateTime → Text → Text → Text → Ledger → Result Witness × Ledger
unfolding is_role insert_witness method
register_witness created_at label public_key_hex role l =
    if is_role role
    then method (insert_witness created_at label public_key_hex role) l
    else (err (bad_role role), l)

abbrev pub witness_or_raise : ℕ → Option WitnessRow → Result Witness
witness_or_raise witness_id none = err (witness_not_found witness_id)
witness_or_raise witness_id (some row) = row_to_witness row

-- `Ledger._get_witness`
unfoldable pub get_witness : ℕ → Action Database Witness
unfolding row_to_witness
get_witness witness_id = do
  t ← gets (λ db. db.witnesses)
  lift (witness_or_raise witness_id (first_row (λ r. r.witness_id == witness_id) t.rows))

abbrev pub is_active : Option Text → Bool
is_active none = true
is_active (some t) = false

-- `UPDATE witnesses SET retired_at = ? WHERE witness_id = ? AND retired_at IS NULL`
unfoldable pub mark_retired : DateTime → ℕ → WitnessTable → WitnessTable
mark_retired now witness_id t = record t {
  rows =
      update_rows (λ (r : WitnessRow). r.witness_id == witness_id && is_active r.retired_at)
        (λ (r : WitnessRow). record r { retired_at = some (iso now) }) t.rows;
}

-- `Ledger.retire_witness`
unfoldable pub retire_witness : DateTime → ℕ → Action Database Witness
unfolding mark_retired get_witness
retire_witness now witness_id = do
  db ← gets (λ db. db)
  put (record db { witnesses = mark_retired now witness_id db.witnesses })
  get_witness witness_id

-- `Ledger.list_witnesses`
unfoldable pub list_witnesses : Bool → Action Database (List Witness)
unfolding row_to_witness
list_witnesses include_retired = do
  t ← gets (λ db. db.witnesses)
  lift (
      map_result row_to_witness
        (if include_retired then t.rows else where_rows (λ r. is_active r.retired_at) t.rows))
