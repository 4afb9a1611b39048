-- ===== src/Ledger.antt =====
-- class Ledger: opening and closing a database file, and the guard of every method.
pub mod Migration
use nexuscone.Prelude.{ℕ, Bool, true, false, Option, none, some, List, [], ◌∷◌, map, if◌then◌else◌}
use nexuscone.Exec.{Result, ok, err, not_initialised}
use nexuscone.Exec.Action.{Action}
use nexuscone.Store.{
  EntryRow, EntryTable, AnchorRow, AnchorTable, WitnessTable, AttestationTable, Database, File,
  closed, open_on, Ledger, Connection, event_type_request, current_format_version,
}

-- `_SCHEMA`: `CREATE TABLE IF NOT EXISTS entries`.
abbrev pub create_entries : Option EntryTable → EntryTable
create_entries none = record { has_event_type = true; has_format_version = true; rows = [] }
create_entries (some t) = t

-- `ALTER TABLE entries ADD COLUMN event_type ... DEFAULT 'request'`; SQLite refuses a column that is
-- there, which the tests before these statements exclude.
abbrev pub add_event_type : EntryRow → EntryRow
add_event_type r = record r { event_type = event_type_request }

-- `ALTER TABLE entries ADD COLUMN format_version ... DEFAULT 1`
abbrev pub add_format_version : EntryRow → EntryRow
add_format_version r = record r { format_version = 1 }

abbrev pub ensure_event_type : EntryTable → EntryTable
ensure_event_type t =
    if t.has_event_type
    then t
    else record t { has_event_type = true; rows = map add_event_type t.rows }

abbrev pub ensure_format_version : EntryTable → EntryTable
ensure_format_version t =
    if t.has_format_version
    then t
    else record t { has_format_version = true; rows = map add_format_version t.rows }

-- `_migrate_legacy_columns`
unfoldable pub migrate_legacy_columns : EntryTable → EntryTable
migrate_legacy_columns t = ensure_format_version (ensure_event_type t)

abbrev pub create_anchors : Option AnchorTable → AnchorTable
create_anchors none = record {
  has_tst_blob = true;
  has_tsa_url = true;
  has_tsa_gen_time = true;
  ots_proof_required = false;
  sequence = 0;
  rows = [];
}
create_anchors (some t) = t

abbrev ensure_tst_blob : AnchorTable → AnchorTable
ensure_tst_blob t = if t.has_tst_blob then t else record t {
  has_tst_blob = true;
  rows = map (λ (r : AnchorRow). record r { tst_blob = none }) t.rows;
}

abbrev ensure_tsa_url : AnchorTable → AnchorTable
ensure_tsa_url t = if t.has_tsa_url then t else record t {
  has_tsa_url = true;
  rows = map (λ (r : AnchorRow). record r { tsa_url = none }) t.rows;
}

abbrev ensure_tsa_gen_time : AnchorTable → AnchorTable
ensure_tsa_gen_time t = if t.has_tsa_gen_time then t else record t {
  has_tsa_gen_time = true;
  rows = map (λ (r : AnchorRow). record r { tsa_gen_time = none }) t.rows;
}

-- `_migrate_anchors_columns`
unfoldable pub migrate_anchors_columns : AnchorTable → AnchorTable
migrate_anchors_columns t = ensure_tsa_gen_time (ensure_tsa_url (ensure_tst_blob t))

-- `_ensure_witnesses_tables`
abbrev pub create_witnesses : Option WitnessTable → WitnessTable
create_witnesses none = record { sequence = 0; rows = [] }
create_witnesses (some t) = t

abbrev pub create_attestations : Option AttestationTable → AttestationTable
create_attestations none = record { sequence = 0; rows = [] }
create_attestations (some t) = t

-- The tables of a file once `init` is done with it.
unfoldable pub open_file : File → Database
unfolding migrate_legacy_columns migrate_anchors_columns
open_file f = record {
  entries = migrate_legacy_columns (create_entries f.entries);
  anchors = migrate_anchors_columns (create_anchors f.anchors);
  witnesses = create_witnesses f.witnesses;
  attestations = create_attestations f.attestations;
}

abbrev open_connection : Connection → Connection
open_connection (closed f) = open_on (open_file f)
open_connection (open_on db) = open_on db

-- `Ledger.init`
unfoldable pub init : Ledger → Ledger
init l = record l { connection = open_connection l.connection }

-- What the tables leave on disk.
abbrev pub file_of : Database → File
file_of db = record {
  entries = some db.entries;
  anchors = some db.anchors;
  witnesses = some db.witnesses;
  attestations = some db.attestations;
}

abbrev close_connection : Connection → Connection
close_connection (closed f) = closed f
close_connection (open_on db) = closed (file_of db)

-- `Ledger.close`
unfoldable pub close : Ledger → Ledger
close l = record l { connection = close_connection l.connection }

abbrev pub run_on : {A : Type 0} → Ledger → Connection → Action Database A → Result A × Ledger
run_on l (closed f) m = (err not_initialised, l)
run_on l (open_on db) m = let (r, db') = m db in (r, record l { connection = open_on db' })

-- A method: `_require_db` first, then its work on the tables.
unfoldable pub method : {A : Type 0} → Action Database A → Ledger → Result A × Ledger
method m l = run_on l l.connection m
