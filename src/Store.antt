-- ===== src/Store.antt =====
-- The SQLite tables (chain.py _SCHEMA, schema.py) and the `Ledger` object. A table is the list of
-- its rows in the order of the primary key; row ids are natural numbers.
pub mod Query
pub mod Ordered
use nexuscone.Prelude.{
  ℕ, suc, ◌+◌, Bool, true, false, ◌&&◌, Option, none, some, List, [], ◌∷◌, ◌++◌, ltb, ◌==◌,
  if◌then◌else◌, map,
}
use nexuscone.Text.{Text, Bytes, codes}
use nexuscone.Schedule.{AnchorSchedule}

-- `GENESIS_PREVIOUS_HASH` and `GENESIS_WITNESS_PREV_HASH`: `"0" * 64`.
abbrev pub genesis_previous_hash : Text
genesis_previous_hash = codes "0000000000000000000000000000000000000000000000000000000000000000"

abbrev pub event_type_request : Text
event_type_request = codes "request"

abbrev pub current_format_version : ℕ
current_format_version = 2

-- A row of `entries`.
pub record EntryRow : Type 0 where
  pub entry_id : ℕ
  pub timestamp : Text
  pub actor : Text
  pub action : Text
  pub event_type : Text
  pub format_version : ℕ
  pub payload : Text
  pub previous_hash : Text
  pub entry_hash : Text
  pub signature : Option Text
  pub signing_key_id : Option Text

-- `entries`; a database of v0.1.0 lacks two columns, and their fields in its rows mean nothing.
pub record EntryTable : Type 0 where
  pub has_event_type : Bool
  pub has_format_version : Bool
  pub rows : List EntryRow

pub record AnchorRow : Type 0 where
  pub anchor_id : ℕ
  pub chain_head_hash : Text
  pub chain_head_entry_id : ℕ
  pub ots_proof_blob : Option Bytes
  pub submitted_at : Text
  pub calendar_servers : Text
  pub confirmed_at : Option Text
  pub bitcoin_block_height : Option ℕ
  pub bitcoin_block_hash : Option Text
  pub tst_blob : Option Bytes
  pub tsa_url : Option Text
  pub tsa_gen_time : Option Text

-- `sequence` is SQLite's AUTOINCREMENT counter: the greatest id ever given. In a table
-- that is older than the TSA columns the proof may be NOT NULL.
pub record AnchorTable : Type 0 where
  pub has_tst_blob : Bool
  pub has_tsa_url : Bool
  pub has_tsa_gen_time : Bool
  pub ots_proof_required : Bool
  pub sequence : ℕ
  pub rows : List AnchorRow

pub record WitnessRow : Type 0 where
  pub witness_id : ℕ
  pub label : Text
  pub public_key_hex : Text
  pub role : Text
  pub created_at : Text
  pub retired_at : Option Text

pub record WitnessTable : Type 0 where
  pub sequence : ℕ
  pub rows : List WitnessRow

pub record AttestationRow : Type 0 where
  pub attestation_id : ℕ
  pub witness_id : ℕ
  pub chain_head_entry_id : ℕ
  pub chain_head_hash : Text
  pub signed_at : Text
  pub prev_attestation_hash : Text
  pub attestation_hash : Text
  pub signature_hex : Text

pub record AttestationTable : Type 0 where
  pub sequence : ℕ
  pub rows : List AttestationRow

-- A database that `init` has opened.
pub record Database : Type 0 where
  pub entries : EntryTable
  pub anchors : AnchorTable
  pub witnesses : WitnessTable
  pub attestations : AttestationTable

-- A database file as `init` finds it: any table may be missing.
pub record File : Type 0 where
  pub entries : Option EntryTable
  pub anchors : Option AnchorTable
  pub witnesses : Option WitnessTable
  pub attestations : Option AttestationTable

-- `_db` and `_initialised`: closed over a file, or open on its tables.
pub data Connection : Type 0 where
  closed : File → Connection
  open_on : Database → Connection

-- class Ledger
pub record Ledger : Type 0 where
  pub connection : Connection
  pub anchor_schedule : Option AnchorSchedule
