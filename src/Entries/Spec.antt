-- ===== src/Entries/Spec.antt =====
-- The audit log without its table: the entries in the order in which they were logged.
use nexuscone.Prelude.{
  ℕ, ◌+◌, ◌≡◌, Bool, true, ◌&&◌, if◌then◌else◌, Option, none, some, List, [], ◌∷◌, ◌++◌, last?,
}
use mathlib.Core.List.{reverse}
use nexuscone.Prelude.Int.{ℤ}
use nexuscone.Text.{Text, text_eq, text_leb}
use nexuscone.Text.Hex.{hex}
use nexuscone.Json.{obj, sort_keys}
use nexuscone.Canonical.{Sha256, canonical_json}
use nexuscone.Time.{iso}
use nexuscone.Exec.{ok, map_result}
use nexuscone.Store.{Database, genesis_previous_hash, current_format_version}
use nexuscone.Store.Query.{where_rows, limit_rows}
use nexuscone.Entries.Query.{EntryFilter}
use nexuscone.Entries.{LedgerEntry, row_to_entry, entry_fields, payload_or_empty, signing_key_of}
use nexuscone.Entries.Log.{Request, signature_of, accepts}
use nexuscone.Entries.Append.{IsWellFormed}

abbrev pub Log : Type 0
Log = List LedgerEntry

abbrev pub allows : (Text → Bool) → Option Text → Bool
allows test none = true
allows test (some bound) = test bound

-- The entries that the filters of a query ask for; times are compared as texts.
unfoldable pub asks_for : EntryFilter → LedgerEntry → Bool
asks_for q e =
    allows (λ actor. text_eq e.actor actor) q.actor
    && allows (λ action. text_eq e.action action) q.action
    && allows (λ event_type. text_eq e.event_type event_type) q.event_type
    && allows (λ start. text_leb start e.timestamp) q.start
    && allows (λ finish. text_leb e.timestamp finish) q.finish

-- What a query reads: the entries that are asked for, from the last one where it is descending, and
-- of those as many as the limit allows.
abbrev pub ask : EntryFilter → ℤ → Bool → Log → Log
ask q limit descending es =
    let found = where_rows (asks_for q) es in
    limit_rows limit (if descending then reverse found else found)

abbrev id_after : Option LedgerEntry → ℕ
id_after none = 1
id_after (some e) = e.entry_id + 1

abbrev hash_after : Option LedgerEntry → Text
hash_after none = genesis_previous_hash
hash_after (some e) = e.entry_hash

-- The entry that a request makes behind the last one.
unfoldable pub next_entry : Sha256 → Request → Option LedgerEntry → LedgerEntry
next_entry h q tip =
    let id = id_after tip in
    let previous = hash_after tip in
    let payload = obj (payload_or_empty q.payload) in
    let entry_hash = hex (
      h.digest (
        canonical_json (
          obj (
            entry_fields id (iso q.now) q.actor q.action (canonical_json payload) previous
              q.event_type current_format_version)))) in
    record {
      entry_id = id;
      timestamp = iso q.now;
      actor = q.actor;
      action = q.action;
      payload = payload;
      previous_hash = previous;
      entry_hash = entry_hash;
      signature = signature_of q.signer entry_hash;
      signing_key_id = signing_key_of q.signer;
      event_type = q.event_type;
      format_version = current_format_version;
    }

abbrev pub as_read : LedgerEntry → LedgerEntry
as_read e = record e { payload = sort_keys e.payload }

-- Logging adds at the end where the call is accepted, and else nothing; what is kept has its payload
-- as it will be read.
unfoldable pub append : Sha256 → Request → Log → Log
unfolding next_entry
append h q es =
    let entry = next_entry h q (last? es) in
    if accepts q entry.entry_hash then es ++ as_read entry ∷ [] else es

unfoldable pub append_all : Sha256 → List Request → Log → Log
unfolding append
append_all h [] es = es
append_all h (q ∷ qs) es = append_all h qs (append h q es)

-- A well-formed ledger whose rows read as the entries of the log.
pub record Refines (h : Sha256) (db : Database) (es : Log) : Type 0 where
  pub well_formed : IsWellFormed h db
  pub view : map_result (row_to_entry db.entries) db.entries.rows ≡ ok es
