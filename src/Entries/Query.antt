-- ===== src/Entries/Query.antt =====
-- chain.py, reading entries: `get_entry`, `get_entries`, `count` and the latest entry.
use nexuscone.Prelude.{
  ℕ, Bool, true, ◌&&◌, not, Option, none, some, List, ◌==◌, if◌then◌else◌, last?, length,
}
use mathlib.Core.List.{reverse}
use nexuscone.Prelude.Int.{ℤ}
use nexuscone.Text.{Text, text_eq, text_leb}
use nexuscone.Exec.{
  Result, ok, err, Error, unicode_error, json_error, integrity_error, entry_not_found, or_raise,
  raise_if, map_result,
}
use nexuscone.Exec as Exec
use nexuscone.Exec.Action.{Action, lift, gets, ◌>>=◌, ◌>>◌}
use nexuscone.Store.{EntryRow, EntryTable, Database}
use nexuscone.Store.Query.{where_rows, first_row, limit_rows}
use nexuscone.Entries.{LedgerEntry, row_to_entry, event_type_of, is_storable, is_storable_or_null}

abbrev pub entry_or_raise : EntryTable → ℕ → Option EntryRow → Result LedgerEntry
entry_or_raise t entry_id none = err (entry_not_found entry_id)
entry_or_raise t entry_id (some row) = row_to_entry t row

-- `Ledger.get_entry`
unfoldable pub get_entry : ℕ → Action Database LedgerEntry
unfolding row_to_entry
get_entry entry_id = do
  t ← gets (λ db. db.entries)
  lift (entry_or_raise t entry_id (first_row (λ row. row.entry_id == entry_id) t.rows))

abbrev pub equals : Option Text → Text → Bool
equals none t = true
equals (some s) t = text_eq t s

abbrev pub at_least : Option Text → Text → Bool
at_least none t = true
at_least (some s) t = text_leb s t

abbrev pub at_most : Option Text → Text → Bool
at_most none t = true
at_most (some s) t = text_leb t s

-- The optional filters of `get_entries`.
pub record EntryFilter : Type 0 where
  pub actor : Option Text
  pub action : Option Text
  pub event_type : Option Text
  pub start : Option Text
  pub finish : Option Text

unfoldable pub selects : EntryFilter → EntryTable → EntryRow → Bool
selects q t row =
    equals q.actor row.actor
    && equals q.action row.action
    && equals q.event_type (event_type_of t row)
    && at_least q.start row.timestamp
    && at_most q.finish row.timestamp

-- The parameters of the query: SQLite takes a text in UTF-8.
unfoldable pub can_ask : EntryFilter → Bool
unfolding is_storable
can_ask q =
    is_storable_or_null q.actor
    && is_storable_or_null q.action
    && is_storable_or_null q.event_type
    && is_storable_or_null q.start
    && is_storable_or_null q.finish

-- `Ledger.get_entries`
unfoldable pub get_entries : EntryFilter → ℤ → Bool → Action Database (List LedgerEntry)
unfolding selects can_ask
get_entries q limit descending = do
  lift (raise_if (not (can_ask q)) unicode_error)
  t ← gets (λ db. db.entries)
  let found = where_rows (selects q t) t.rows
  let ordered = if descending then reverse found else found
  lift (map_result (row_to_entry t) (limit_rows limit ordered))

-- `Ledger.count`
unfoldable pub count : Action Database ℕ
count = gets (λ db. length db.entries.rows)

-- `Ledger._get_latest_entry_locked`
abbrev pub latest_or_none : EntryTable → Option EntryRow → Result (Option LedgerEntry)
latest_or_none t none = ok none
latest_or_none t (some row) = Exec.◌>>=◌ (row_to_entry t row) λ entry. ok (some entry)

unfoldable pub get_latest_entry : Action Database (Option LedgerEntry)
unfolding row_to_entry
get_latest_entry = do t ← gets (λ db. db.entries); lift (latest_or_none t (last? t.rows))
