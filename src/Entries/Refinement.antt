-- ===== src/Entries/Refinement.antt =====
-- The ledger against the audit log.
use nexuscone.Prelude.{
  ℕ, ◌≡◌, refl, sym, ◌∙◌, ap, Bool, true, false, if◌then◌else◌, inl, inr, Option, none, some, List,
  [], ◌∷◌, ◌==◌, Bool-cases, last?, length, All,
}
use mathlib.Core.List.{reverse}
use nexuscone.Prelude.Int.{ℤ}
use nexuscone.Text.{Text, text_eq, text_leb}
use nexuscone.Json.{obj}
use nexuscone.Json.Parse.{loads}
use nexuscone.Json.Order.{IsValid}
use nexuscone.Canonical.{Sha256}
use nexuscone.Canonical.Laws.{loads-canonical_json}
use nexuscone.Exec.{Result, ok, err, json_error, entry_not_found, or_raise, map_result}
use nexuscone.Exec.Mapped.{
  map_result-cons, map_result-snoc, map_result-where, map_result-reverse, map_result-limit, Maps,
  last?-map_result, length-map_result,
}
use nexuscone.Exec.Inversion.{>>=-eq-ok, ok-injective}
use nexuscone.Store.{EntryRow, EntryTable, Database}
use nexuscone.Store.Query.{where_rows, first_row}
use nexuscone.Entries.{LedgerEntry, row_to_entry, event_type_of, payload_or_empty}
use nexuscone.Entries.Query.{
  EntryFilter, entry_or_raise, latest_or_none, get_entry, get_entries, count, get_latest_entry,
  can_ask, selects, equals, at_least, at_most,
}
use nexuscone.Entries.Log.{
  Request, log_request, logged_row, logged_entry, accepts, refusal, log_cases,
}
use nexuscone.Entries.Append.{log_all, IsWellFormed, log-IsWellFormed}
use nexuscone.Entries.Spec.{
  Log, next_entry, as_read, append, append_all, allows, asks_for, ask, Refines,
}

row_to_entry-fields :
    (t : EntryTable) (row : EntryRow) (e : LedgerEntry)
    → row_to_entry t row ≡ ok e
    → (e.entry_id ≡ row.entry_id)
      × (e.entry_hash ≡ row.entry_hash)
      × (e.actor ≡ row.actor)
      × (e.action ≡ row.action)
      × (e.event_type ≡ event_type_of t row)
      × (e.timestamp ≡ row.timestamp)
unfolding row_to_entry
row_to_entry-fields t row e h =
    let (payload, d, same) = >>=-eq-ok (or_raise json_error (loads row.payload)) _ h in
    let equal = ok-injective _ _ same in
    (
      ap (λ (x : LedgerEntry). x.entry_id) (sym equal),
      ap (λ (x : LedgerEntry). x.entry_hash) (sym equal),
      ap (λ (x : LedgerEntry). x.actor) (sym equal),
      ap (λ (x : LedgerEntry). x.action) (sym equal),
      ap (λ (x : LedgerEntry). x.event_type) (sym equal),
      ap (λ (x : LedgerEntry). x.timestamp) (sym equal),
    )

-- The ledger's next entry is the log's.
logged_entry-next_entry :
    (h : Sha256) (q : Request) (t : EntryTable) (row : Option EntryRow) (e : Option LedgerEntry)
    → Maps (row_to_entry t) row e
    → logged_entry h q row ≡ next_entry h q e
unfolding logged_entry logged_row next_entry
logged_entry-next_entry h q t none none m = refl
logged_entry-next_entry h q t none (some e) m = absurd m
logged_entry-next_entry h q t (some row) none m = absurd m
logged_entry-next_entry h q t (some row) (some e) m =
    let (ids, hashes, _, _, _, _) = row_to_entry-fields t row e m in rw (ids, hashes) refl

-- The row that is added reads as the entry.
row_to_entry-logged_row :
    (h : Sha256) (q : Request) (db : Database) (tip : Option EntryRow)
    → IsWellFormed h db
    → IsValid (obj (payload_or_empty q.payload))
    → row_to_entry db.entries (logged_row h q tip) ≡ ok (as_read (logged_entry h q tip))
unfolding row_to_entry logged_entry logged_row
row_to_entry-logged_row h q db tip l valid =
    rw
      (
        loads-canonical_json (obj (payload_or_empty q.payload)) valid,
        l.event_types,
        l.format_versions,
      )
      refl

row_hash :
    (h : Sha256) (q : Request) (tip : Option EntryRow)
    → (logged_row h q tip).entry_hash ≡ (logged_entry h q tip).entry_hash
unfolding logged_entry
row_hash h q tip = refl

-- For a payload with scalar texts and without repeated keys, `log` on a ledger that refines a log
-- returns the log's next entry, and the ledger then refines the log with that entry behind it; a
-- call that is refused raises, and the ledger refines the log as it was.
pub log-Refines :
    (h : Sha256) (q : Request) (db : Database) (es : Log)
    → Refines h db es
    → IsValid (obj (payload_or_empty q.payload))
    → let (r, db') = log_request h q db in
      let entry = next_entry h q (last? es) in
      (r ≡ (if accepts q entry.entry_hash then ok entry else err (refusal q entry.entry_hash)))
      × Refines h db' (append h q es)
unfolding append row_to_entry
log-Refines h q db es refines valid =
    let l = refines.well_formed in
    let tip = last? db.entries.rows in
    let next =
      logged_entry-next_entry h q db.entries tip (last? es)
        (last?-map_result (row_to_entry db.entries) db.entries.rows es refines.view) in
    let row = row_to_entry-logged_row h q db tip l valid in
    let added =
      map_result-snoc (row_to_entry db.entries) db.entries.rows (logged_row h q tip) es
        (as_read (next_entry h q (last? es))) refines.view
        (row ∙ ap (λ (e : LedgerEntry). ok (as_read e)) next) in
    let hashes : (logged_row h q tip).entry_hash ≡ (next_entry h q (last? es)).entry_hash =
      row_hash h q tip ∙ ap (λ (e : LedgerEntry). e.entry_hash) next in
    elim (log_cases h q db l.increasing) [
      | inl (refused, kept) ↦
          rw kept rw (ap (accepts q) (sym hashes) ∙ refused)
            (ap (λ (t : Text). err (refusal q t)) hashes, refines)
      | inr (taken, logged) ↦ rw (ap (accepts q) (sym hashes) ∙ taken) (
        ap (λ (p : Result LedgerEntry × Database). p.0) logged
            ∙ ap (λ (e : LedgerEntry). ok e) next,
        record { well_formed = log-IsWellFormed h q db l; view = rw logged added },
      )
    ]

-- After any calls of `log`, with payloads of scalar texts and without repeated keys, on a ledger that
-- refines a log, the ledger refines the log with the entries of the accepted calls behind it in their
-- order. A call is accepted where no int of the payload has more than 4300 digits, its signer, if
-- there is one, returns, and the actor, the action, the event type and the key id have no surrogates.
pub log_all-Refines :
    (h : Sha256) (qs : List Request) (db : Database) (es : Log)
    → Refines h db es
    → All (λ q. IsValid (obj (payload_or_empty q.payload))) qs
    → Refines h (log_all h qs db) (append_all h qs es)
unfolding log_all append_all
log_all-Refines h [] db es refines valid = refines
log_all-Refines h (q ∷ qs) db es refines valid =
    log_all-Refines h qs (log_request h q db).1 (append h q es)
      (log-Refines h q db es refines valid.0).1 valid.1

equals-allows : (o : Option Text) (t : Text) → equals o t ≡ allows (λ bound. text_eq t bound) o
equals-allows none t = refl
equals-allows (some s) t = refl

at_least-allows : (o : Option Text) (t : Text) → at_least o t ≡ allows (λ bound. text_leb bound t) o
at_least-allows none t = refl
at_least-allows (some s) t = refl

at_most-allows : (o : Option Text) (t : Text) → at_most o t ≡ allows (λ bound. text_leb t bound) o
at_most-allows none t = refl
at_most-allows (some s) t = refl

-- A filter selects the rows whose entries are asked for.
selects-asks_for :
    (q : EntryFilter) (t : EntryTable) (row : EntryRow) (e : LedgerEntry)
    → row_to_entry t row ≡ ok e
    → selects q t row ≡ asks_for q e
unfolding selects asks_for
selects-asks_for q t row e h =
    let (_, _, actor, action, event_type, timestamp) = row_to_entry-fields t row e h in
    rw (actor, action, event_type, timestamp)
      (cc (
        equals-allows q.actor row.actor,
        equals-allows q.action row.action,
        equals-allows q.event_type (event_type_of t row),
        at_least-allows q.start row.timestamp,
        at_most-allows q.finish row.timestamp,
      ))

ordered-map_result :
    (q : EntryFilter) (descending : Bool) (t : EntryTable) (rows : List EntryRow) (es : Log)
    → map_result (row_to_entry t) rows ≡ ok es
    → let found = where_rows (selects q t) rows in
      let entries = where_rows (asks_for q) es in
      map_result (row_to_entry t) (if descending then reverse found else found)
      ≡ ok (if descending then reverse entries else entries)
ordered-map_result q true t rows es e =
    map_result-reverse (row_to_entry t) _ _ (
      map_result-where (row_to_entry t) (selects q t) (asks_for q) (selects-asks_for q t) rows es e)
ordered-map_result q false t rows es e =
    map_result-where (row_to_entry t) (selects q t) (asks_for q) (selects-asks_for q t) rows es e

first_row-map_result :
    (t : EntryTable) (i : ℕ) (rows : List EntryRow) (es : Log)
    → map_result (row_to_entry t) rows ≡ ok es
    → entry_or_raise t i (first_row (λ r. r.entry_id == i) rows)
      ≡ or_raise (entry_not_found i) (first_row (λ e. e.entry_id == i) es)
unfolding first_row map_result
first_row-map_result t i [] es k =
    let none_left : [] ≡ es = ok-injective _ _ k in rw (sym none_left) refl
first_row-map_result t i (r ∷ rows) es k =
    let (e, more, first, rest, same) = map_result-cons (row_to_entry t) r rows es k in
    let ids = (row_to_entry-fields t r e first).0 in
    let later = first_row-map_result t i rows more rest in
    elim (Bool-cases (r.entry_id == i)) [
      | inl here ↦ rw (same, ids) rw here rw first refl
      | inr other ↦ rw (same, ids) rw other later
    ]

latest-map_result :
    (t : EntryTable) (row : Option EntryRow) (e : Option LedgerEntry)
    → Maps (row_to_entry t) row e
    → latest_or_none t row ≡ ok e
latest-map_result t none none m = refl
latest-map_result t none (some e) m = absurd m
latest-map_result t (some row) none m = absurd m
latest-map_result t (some row) (some e) m = rw m refl

-- On a ledger that refines a log, `get_entries` with any limit, direction and filters without
-- surrogates returns what the log has of it (the entries that pass the filters, from the last one where it is descending, up to
-- the limit), `count` the log's length, the latest entry is its last, and `get_entry` returns the
-- first entry with that id or raises that there is none.
pub reads-Refines :
    (h : Sha256) (db : Database) (es : Log) (q : EntryFilter) (limit : ℤ) (descending : Bool)
    (i : ℕ)
    → Refines h db es
    → can_ask q ≡ true
    → (get_entries q limit descending db ≡ (ok (ask q limit descending es), db))
      × (count db ≡ (ok (length es), db))
      × (get_latest_entry db ≡ (ok (last? es), db))
      × (get_entry i db ≡ (or_raise (entry_not_found i) (first_row (λ e. e.entry_id == i) es), db))
unfolding get_entries count get_latest_entry get_entry
reads-Refines h db es q limit descending i refines plain =
    let t = db.entries in
    let read =
      map_result-limit (row_to_entry t) limit _ _
        (ordered-map_result q descending t t.rows es refines.view) in
    (
      rw plain (ap (λ (r : Result Log). (r, db)) read),
      rw (length-map_result (row_to_entry t) t.rows es refines.view) refl,
      rw
          (latest-map_result t (last? t.rows) (last? es)
            (last?-map_result (row_to_entry t) t.rows es refines.view))
          refl,
      rw (first_row-map_result t i t.rows es refines.view) refl,
    )
