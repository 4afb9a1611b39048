-- ===== src/Entries/ReadBack.antt =====
-- Reading entries after writing them.
use nexuscone.Prelude.{
  ℕ, ◌+◌, ◌<◌, ◌≡◌, ◌≢◌, refl, sym, ◌∙◌, ap, true, inl, inr, none, some, List, [], ◌∷◌, ◌++◌, arith,
  last?, ◌==◌,
}
use nexuscone.Json.{obj, sort_keys}
use nexuscone.Json.Order.{IsValid}
use nexuscone.Canonical.{Sha256}
use nexuscone.Canonical.Laws.{loads-canonical_json}
use nexuscone.Exec.{Result, ok}
use nexuscone.Store.{EntryRow, Database}
use nexuscone.Store.Query.{first_row}
use nexuscone.Store.Ordered.{IsIncreasing, Increasing, last_key, last_key-le, last?-key}
use nexuscone.Entries.{LedgerEntry, row_to_entry, payload_or_empty, next_id_of}
use nexuscone.Entries.Query.{get_entry}
use nexuscone.Entries.Log.{
  Request, log_request, logged_row, logged_entry, entry_key, accepts, log_cases, accepted_lem,
}
use nexuscone.Entries.Append.{IsWellFormed}

first_row-append :
    (i : ℕ) (rows : List EntryRow) (x : EntryRow)
    → first_row (λ r. r.entry_id == i) rows ≡ none
    → x.entry_id ≡ i
    → first_row (λ r. r.entry_id == i) (rows ++ x ∷ []) ≡ some x
unfolding first_row
first_row-append i [] x h e = ground arith
first_row-append i (r ∷ rs) x h e = ground (arith, first_row-append i rs x)

first_row-below :
    (i n : ℕ) (rows : List EntryRow)
    → Increasing entry_key n rows
    → last_key entry_key n rows < i
    → first_row (λ r. r.entry_id == i) rows ≡ none
unfolding first_row
first_row-below i n [] h p = refl
first_row-below i n (r ∷ rs) h p =
    ground (arith, last_key-le entry_key r.entry_id rs, first_row-below i r.entry_id rs h.1 p)

first_row-other :
    (i : ℕ) (rows : List EntryRow) (x : EntryRow)
    → x.entry_id ≢ i
    → first_row (λ r. r.entry_id == i) (rows ++ x ∷ []) ≡ first_row (λ r. r.entry_id == i) rows
unfolding first_row
first_row-other i [] x h = ground arith
first_row-other i (r ∷ rs) x h = ground (arith, first_row-other i rs x h)

-- No row has the id that comes next.
first_row-next :
    (rows : List EntryRow) (i : ℕ)
    → IsIncreasing entry_key rows
    → i ≡ next_id_of (last? rows)
    → first_row (λ r. r.entry_id == i) rows ≡ none
unfolding first_row
first_row-next [] i h k = refl
first_row-next (r ∷ rs) i h k =
    let (l, e, above) = last?-key entry_key r rs in
    let next : i ≡ last_key entry_key r.entry_id rs + 1 = k ∙ rw e (ap (λ n. n + 1) above) in
    ground (
      arith,
      last_key-le entry_key r.entry_id rs h,
      first_row-below i r.entry_id rs h (omega arith),
    )

abbrev sorted_payload : LedgerEntry → LedgerEntry
sorted_payload e = record e { payload = sort_keys e.payload }

-- On a well-formed ledger, for a call that `log` accepts (no int of more than 4300 digits, a signer that
-- returns, if any, no surrogate in actor, action, event type and key id), with a payload of scalar texts and without repeated keys,
-- `log` returns its entry, and `get_entry` of its id afterwards gives that entry with the keys of
-- the payload sorted.
pub get_entry-log :
    (h : Sha256) (q : Request) (db : Database)
    → IsWellFormed h db
    → accepts q (logged_row h q (last? db.entries.rows)).entry_hash ≡ true
    → IsValid (obj (payload_or_empty q.payload))
    → let (r, db') = log_request h q db in
      let entry = logged_entry h q (last? db.entries.rows) in
      (r ≡ ok entry) × (get_entry entry.entry_id db' ≡ (ok (sorted_payload entry), db'))
unfolding get_entry row_to_entry logged_entry logged_row
get_entry-log h q db l taken valid =
    let tip = last? db.entries.rows in
    let row = logged_row h q tip in
    let found =
      first_row-append row.entry_id db.entries.rows row
        (first_row-next db.entries.rows row.entry_id l.increasing (unfold logged_row in refl))
        refl in
    let done = accepted_lem h q db l.increasing taken in
    let decoded = loads-canonical_json (obj (payload_or_empty q.payload)) valid in
    (
      ap (λ (p : Result LedgerEntry × Database). p.0) done,
      rw (done, found, decoded, l.event_types, l.format_versions),
    )

-- On a well-formed ledger `log` changes the result of `get_entry` for no id but its own, whether
-- the id can be read or raises.
pub get_entry-log_other :
    (h : Sha256) (q : Request) (db : Database) (i : ℕ)
    → IsWellFormed h db
    → i ≢ next_id_of (last? db.entries.rows)
    → (get_entry i (log_request h q db).1).0 ≡ (get_entry i db).0
unfolding get_entry row_to_entry logged_row
get_entry-log_other h q db i l other =
    let row = logged_row h q (last? db.entries.rows) in
    let same = first_row-other i db.entries.rows row (λ e. other (sym e)) in
    elim (log_cases h q db l.increasing) [
      | inl (_, kept) ↦ rw kept refl
      | inr (_, added) ↦ rw added rw same refl
    ]
