-- ===== src/Entries/Append.antt =====
-- `log` called in sequence, in whatever order the lock lets the writers in.
use nexuscone.Prelude.{
  ℕ, ◌+◌, ◌≡◌, refl, sym, true, inl, inr, if◌then◌else◌, Option, List, [], ◌∷◌, ◌++◌, arith, length,
  last?, length-append,
}
use nexuscone.Text.{Text}
use nexuscone.Canonical.{Sha256}
use nexuscone.Store.{EntryRow, EntryTable, Database, genesis_previous_hash}
use nexuscone.Store.Ordered.{IsIncreasing}
use nexuscone.Entries.{previous_hash_of}
use nexuscone.Entries.Chain.{hash_of, IsChain, head_hash}
use nexuscone.Entries.Log.{
  Request, log_request, logged_row, with_entry, entry_key, accepts, log_cases, log-IsIncreasing,
}

-- The writers' calls, one after the other.
unfoldable pub log_all : Sha256 → List Request → Database → Database
log_all h [] db = db
log_all h (q ∷ qs) db = log_all h qs (log_request h q db).1

-- What `init` and `log` keep: the columns are there, the ids increase, the rows form a chain.
pub record IsWellFormed (h : Sha256) (db : Database) : Type 0 where
  pub event_types : db.entries.has_event_type ≡ true
  pub format_versions : db.entries.has_format_version ≡ true
  pub increasing : IsIncreasing entry_key db.entries.rows
  pub chain : IsChain h db.entries genesis_previous_hash db.entries.rows

-- The columns decide how a row is hashed, the rows of the table do not.
IsChain-rows :
    (h : Sha256) (t : EntryTable) (p : Text) (rows qs : List EntryRow)
    → IsChain h t p rows
    → IsChain h (record t { rows = qs }) p rows
unfolding hash_of
IsChain-rows h t p [] qs c = tt
IsChain-rows h t p (r ∷ rs) qs c = (c.0, c.1, IsChain-rows h t r.entry_hash rs qs c.2)

IsChain-snoc :
    (h : Sha256) (t : EntryTable) (p : Text) (rows : List EntryRow) (x : EntryRow)
    → IsChain h t p rows
    → x.previous_hash ≡ head_hash p rows
    → x.entry_hash ≡ hash_of h t x
    → IsChain h t p (rows ++ x ∷ [])
IsChain-snoc h t p [] x c linked hashed = (linked, hashed, tt)
IsChain-snoc h t p (r ∷ rs) x c linked hashed =
    (c.0, c.1, IsChain-snoc h t r.entry_hash rs x c.2 linked hashed)

-- The hash that `log` links to is that of the last row.
head_hash-last :
    (p : Text) (r : EntryRow) (rows : List EntryRow)
    → head_hash p (r ∷ rows) ≡ previous_hash_of (last? (r ∷ rows))
head_hash-last p r [] = refl
head_hash-last p r (q ∷ rows) = head_hash-last r.entry_hash q rows

pub head_hash-tip :
    (rows : List EntryRow) → head_hash genesis_previous_hash rows ≡ previous_hash_of (last? rows)
head_hash-tip [] = refl
head_hash-tip (r ∷ rows) = head_hash-last genesis_previous_hash r rows

logged_row-hash :
    (h : Sha256) (q : Request) (tip : Option EntryRow) (t : EntryTable)
    → t.has_event_type ≡ true
    → t.has_format_version ≡ true
    → (logged_row h q tip).entry_hash ≡ hash_of h t (logged_row h q tip)
unfolding logged_row hash_of
logged_row-hash h q tip t e f = rw (e, f)

with_entry-IsWellFormed :
    (h : Sha256) (q : Request) (db : Database)
    → IsWellFormed h db
    → IsIncreasing entry_key (db.entries.rows ++ logged_row h q (last? db.entries.rows) ∷ [])
    → IsWellFormed h (with_entry db (logged_row h q (last? db.entries.rows)))
with_entry-IsWellFormed h q db l ids =
    let tip = last? db.entries.rows in
    let row = logged_row h q tip in
    let rows = db.entries.rows ++ row ∷ [] in
    let linked : row.previous_hash ≡ head_hash genesis_previous_hash db.entries.rows =
      unfold logged_row in sym (head_hash-tip db.entries.rows) in
    let chain =
      IsChain-snoc h db.entries genesis_previous_hash db.entries.rows row l.chain linked
        (logged_row-hash h q tip db.entries l.event_types l.format_versions) in
    record {
      event_types = l.event_types;
      format_versions = l.format_versions;
      increasing = ids;
      chain = IsChain-rows h db.entries genesis_previous_hash rows rows chain;
    }

-- On a well-formed ledger (both columns, increasing ids, a chain) `log` returns or raises, and leaves
-- one: it keeps the columns, the order of the ids and the chain.
pub log-IsWellFormed :
    (h : Sha256) (q : Request) (db : Database)
    → IsWellFormed h db
    → IsWellFormed h (log_request h q db).1
log-IsWellFormed h q db l =
    let ids = log-IsIncreasing h q db l.increasing in
    elim (log_cases h q db l.increasing) [
      | inl (_, same) ↦ rw same l
      | inr (_, same) ↦ rw same (with_entry-IsWellFormed h q db l (rw same at ids))
    ]

pub log_all-IsWellFormed :
    (h : Sha256) (qs : List Request) (db : Database)
    → IsWellFormed h db
    → IsWellFormed h (log_all h qs db)
unfolding log_all
log_all-IsWellFormed h [] db l = l
log_all-IsWellFormed h (q ∷ qs) db l =
    log_all-IsWellFormed h qs (log_request h q db).1 (log-IsWellFormed h q db l)

-- How many of the calls, one after the other, are accepted.
unfoldable pub accepted : Sha256 → List Request → Database → ℕ
accepted h [] db = 0
accepted h (q ∷ qs) db =
    let entry_hash = (logged_row h q (last? db.entries.rows)).entry_hash in
    (if accepts q entry_hash then 1 else 0) + accepted h qs (log_request h q db).1

pub length-log_all :
    (h : Sha256) (qs : List Request) (db : Database)
    → IsWellFormed h db
    → length (log_all h qs db).entries.rows ≡ length db.entries.rows + accepted h qs db
unfolding log_all accepted
length-log_all h [] db l = omega arith
length-log_all h (q ∷ qs) db l =
    let rest = length-log_all h qs (log_request h q db).1 (log-IsWellFormed h q db l) in
    elim (log_cases h q db l.increasing) [
      | inl (refused, same) ↦
          let none_added : length (log_request h q db).1.entries.rows ≡ length db.entries.rows =
            rw same refl in
          rw refused omega (arith, none_added, rest)
      | inr (taken, same) ↦
          let one : length (log_request h q db).1.entries.rows ≡ length db.entries.rows + 1 =
            rw same (length-append db.entries.rows _) in
          rw taken omega (arith, one, rest)
    ]
