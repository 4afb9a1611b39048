-- ===== src/Ledger/Migration.antt =====
-- What `init` keeps: legacy chains, reopened databases.
use nexuscone.Prelude.{
  ℕ, ◌≡◌, refl, sym, ◌∙◌, Bool, true, false, Option, List, [], ◌∷◌, map, if◌then◌else◌, arith,
}
use nexuscone.Text.{Text}
use nexuscone.Canonical.{Sha256}
use nexuscone.Store.{
  EntryRow, EntryTable, AnchorTable, Database, File, Ledger, Connection, closed, open_on,
  genesis_previous_hash,
}
use nexuscone.Store.Ordered.{IsIncreasing, Increasing}
use nexuscone.Entries.Chain.{IsChain, hash_of}
use nexuscone.Entries.Log.{entry_key}
use nexuscone.Entries.Append.{IsWellFormed}
use nexuscone.Schedule.{AnchorSchedule}
use nexuscone.Ledger.{
  create_entries, create_anchors, add_event_type, add_format_version, ensure_event_type,
  migrate_legacy_columns, migrate_anchors_columns, open_file, init, close,
}

-- Filling in a column that a row is read without changes no hash.
IsChain-event_type :
    (h : Sha256) (t : EntryTable) (qs : List EntryRow) (p : Text) (rows : List EntryRow)
    → t.has_event_type ≡ false
    → IsChain h t p rows
    → IsChain h (record t { has_event_type = true; rows = qs }) p (map add_event_type rows)
unfolding hash_of
IsChain-event_type h t qs p [] f c = tt
IsChain-event_type h t qs p (r ∷ rs) f c =
    (c.0, rw f at c.1, IsChain-event_type h t qs r.entry_hash rs f c.2)

IsChain-format_version :
    (h : Sha256) (t : EntryTable) (qs : List EntryRow) (p : Text) (rows : List EntryRow)
    → t.has_format_version ≡ false
    → IsChain h t p rows
    → IsChain h (record t { has_format_version = true; rows = qs }) p (map add_format_version rows)
unfolding hash_of
IsChain-format_version h t qs p [] f c = tt
IsChain-format_version h t qs p (r ∷ rs) f c =
    (c.0, rw f at c.1, IsChain-format_version h t qs r.entry_hash rs f c.2)

map-Increasing :
    (f : EntryRow → EntryRow) (n : ℕ) (rows : List EntryRow)
    → ((r : EntryRow) → (f r).entry_id ≡ r.entry_id)
    → Increasing entry_key n rows
    → Increasing entry_key n (map f rows)
map-Increasing f n [] k h = tt
map-Increasing f n (r ∷ rs) k h = rw (k r) (h.0, map-Increasing f r.entry_id rs k h.1)

map-IsIncreasing :
    (f : EntryRow → EntryRow) (rows : List EntryRow)
    → ((r : EntryRow) → (f r).entry_id ≡ r.entry_id)
    → IsIncreasing entry_key rows
    → IsIncreasing entry_key (map f rows)
map-IsIncreasing f [] k h = tt
map-IsIncreasing f (r ∷ rs) k h = rw (k r) (map-Increasing f r.entry_id rs k h)

-- A table whose ids increase and whose rows form a chain, with whatever columns it has.
pub record IsSound (h : Sha256) (t : EntryTable) : Type 0 where
  pub increasing : IsIncreasing entry_key t.rows
  pub chain : IsChain h t genesis_previous_hash t.rows

ensure_event_type-lem :
    (h : Sha256) (t : EntryTable) (b : Bool)
    → t.has_event_type ≡ b
    → IsSound h t
    → let t' =
        if b then t else record t { has_event_type = true; rows = map add_event_type t.rows } in
      IsSound h t' × (t'.has_event_type ≡ true)
ensure_event_type-lem h t true e s = (s, e)
ensure_event_type-lem h t false e s = (
  record {
    increasing = map-IsIncreasing add_event_type t.rows (λ r. refl) s.increasing;
    chain = IsChain-event_type h t _ genesis_previous_hash t.rows e s.chain;
  },
  refl,
)

ensure_format_version-lem :
    (h : Sha256) (t : EntryTable) (b : Bool)
    → t.has_format_version ≡ b
    → IsSound h t
    → let t' =
        if b
        then t
        else record t { has_format_version = true; rows = map add_format_version t.rows } in
      IsSound h t' × (t'.has_format_version ≡ true) × (t'.has_event_type ≡ t.has_event_type)
ensure_format_version-lem h t true e s = (s, e, refl)
ensure_format_version-lem h t false e s = (
  record {
    increasing = map-IsIncreasing add_format_version t.rows (λ r. refl) s.increasing;
    chain = IsChain-format_version h t _ genesis_previous_hash t.rows e s.chain;
  },
  refl,
  refl,
)

-- The entries of a file, none where the table is missing.
abbrev pub entries_of : File → EntryTable
entries_of f = create_entries f.entries

-- From a file whose entries have increasing ids and form a chain, with whatever columns it has
-- (those of v0.1.0, of v0.2.0 or in between), `init` makes a well-formed ledger: both columns
-- are there, the ids increase, and the rows still form a chain.
pub open_file-IsWellFormed :
    (h : Sha256) (f : File) → IsSound h (entries_of f) → IsWellFormed h (open_file f)
unfolding open_file
open_file-IsWellFormed h f s =
    let t = entries_of f in
    let (sound, typed) = ensure_event_type-lem h t t.has_event_type refl s in
    let u = ensure_event_type t in
    let (after, versioned, kept) = ensure_format_version-lem h u u.has_format_version refl sound in
    record {
      event_types = kept ∙ typed;
      format_versions = versioned;
      increasing = after.increasing;
      chain = after.chain;
    }

ensure_flags :
    (t : EntryTable)
    → t.has_event_type ≡ true
    → t.has_format_version ≡ true
    → migrate_legacy_columns t ≡ t
unfolding migrate_legacy_columns
ensure_flags t e f = simp (e, f)

anchor_flags :
    (t : AnchorTable)
    → t.has_tst_blob ≡ true
    → t.has_tsa_url ≡ true
    → t.has_tsa_gen_time ≡ true
    → migrate_anchors_columns t ≡ t
unfolding migrate_anchors_columns
anchor_flags t e f g = simp (e, f, g)

-- The columns that `open_file` leaves.
entry_columns :
    (t : EntryTable)
    → ((migrate_legacy_columns t).has_event_type ≡ true)
      × ((migrate_legacy_columns t).has_format_version ≡ true)
unfolding migrate_legacy_columns
entry_columns t = ground arith

anchor_columns :
    (t : AnchorTable)
    → ((migrate_anchors_columns t).has_tst_blob ≡ true)
      × ((migrate_anchors_columns t).has_tsa_url ≡ true)
      × ((migrate_anchors_columns t).has_tsa_gen_time ≡ true)
unfolding migrate_anchors_columns
anchor_columns t = ground arith

init-init_by :
    (c : Connection) (s : Option AnchorSchedule)
    → let l : Ledger = record { connection = c; anchor_schedule = s } in init (init l) ≡ init l
unfolding init
init-init_by (closed f) s = refl
init-init_by (open_on db) s = refl

-- `init` is idempotent.
pub init-init : (l : Ledger) → init (init l) ≡ init l
init-init l = init-init_by l.connection l.anchor_schedule

-- The columns of two databases are the same.
pub record SameColumns (a : Database) (b : Database) : Type 0 where
  pub event_type : a.entries.has_event_type ≡ b.entries.has_event_type
  pub format_version : a.entries.has_format_version ≡ b.entries.has_format_version
  pub tst_blob : a.anchors.has_tst_blob ≡ b.anchors.has_tst_blob
  pub tsa_url : a.anchors.has_tsa_url ≡ b.anchors.has_tsa_url
  pub tsa_gen_time : a.anchors.has_tsa_gen_time ≡ b.anchors.has_tsa_gen_time

-- Once `init` has opened a file, whatever is done to the rows of its tables: closing the ledger and
-- opening it again gives the same ledger, every row of every table included.
pub init-close :
    (f : File) (db : Database) (s : Option AnchorSchedule)
    → SameColumns (open_file f) db
    → let l : Ledger = record { connection = open_on db; anchor_schedule = s } in init (close l) ≡ l
unfolding init close open_file
init-close f db s same =
    let (a, b) = entry_columns (create_entries f.entries) in
    let (c, d, e) = anchor_columns (create_anchors f.anchors) in
    let entries = ensure_flags db.entries (sym same.event_type ∙ a) (sym same.format_version ∙ b) in
    let anchors =
      anchor_flags db.anchors (sym same.tst_blob ∙ c) (sym same.tsa_url ∙ d)
        (sym same.tsa_gen_time ∙ e) in
    rw (entries, anchors) refl
