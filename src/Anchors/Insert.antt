-- ===== src/Anchors/Insert.antt =====
-- Reading an anchor after its insertion.
use nexuscone.Prelude.{
  ℕ, ◌≤◌, ◌<◌, ◌≡◌, refl, sym, ap, inl, inr, Option, none, some, List, [], ◌∷◌, ◌++◌, ◌==◌, arith,
  All, map, Bool-cases, if◌then◌else◌, ltb,
}
use nexuscone.Text.Utf8.{IsScalarText}
use nexuscone.Time.{DateTime, iso}
use nexuscone.Time.RoundTrip.{from_iso-iso, IsReadable}
use nexuscone.Json.{str}
use nexuscone.Exec.{Result, ok}
use nexuscone.Exec.Inversion.{ok-injective}
use nexuscone.Store.{AnchorRow, Database}
use nexuscone.Store.Query.{first_row, next_rowid}
use nexuscone.Entries.{LedgerEntry}
use nexuscone.Rfc3161.{TsaResponse}
use nexuscone.Anchors.{AnchorRecord, parse_iso, row_to_anchor, get_anchor}
use nexuscone.Anchors.Submit.{
  OtsResult, map_option, anchor_key, violates, dumps_texts, insert_anchor,
}
use nexuscone.Anchors.Calendars.{loads-dumps_texts, values-items_of}

-- The next row id is above the counter and above every row's.
next_rowid-counter : (n : ℕ) (rows : List AnchorRow) → n < next_rowid anchor_key n rows
unfolding next_rowid
next_rowid-counter n [] = omega arith
next_rowid-counter n (r ∷ rows) =
    let m = if ltb n (anchor_key r) then anchor_key r else n in
    let above : n ≤ m = ground arith in omega (arith, above, next_rowid-counter m rows)

first_row-fresh :
    (i n : ℕ) (rows : List AnchorRow) (x : AnchorRow)
    → i ≡ next_rowid anchor_key n rows
    → x.anchor_id ≡ i
    → first_row (λ (r : AnchorRow). r.anchor_id == i) (rows ++ x ∷ []) ≡ some x
unfolding first_row next_rowid
first_row-fresh i n [] x e k = ground arith
first_row-fresh i n (r ∷ rows) x e k =
    let m = if ltb n (anchor_key r) then anchor_key r else n in
    let above : anchor_key r ≤ m = ground arith in
    let fresh : anchor_key r < i = omega (arith, above, e, next_rowid-counter m rows) in
    ground (arith, fresh, first_row-fresh i m rows x e k)

-- The time of a response is one that the program can write and read.
abbrev pub HasValidTime : Option TsaResponse → Type 0
HasValidTime none = Unit
HasValidTime (some r) = IsReadable r.gen_time

-- The row that is inserted, and the anchor that is returned.
inserted_row : DateTime → LedgerEntry → OtsResult → Option TsaResponse → ℕ → AnchorRow
inserted_row now e proofs tsa i = record {
  anchor_id = i;
  chain_head_hash = e.entry_hash;
  chain_head_entry_id = e.entry_id;
  ots_proof_blob = proofs.proof;
  submitted_at = iso now;
  calendar_servers = dumps_texts proofs.successful;
  confirmed_at = none;
  bitcoin_block_height = none;
  bitcoin_block_hash = none;
  tst_blob = map_option (λ (r : TsaResponse). r.tst_blob) tsa;
  tsa_url = map_option (λ (r : TsaResponse). r.tsa_url) tsa;
  tsa_gen_time = map_option (λ (r : TsaResponse). iso r.gen_time) tsa;
}

inserted : DateTime → LedgerEntry → OtsResult → Option TsaResponse → ℕ → AnchorRecord
inserted now e proofs tsa i = record {
  anchor_id = i;
  chain_head_hash = e.entry_hash;
  chain_head_entry_id = e.entry_id;
  submitted_at = now;
  calendar_servers = map str proofs.successful;
  ots_proof_blob = proofs.proof;
  confirmed_at = none;
  bitcoin_block_height = none;
  bitcoin_block_hash = none;
  tst_blob = map_option (λ (r : TsaResponse). r.tst_blob) tsa;
  tsa_url = map_option (λ (r : TsaResponse). r.tsa_url) tsa;
  tsa_gen_time = map_option (λ (r : TsaResponse). r.gen_time) tsa;
}

parse_iso-valid :
    (tsa : Option TsaResponse)
    → HasValidTime tsa
    → parse_iso (map_option (λ (r : TsaResponse). iso r.gen_time) tsa)
      ≡ ok (map_option (λ (r : TsaResponse). r.gen_time) tsa)
parse_iso-valid none h = refl
parse_iso-valid (some r) h = rw (from_iso-iso r.gen_time h) refl

row_to_anchor-inserted_row :
    (now : DateTime) (e : LedgerEntry) (proofs : OtsResult) (tsa : Option TsaResponse) (i : ℕ)
    → IsReadable now
    → HasValidTime tsa
    → All IsScalarText proofs.successful
    → row_to_anchor (inserted_row now e proofs tsa i) ≡ ok (inserted now e proofs tsa i)
unfolding row_to_anchor inserted_row inserted
row_to_anchor-inserted_row now e proofs tsa i valid stamp texts =
    rw (from_iso-iso now valid, loads-dumps_texts proofs.successful texts) rw
      (values-items_of proofs.successful) rw (parse_iso-valid tsa stamp) refl

with_anchor : Database → AnchorRow → ℕ → Database
with_anchor db row i = record db {
  anchors = record db.anchors { sequence = i; rows = db.anchors.rows ++ row ∷ [] };
}

insert_anchor-eq-ok :
    (now : DateTime) (e : LedgerEntry) (proofs : OtsResult) (tsa : Option TsaResponse)
    (db db' : Database) (a : AnchorRecord)
    → insert_anchor now e proofs tsa db ≡ (ok a, db')
    → let i = next_rowid anchor_key db.anchors.sequence db.anchors.rows in
      (a ≡ inserted now e proofs tsa i) × (db' ≡ with_anchor db (inserted_row now e proofs tsa i) i)
unfolding insert_anchor inserted inserted_row with_anchor
insert_anchor-eq-ok now e proofs tsa db db' a h =
    elim (Bool-cases (violates db e.entry_id proofs.proof)) [
      | inr there ↦
          let done = rw there at h in
          (
            sym (ok-injective _ _ (ap (λ (r : Result AnchorRecord × Database). r.0) done)),
            sym (ap (λ (r : Result AnchorRecord × Database). r.1) done),
          )
      | inl missing ↦
          let never = ap (λ (r : Result AnchorRecord × Database). r.0) (rw missing at h) in cc
    ]

-- Where an anchor is inserted, with times in the years 1000 to 9999 and calendars whose names have no
-- surrogates, `get_anchor` of its id reads what the insertion returned.
pub get_anchor-insert_anchor :
    (now : DateTime) (e : LedgerEntry) (proofs : OtsResult) (tsa : Option TsaResponse)
    (db db' : Database) (a : AnchorRecord)
    → insert_anchor now e proofs tsa db ≡ (ok a, db')
    → IsReadable now
    → HasValidTime tsa
    → All IsScalarText proofs.successful
    → get_anchor a.anchor_id db' ≡ (ok a, db')
unfolding get_anchor inserted with_anchor inserted_row
get_anchor-insert_anchor now e proofs tsa db db' a h valid stamp texts =
    let i = next_rowid anchor_key db.anchors.sequence db.anchors.rows in
    let (same, after) = insert_anchor-eq-ok now e proofs tsa db db' a h in
    let found =
      first_row-fresh i db.anchors.sequence db.anchors.rows (inserted_row now e proofs tsa i) refl
        refl in
    let read = row_to_anchor-inserted_row now e proofs tsa i valid stamp texts in
    rw (same, after) rw found rw read refl
