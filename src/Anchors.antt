-- ===== src/Anchors.antt =====
-- chain.py, the anchors: reading, listing and confirming them.
pub mod Submit
pub mod Safety
pub mod Laws
pub mod Confirm
pub mod Age
pub mod Calendars
pub mod Insert
use nexuscone.Prelude.{
  ℕ, suc, ◌+◌, Bool, true, false, ◌&&◌, not, Option, none, some, List, [], ◌∷◌, ◌++◌, ◌==◌, map,
  if◌then◌else◌,
}
use nexuscone.Prelude.Int.{ℤ}
use nexuscone.Text.{Text, Bytes, codes, text_leb}
use nexuscone.Text.Hex.{from_hex}
use nexuscone.Time.{DateTime, iso, from_iso}
use nexuscone.Time.Shift.{minus_minutes}
use nexuscone.Json.{
  Value, Items, Members, null, boolean, int, str, arr, obj, nil, cons, end, member,
}
use nexuscone.Json.Print.{print_string}
use nexuscone.Json.Parse.{loads}
use nexuscone.Schedule.{AnchorSchedule}
use nexuscone.Rfc3161.{Tsa, TsaResponse, submit_tsa_track}
use nexuscone.Exec.{
  Error, Result, ok, err, hex_error, json_error, type_error, date_error, overflow_error,
  integrity_error, timestamp_error, cannot_anchor, both_tracks_failed, anchor_not_found, or_raise,
  raise_if, map_result,
}
use nexuscone.Exec as Exec
use nexuscone.Exec.Action.{Action, pure, lift, gets, put, ◌>>=◌, ◌>>◌}
use nexuscone.Store.{EntryRow, AnchorRow, AnchorTable, Database, Ledger}
use nexuscone.Store.Query.{where_rows, first_row, limit_rows, update_rows, next_rowid}
use nexuscone.Entries.{LedgerEntry}
use nexuscone.Entries.Query.{get_latest_entry}
use nexuscone.Ledger.{method}

-- class AnchorRecord
pub record AnchorRecord : Type 0 where
  pub anchor_id : ℕ
  pub chain_head_hash : Text
  pub chain_head_entry_id : ℕ
  pub submitted_at : DateTime
  pub calendar_servers : List Value
  pub ots_proof_blob : Option Bytes
  pub confirmed_at : Option DateTime
  pub bitcoin_block_height : Option ℕ
  pub bitcoin_block_hash : Option Text
  pub tst_blob : Option Bytes
  pub tsa_url : Option Text
  pub tsa_gen_time : Option DateTime

abbrev pub values : Items → List Value
values nil = []
values (cons v vs) = v ∷ values vs

abbrev keys : Members → List Value
keys end = []
keys (member k v ms) = str k ∷ keys ms

-- `list(x)` of a decoded JSON value; `none` is its TypeError.
unfoldable pub list_of : Value → Option (List Value)
list_of null = none
list_of (boolean b) = none
list_of (int n) = none
list_of (str s) = some (map (λ c. str (c ∷ [])) s)
list_of (arr vs) = some (values vs)
list_of (obj ms) = some (keys ms)

abbrev pub parse_iso : Option Text → Result (Option DateTime)
parse_iso none = ok none
parse_iso (some s) = Exec.◌>>=◌ (or_raise date_error (from_iso s)) λ t. ok (some t)

-- `_row_to_anchor`
unfoldable pub row_to_anchor : AnchorRow → Result AnchorRecord
unfolding list_of
row_to_anchor row = Exec.◌>>=◌ (or_raise date_error (from_iso row.submitted_at)) λ submitted_at.
    Exec.◌>>=◌ (or_raise json_error (loads row.calendar_servers)) λ decoded.
      Exec.◌>>=◌ (or_raise type_error (list_of decoded)) λ calendar_servers.
        Exec.◌>>=◌ (parse_iso row.confirmed_at) λ confirmed_at.
          Exec.◌>>=◌ (parse_iso row.tsa_gen_time) λ tsa_gen_time. ok (record {
            anchor_id = row.anchor_id;
            chain_head_hash = row.chain_head_hash;
            chain_head_entry_id = row.chain_head_entry_id;
            submitted_at = submitted_at;
            calendar_servers = calendar_servers;
            ots_proof_blob = row.ots_proof_blob;
            confirmed_at = confirmed_at;
            bitcoin_block_height = row.bitcoin_block_height;
            bitcoin_block_hash = row.bitcoin_block_hash;
            tst_blob = row.tst_blob;
            tsa_url = row.tsa_url;
            tsa_gen_time = tsa_gen_time;
          })

abbrev pub anchor_or_raise : ℕ → Option AnchorRow → Result AnchorRecord
anchor_or_raise anchor_id none = err (anchor_not_found anchor_id)
anchor_or_raise anchor_id (some row) = row_to_anchor row

-- `Ledger.get_anchor`
unfoldable pub get_anchor : ℕ → Action Database AnchorRecord
unfolding row_to_anchor
get_anchor anchor_id = do
  t ← gets (λ db. db.anchors)
  lift (anchor_or_raise anchor_id (first_row (λ r. r.anchor_id == anchor_id) t.rows))

abbrev pub is_null : {A : Type 0} → Option A → Bool
is_null none = true
is_null (some a) = false

abbrev pub confirmed_is : Option Bool → AnchorRow → Bool
confirmed_is none row = true
confirmed_is (some true) row = not (is_null row.confirmed_at)
confirmed_is (some false) row = is_null row.confirmed_at

-- `Ledger.get_anchors`
unfoldable pub get_anchors : Option Bool → ℤ → Action Database (List AnchorRecord)
unfolding row_to_anchor
get_anchors confirmed limit = do
  t ← gets (λ db. db.anchors)
  lift (map_result row_to_anchor (limit_rows limit (where_rows (confirmed_is confirmed) t.rows)))

abbrev not_before : Option DateTime → AnchorRow → Bool
not_before none row = true
not_before (some cutoff) row = text_leb (iso cutoff) row.submitted_at

-- The rows that the poller asks for.
unfoldable pub is_pending : Option DateTime → AnchorRow → Bool
is_pending cutoff row =
    is_null row.confirmed_at && not (is_null row.ots_proof_blob) && not_before cutoff row

-- The clock's time less `max_age_minutes`.
abbrev pub cutoff_of : Option ℕ → DateTime → Result (Option DateTime)
cutoff_of none now = ok none
cutoff_of (some minutes) now =
    Exec.◌>>=◌ (or_raise overflow_error (minus_minutes minutes now)) λ cutoff. ok (some cutoff)

-- `Ledger.list_unconfirmed_anchors`; `now` is the clock's time.
unfoldable pub list_unconfirmed_anchors :
    Option ℕ → DateTime → ℤ → Action Database (List AnchorRecord)
unfolding is_pending row_to_anchor
list_unconfirmed_anchors max_age_minutes now limit = do
  cutoff ← lift (cutoff_of max_age_minutes now)
  t ← gets (λ db. db.anchors)
  lift (map_result row_to_anchor (limit_rows limit (where_rows (is_pending cutoff) t.rows)))

-- What is known once Bitcoin has confirmed an anchor.
pub record Confirmation : Type 0 where
  pub upgraded_proof_blob : Bytes
  pub bitcoin_block_height : ℕ
  pub bitcoin_block_hash : Option Text
  pub confirmed_at : DateTime

-- The new values of the `UPDATE`.
unfoldable pub confirm_row : Confirmation → AnchorRow → AnchorRow
confirm_row c row = record row {
  ots_proof_blob = some c.upgraded_proof_blob;
  bitcoin_block_height = some c.bitcoin_block_height;
  bitcoin_block_hash = c.bitcoin_block_hash;
  confirmed_at = some (iso c.confirmed_at);
}

-- `Ledger.confirm_anchor`
unfoldable pub confirm_anchor : ℕ → Confirmation → Action Database AnchorRecord
unfolding confirm_row get_anchor
confirm_anchor anchor_id c = do
  db ← gets (λ db. db)
  let rows =
      update_rows (λ (r : AnchorRow). r.anchor_id == anchor_id) (confirm_row c) db.anchors.rows
  put (record db { anchors = record db.anchors { rows = rows } })
  get_anchor anchor_id
