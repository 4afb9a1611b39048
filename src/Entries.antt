-- ===== src/Entries.antt =====
-- chain.py, the entries: hashing a row, and `log`.
pub mod Verify
pub mod Chain
pub mod Verdict
pub mod Log
pub mod Append
pub mod Signed
pub mod Tamper
pub mod Unseen
pub mod ReadBack
pub mod Query
pub mod Spec
pub mod Refinement
pub mod Bounds
use nexuscone.Prelude.{
  ℕ, suc, ◌+◌, Bool, true, false, ◌&&◌, not, Option, none, some, List, [], ◌∷◌, ◌++◌, leb, ◌==◌,
  if◌then◌else◌, last?, length,
}
use mathlib.Core.List.{reverse}
use nexuscone.Prelude.Int.{ℤ, pos}
use nexuscone.Text.{Text, Bytes, codes, text_eq, text_leb}
use nexuscone.Text.Hex.{hex}
use nexuscone.Text.Utf8.{utf8}
use nexuscone.Json.{Value, str, int, obj, Members, end, member}
use nexuscone.Json.Parse.{loads}
use nexuscone.Canonical.{Sha256, canonical_json, sha256_hex, dumps}
use nexuscone.Time.{DateTime, iso}
use nexuscone.Exec.{
  Result, ok, err, Error, unicode_error, value_error, json_error, integrity_error, entry_not_found,
  or_raise, raise_if, map_result,
}
use nexuscone.Exec as Exec
use nexuscone.Exec.Action.{Action, pure, lift, gets, put, ◌>>=◌, ◌>>◌}
use nexuscone.Store.{
  EntryRow, EntryTable, Database, genesis_previous_hash, event_type_request, current_format_version,
}
use nexuscone.Store.Query.{where_rows, first_row, limit_rows, insert_row}

-- class LedgerEntry
pub record LedgerEntry : Type 0 where
  pub entry_id : ℕ
  pub timestamp : Text
  pub actor : Text
  pub action : Text
  pub payload : Value
  pub previous_hash : Text
  pub entry_hash : Text
  pub signature : Option Text
  pub signing_key_id : Option Text
  pub event_type : Text
  pub format_version : ℕ

-- class Signer. `sign` may raise.
pub record Signer : Type 0 where
  pub key_id : Text
  pub sign : Bytes → Result Bytes

-- The inputs of an entry hash, in the order in which the dict is filled.
unfoldable pub entry_fields : ℕ → Text → Text → Text → Text → Text → Text → ℕ → Members
entry_fields entry_id timestamp actor action payload_canonical previous_hash event_type
      format_version =
    member (codes "entry_id") (int (pos entry_id)) (
      member (codes "timestamp") (str timestamp) (
        member (codes "actor") (str actor) (
          member (codes "action") (str action) (
            member (codes "payload") (str payload_canonical) (
              member (codes "previous_hash") (str previous_hash) (
                if leb 2 format_version
                then member (codes "event_type") (str event_type) end
                else end))))))

-- `_compute_entry_hash`
unfoldable pub compute_entry_hash :
    Sha256 → ℕ → Text → Text → Text → Text → Text → Text → ℕ → Option Text
compute_entry_hash h entry_id timestamp actor action payload_canonical previous_hash event_type
      format_version =
    sha256_hex h (
      canonical_json (
        obj (
          entry_fields entry_id timestamp actor action payload_canonical previous_hash event_type
            format_version)))

-- `row["event_type"] if "event_type" in row.keys() else EVENT_TYPE_REQUEST`, and the version so.
abbrev pub event_type_of : EntryTable → EntryRow → Text
event_type_of t row = if t.has_event_type then row.event_type else event_type_request

abbrev pub format_version_of : EntryTable → EntryRow → ℕ
format_version_of t row = if t.has_format_version then row.format_version else 1

-- `_row_to_entry`
unfoldable pub row_to_entry : EntryTable → EntryRow → Result LedgerEntry
row_to_entry t row = Exec.◌>>=◌ (or_raise json_error (loads row.payload)) λ payload. ok (record {
  entry_id = row.entry_id;
  timestamp = row.timestamp;
  actor = row.actor;
  action = row.action;
  payload = payload;
  previous_hash = row.previous_hash;
  entry_hash = row.entry_hash;
  signature = row.signature;
  signing_key_id = row.signing_key_id;
  event_type = event_type_of t row;
  format_version = format_version_of t row;
})

-- The id and the previous hash that follow the tip of the chain.
abbrev pub next_id_of : Option EntryRow → ℕ
next_id_of none = 1
next_id_of (some tip) = tip.entry_id + 1

abbrev pub previous_hash_of : Option EntryRow → Text
previous_hash_of none = genesis_previous_hash
previous_hash_of (some tip) = tip.entry_hash

-- `payload or {}`
abbrev pub payload_or_empty : Option Members → Members
payload_or_empty none = end
payload_or_empty (some ms) = ms

abbrev pub hexed : Result Bytes → Result (Option Text)
hexed (err e) = err e
hexed (ok signature) = ok (some (hex signature))

abbrev signed_hex : Signer → Option Bytes → Result (Option Text)
signed_hex signer none = err unicode_error
signed_hex signer (some message) = hexed (signer.sign message)

-- `signer.sign(entry_hash.encode("utf-8")).hex()`, where there is a signer.
unfoldable pub sign_entry : Option Signer → Text → Result (Option Text)
sign_entry none entry_hash = ok none
sign_entry (some signer) entry_hash = signed_hex signer (utf8 entry_hash)

abbrev pub signing_key_of : Option Signer → Option Text
signing_key_of none = none
signing_key_of (some signer) = some signer.key_id

-- SQLite takes a text in UTF-8: a surrogate is a UnicodeEncodeError.
abbrev encodes : Option Bytes → Bool
encodes none = false
encodes (some bytes) = true

unfoldable pub is_storable : Text → Bool
is_storable text = encodes (utf8 text)

abbrev pub is_storable_or_null : Option Text → Bool
is_storable_or_null none = true
is_storable_or_null (some text) = is_storable text

-- The parameters of the INSERT that come from the caller. The others are ASCII, or were read from the
-- database.
unfoldable pub can_bind : Text → Text → Text → Option Text → Bool
unfolding is_storable
can_bind actor action event_type signing_key_id =
    is_storable actor
    && is_storable action
    && is_storable event_type
    && is_storable_or_null signing_key_id

-- `INSERT INTO entries` and the commit.
unfoldable pub insert_entry : EntryRow → Action Database (Unit {0})
unfolding can_bind
insert_entry row = do
  lift (
      raise_if (not (can_bind row.actor row.action row.event_type row.signing_key_id))
        unicode_error)
  t ← gets (λ db. db.entries)
  rows ← lift (or_raise integrity_error (insert_row (λ (r : EntryRow). r.entry_id) row t.rows))
  db ← gets (λ db. db)
  put (record db { entries = record t { rows = rows } })

-- `Ledger.log` under the lock; `now` is the clock's time.
unfoldable pub log :
    Sha256
    → DateTime
    → Text
    → Text
    → Option Members
    → Option Signer
    → Text
    → Action Database LedgerEntry
unfolding insert_entry sign_entry dumps
log h now actor action payload signer event_type = do
  let payload_dict = payload_or_empty payload
  tip ← gets (λ db. last? db.entries.rows)
  let next_id = next_id_of tip
  let previous_hash = previous_hash_of tip
  let timestamp = iso now
  payload_canonical ← lift (or_raise value_error (dumps (obj payload_dict)))
  entry_hash ← lift (
      or_raise unicode_error (
        compute_entry_hash h next_id timestamp actor action payload_canonical previous_hash
          event_type current_format_version))
  signature_hex ← lift (sign_entry signer entry_hash)
  let signing_key_id = signing_key_of signer
  insert_entry (record {
    entry_id = next_id;
    timestamp = timestamp;
    actor = actor;
    action = action;
    event_type = event_type;
    format_version = current_format_version;
    payload = payload_canonical;
    previous_hash = previous_hash;
    entry_hash = entry_hash;
    signature = signature_hex;
    signing_key_id = signing_key_id;
  })
  pure (record {
    entry_id = next_id;
    timestamp = timestamp;
    actor = actor;
    action = action;
    payload = obj payload_dict;
    previous_hash = previous_hash;
    entry_hash = entry_hash;
    signature = signature_hex;
    signing_key_id = signing_key_id;
    event_type = event_type;
    format_version = current_format_version;
  })
