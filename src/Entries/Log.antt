-- ===== src/Entries/Log.antt =====
-- What `log` does to a table whose ids increase.
use nexuscone.Prelude.{
  ℕ, ◌<◌, ◌≡◌, refl, ◌∙◌, ◌⊎◌, inl, inr, Bool, true, false, ◌&&◌, if◌then◌else◌, Bool-cases, Option,
  none, some, List, [], ◌∷◌, ◌++◌, arith, last?,
}
use nexuscone.Text.{Text, Bytes}
use nexuscone.Text.Hex.{hex, hex-ascii}
use nexuscone.Text.Utf8.{utf8_ascii}
use nexuscone.Json.{obj, Members}
use nexuscone.Canonical.{Sha256, canonical_json, ints_fit, dumps}
use nexuscone.Time.{DateTime, iso}
use nexuscone.Exec.{Result, ok, err, Error, unicode_error, value_error}
use nexuscone.Store.{EntryRow, Database, current_format_version}
use nexuscone.Store.Ordered.{IsIncreasing, insert_row-last}
use nexuscone.Entries.{
  LedgerEntry, Signer, log, sign_entry, signing_key_of, insert_entry, next_id_of, previous_hash_of,
  payload_or_empty, entry_fields, hexed, can_bind,
}
use nexuscone.Entries.Chain.{compute_entry_hash-total}

-- The arguments of one call of `log`, with the clock's time.
pub record Request : Type 0 where
  pub now : DateTime
  pub actor : Text
  pub action : Text
  pub payload : Option Members
  pub signer : Option Signer
  pub event_type : Text

abbrev pub log_request : Sha256 → Request → Database → Result LedgerEntry × Database
log_request h q = log h q.now q.actor q.action q.payload q.signer q.event_type

-- The signature in hexadecimal, where there is one.
abbrev pub hex_if : Result Bytes → Option Text
hex_if (err e) = none
hex_if (ok signature) = some (hex signature)

abbrev returns : Result Bytes → Bool
returns (err e) = false
returns (ok signature) = true

-- The error that comes first: the signer's, or else that of SQLite.
abbrev error_of : Result Bytes → Error
error_of (err e) = e
error_of (ok signature) = unicode_error

abbrev pub signature_of : Option Signer → Text → Option Text
signature_of none entry_hash = none
signature_of (some s) entry_hash = hex_if (s.sign entry_hash)

abbrev signs : Option Signer → Text → Bool
signs none entry_hash = true
signs (some s) entry_hash = returns (s.sign entry_hash)

abbrev signing_error : Option Signer → Text → Error
signing_error none entry_hash = unicode_error
signing_error (some s) entry_hash = error_of (s.sign entry_hash)

-- The row that a request adds behind the tip.
unfoldable pub logged_row : Sha256 → Request → Option EntryRow → EntryRow
logged_row h q tip =
    let id = next_id_of tip in
    let previous = previous_hash_of tip in
    let payload = canonical_json (obj (payload_or_empty q.payload)) in
    let entry_hash = hex (
      h.digest (
        canonical_json (
          obj (
            entry_fields id (iso q.now) q.actor q.action payload previous q.event_type
              current_format_version)))) in
    record {
      entry_id = id;
      timestamp = iso q.now;
      actor = q.actor;
      action = q.action;
      event_type = q.event_type;
      format_version = current_format_version;
      payload = payload;
      previous_hash = previous;
      entry_hash = entry_hash;
      signature = signature_of q.signer entry_hash;
      signing_key_id = signing_key_of q.signer;
    }

-- What the call returns: the row, with the payload as it was given.
unfoldable pub logged_entry : Sha256 → Request → Option EntryRow → LedgerEntry
unfolding logged_row
logged_entry h q tip =
    let row = logged_row h q tip in
    record {
      entry_id = row.entry_id;
      timestamp = row.timestamp;
      actor = row.actor;
      action = row.action;
      payload = obj (payload_or_empty q.payload);
      previous_hash = row.previous_hash;
      entry_hash = row.entry_hash;
      signature = row.signature;
      signing_key_id = row.signing_key_id;
      event_type = row.event_type;
      format_version = row.format_version;
    }

-- A database with one more entry.
abbrev pub with_entry : Database → EntryRow → Database
with_entry db row = record db { entries = record db.entries { rows = db.entries.rows ++ row ∷ [] } }

-- `json.dumps`, the signer of the entry hash and SQLite take what the caller gave: no int is too long
-- for its digits, the signer returns, and the texts have no surrogates.
unfoldable pub accepts : Request → Text → Bool
unfolding ints_fit can_bind
accepts q entry_hash =
    ints_fit (obj (payload_or_empty q.payload))
    && signs q.signer entry_hash
    && can_bind q.actor q.action q.event_type (signing_key_of q.signer)

-- What `log` raises where they do not.
unfoldable pub refusal : Request → Text → Error
unfolding ints_fit
refusal q entry_hash =
    if ints_fit (obj (payload_or_empty q.payload))
    then signing_error q.signer entry_hash
    else value_error

hexed-signed :
    (r : Result Bytes) → hexed r ≡ (if returns r then ok (hex_if r) else err (error_of r))
hexed-signed (err e) = refl
hexed-signed (ok s) = refl

error_of-returns : (r : Result Bytes) → returns r ≡ true → error_of r ≡ unicode_error
error_of-returns (err e) h = cc
error_of-returns (ok s) h = refl

signing_error-signs :
    (signer : Option Signer) (entry_hash : Text)
    → signs signer entry_hash ≡ true
    → signing_error signer entry_hash ≡ unicode_error
signing_error-signs none entry_hash h = refl
signing_error-signs (some s) entry_hash h = error_of-returns (s.sign entry_hash) h

sign_entry-lem :
    (signer : Option Signer) (h : Sha256) (m : Bytes)
    → let entry_hash = hex (h.digest m) in
      sign_entry signer entry_hash ≡ (
        if signs signer entry_hash
        then ok (signature_of signer entry_hash)
        else err (signing_error signer entry_hash))
unfolding sign_entry
sign_entry-lem none h m = refl
sign_entry-lem (some s) h m =
    rw (utf8_ascii (hex (h.digest m)) (hex-ascii (h.digest m) (h.digest_bytes m)))
      (hexed-signed (s.sign (hex (h.digest m))))

abbrev pub outcome :
    Bool → Request → Database → LedgerEntry → EntryRow → Result LedgerEntry × Database
outcome true q db entry row = (ok entry, with_entry db row)
outcome false q db entry row = (err (refusal q row.entry_hash), db)

abbrev pub entry_key : EntryRow → ℕ
entry_key r = r.entry_id

-- The next id is above that of the tip.
next_id-above :
    (rows : List EntryRow) (l : EntryRow)
    → last? rows ≡ some l
    → l.entry_id < next_id_of (last? rows)
next_id-above rows l e = rw e (omega arith)

-- On increasing ids, where no int of the payload has more than 4300 digits, the signer, if there is
-- one, returns a signature of the entry hash, and the actor, the action, the event type and the key
-- id have no surrogates, `log` returns the described entry, adds its row behind the tip, linked to
-- the tip's hash, and changes nothing else. Otherwise it raises and changes nothing: a ValueError
-- for the int, then the signer's error, then a UnicodeEncodeError for the surrogate.
pub log_lem :
    (h : Sha256) (q : Request) (db : Database)
    → IsIncreasing entry_key db.entries.rows
    → let tip = last? db.entries.rows in
      let row = logged_row h q tip in
      log_request h q db ≡ outcome (accepts q row.entry_hash) q db (logged_entry h q tip) row
unfolding log logged_entry insert_entry accepts refusal dumps
log_lem h q db s =
    let rows = db.entries.rows in
    let row = logged_row h q (last? rows) in
    let inserted = (insert_row-last entry_key row rows s (next_id-above rows)).0 in
    let keys = signing_key_of q.signer in
    elim (Bool-cases (ints_fit (obj (payload_or_empty q.payload)))) [
      | inr long ↦ rw (long, long) refl
      | inl short ↦ elim (Bool-cases (signs q.signer row.entry_hash)) [
        | inr raises ↦ rw (short, compute_entry_hash-total, sign_entry-lem, raises) rw short refl
        | inl signed ↦
            let last_error = signing_error-signs q.signer row.entry_hash signed in
            elim (Bool-cases (can_bind q.actor q.action q.event_type keys)) [
              | inl plain ↦
                  rw (short, compute_entry_hash-total, sign_entry-lem, signed, plain, inserted) refl
              | inr bad ↦
                  rw (short, compute_entry_hash-total, sign_entry-lem, signed, bad) rw
                    (short, last_error) refl
            ]
      ]
    ]

-- A call is refused and changes nothing, or is accepted and adds its row.
pub log_cases :
    (h : Sha256) (q : Request) (db : Database)
    → IsIncreasing entry_key db.entries.rows
    → let tip = last? db.entries.rows in
      let entry_hash = (logged_row h q tip).entry_hash in
      ((accepts q entry_hash ≡ false) × (log_request h q db ≡ (err (refusal q entry_hash), db)))
      ⊎ ((accepts q entry_hash ≡ true)
          × (log_request h q db ≡ (ok (logged_entry h q tip), with_entry db (logged_row h q tip))))
log_cases h q db s =
    elim (Bool-cases (accepts q (logged_row h q (last? db.entries.rows)).entry_hash)) [
      | inl taken ↦ inr (taken, log_lem h q db s ∙ rw taken refl)
      | inr refused ↦ inl (refused, log_lem h q db s ∙ rw refused refl)
    ]

pub accepted_lem :
    (h : Sha256) (q : Request) (db : Database)
    → IsIncreasing entry_key db.entries.rows
    → accepts q (logged_row h q (last? db.entries.rows)).entry_hash ≡ true
    → let tip = last? db.entries.rows in
      log_request h q db ≡ (ok (logged_entry h q tip), with_entry db (logged_row h q tip))
accepted_lem h q db s taken = log_lem h q db s ∙ rw taken refl

-- The ids still increase.
pub log-IsIncreasing :
    (h : Sha256) (q : Request) (db : Database)
    → IsIncreasing entry_key db.entries.rows
    → IsIncreasing entry_key (log_request h q db).1.entries.rows
unfolding logged_row
log-IsIncreasing h q db s =
    let rows = db.entries.rows in
    elim (log_cases h q db s) [
      | inl (_, same) ↦ rw same s
      | inr (_, same) ↦
          rw same
            (insert_row-last entry_key (logged_row h q (last? rows)) rows s (next_id-above rows)).1
    ]
