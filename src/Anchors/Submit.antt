-- ===== src/Anchors/Submit.antt =====
-- chain.py, `Ledger.anchor`: submitting the chain head to the calendars and to a Time-Stamp Authority.
use nexuscone.Prelude.{
  ℕ, ◌+◌, Bool, not, ◌&&◌, ◌||◌, Option, none, some, List, [], ◌∷◌, ◌++◌, ◌==◌, map, if◌then◌else◌,
}
use nexuscone.Text.{Text, Bytes, codes}
use nexuscone.Text.Hex.{from_hex}
use nexuscone.Time.{DateTime, iso}
use nexuscone.Json.{str}
use nexuscone.Json.Print.{print_string}
use nexuscone.Schedule.{AnchorSchedule}
use nexuscone.Rfc3161.{Tsa, TsaResponse, submit_tsa_track}
use nexuscone.Exec.{
  Error, Result, ok, err, hex_error, json_error, type_error, date_error, integrity_error,
  timestamp_error, cannot_anchor, both_tracks_failed, calendars_failed, anchor_not_found, or_raise,
  raise_if, map_result,
}
use nexuscone.Exec as Exec
use nexuscone.Exec.Action.{Action, pure, lift, gets, put, ◌>>=◌, ◌>>◌}
use nexuscone.Store.{EntryRow, AnchorRow, Database, Ledger}
use nexuscone.Store.Query.{first_row, next_rowid}
use nexuscone.Entries.{LedgerEntry}
use nexuscone.Entries.Query.{get_latest_entry}
use nexuscone.Ledger.{method}
use nexuscone.Ots.{Timestamp, Ots}
use nexuscone.Anchors.{AnchorRecord, is_null}

-- `json.dumps` of a list of texts, with its default separators.
abbrev pub dumps_more : List Text → Text
dumps_more [] = b']' ∷ []
dumps_more (s ∷ ss) = b',' ∷ b' ' ∷ print_string s ++ dumps_more ss

unfoldable pub dumps_texts : List Text → Text
dumps_texts [] = codes "[]"
dumps_texts (s ∷ ss) = b'[' ∷ print_string s ++ dumps_more ss

-- What `_submit_ots_track` returns: who accepted, the merged proof, and who raised.
pub record OtsResult : Type 0 where
  pub successful : List Text
  pub proof : Option Bytes
  pub errors : List Text

module _ (ots : Ots) where
  -- The end of `_submit_ots_track`.
  unfoldable pub serialize_merged : Timestamp → List Text → List Text → Result OtsResult
  serialize_merged merged [] errors = ok (record { successful = []; proof = none; errors = errors })
  serialize_merged merged (url ∷ urls) errors =
      Exec.◌>>=◌ (or_raise timestamp_error (ots.serialize merged))
        λ proof. ok (record { successful = url ∷ urls; proof = some proof; errors = errors })

  -- The loop of `_submit_ots_track`. Only the submission stands in the `try`.
  unfoldable pub submit_ots :
      ℕ → Bytes → Timestamp → List Text → List Text → List Text → Result OtsResult
  unfolding serialize_merged
  submit_ots n digest merged successful errors [] = serialize_merged merged successful errors
  submit_ots n digest merged successful errors (url ∷ urls) = elim (ots.submit n url digest) [
    | none ↦ submit_ots (n + 1) digest merged successful (errors ++ url ∷ []) urls
    | some partial ↦ elim (ots.merge merged partial) [
      | none ↦ err timestamp_error
      | some both ↦ submit_ots (n + 1) digest both (successful ++ url ∷ []) errors urls
    ]
  ]

  -- `Ledger._submit_ots_track`
  unfoldable pub submit_ots_track : Bytes → List Text → Result OtsResult
  unfolding submit_ots
  submit_ots_track digest calendar_servers =
      submit_ots 0 digest (ots.timestamp digest) [] [] calendar_servers

abbrev pub map_option : {A B : Type 0} → (A → B) → Option A → Option B
map_option f none = none
map_option f (some a) = some (f a)

abbrev pub anchor_key : AnchorRow → ℕ
anchor_key r = r.anchor_id

abbrev pub has_entry : Database → ℕ → Bool
has_entry db entry_id =
    not (is_null (first_row (λ (r : EntryRow). r.entry_id == entry_id) db.entries.rows))

-- The foreign key, and the NOT NULL that the proof has in tables older than the TSA columns.
abbrev pub violates : Database → ℕ → Option Bytes → Bool
violates db entry_id proof =
    not (has_entry db entry_id) || db.anchors.ots_proof_required && is_null proof

-- `_insert_anchor_locked`; `now` is the clock's time.
unfoldable pub insert_anchor :
    DateTime → LedgerEntry → OtsResult → Option TsaResponse → Action Database AnchorRecord
unfolding dumps_texts
insert_anchor now latest_entry proofs tsa_response = do
  db ← gets (λ db. db)
  let t = db.anchors
  let anchor_id = next_rowid anchor_key t.sequence t.rows
  let row : AnchorRow = record {
    anchor_id = anchor_id;
    chain_head_hash = latest_entry.entry_hash;
    chain_head_entry_id = latest_entry.entry_id;
    ots_proof_blob = proofs.proof;
    submitted_at = iso now;
    calendar_servers = dumps_texts proofs.successful;
    confirmed_at = none;
    bitcoin_block_height = none;
    bitcoin_block_hash = none;
    tst_blob = map_option (λ (r : TsaResponse). r.tst_blob) tsa_response;
    tsa_url = map_option (λ (r : TsaResponse). r.tsa_url) tsa_response;
    tsa_gen_time = map_option (λ (r : TsaResponse). iso r.gen_time) tsa_response;
  }
  lift (raise_if (violates db latest_entry.entry_id proofs.proof) integrity_error)
  put (record db { anchors = record t { sequence = anchor_id; rows = t.rows ++ row ∷ [] } })
  pure (record {
    anchor_id = anchor_id;
    chain_head_hash = latest_entry.entry_hash;
    chain_head_entry_id = latest_entry.entry_id;
    submitted_at = now;
    calendar_servers = map str proofs.successful;
    ots_proof_blob = proofs.proof;
    confirmed_at = none;
    bitcoin_block_height = none;
    bitcoin_block_hash = none;
    tst_blob = map_option (λ (r : TsaResponse). r.tst_blob) tsa_response;
    tsa_url = map_option (λ (r : TsaResponse). r.tsa_url) tsa_response;
    tsa_gen_time = map_option (λ (r : TsaResponse). r.gen_time) tsa_response;
  })

-- `if not successful_calendars and tsa_response is None`, with the errors of both tracks.
abbrev pub require_one : OtsResult → Option TsaResponse × Option Error → Result (Unit {0})
require_one proofs (some response, tsa_error) = ok tt
require_one proofs (none, tsa_error) = elim proofs.successful [
  | url ∷ urls ↦ ok tt
  | [] ↦ elim tsa_error [
    | none ↦ err (calendars_failed proofs.errors)
    | some e ↦ err (both_tracks_failed proofs.errors e)
  ]
]

-- The part of `Ledger.anchor` that submits the head.
unfoldable pub anchor_head :
    Ots → Tsa → DateTime → AnchorSchedule → LedgerEntry → Action Database AnchorRecord
unfolding submit_ots_track submit_tsa_track insert_anchor
anchor_head ots tsa now schedule latest_entry = do
  digest ← lift (or_raise hex_error (from_hex latest_entry.entry_hash))
  proofs ← lift (submit_ots_track ots digest schedule.calendar_servers)
  (tsa_response, tsa_error) ← lift (submit_tsa_track tsa 0 digest none schedule.tsa_urls)
  lift (require_one proofs (tsa_response, tsa_error))
  insert_anchor now latest_entry proofs tsa_response

abbrev pub anchor_if_any :
    Ots
    → Tsa
    → DateTime
    → AnchorSchedule
    → Option LedgerEntry
    → Action Database (Option AnchorRecord)
anchor_if_any ots tsa now schedule none = pure none
anchor_if_any ots tsa now schedule (some latest) = do
  anchored ← anchor_head ots tsa now schedule latest
  pure (some anchored)

-- `Ledger.anchor` under the lock.
unfoldable pub anchor_locked :
    Ots → Tsa → DateTime → AnchorSchedule → Action Database (Option AnchorRecord)
unfolding anchor_head
anchor_locked ots tsa now schedule = do
  latest_entry ← get_latest_entry
  anchor_if_any ots tsa now schedule latest_entry

-- `schedule or self._anchor_schedule`
abbrev pub effective : Option AnchorSchedule → Ledger → Option AnchorSchedule
effective none l = l.anchor_schedule
effective (some s) l = some s

abbrev pub anchor_with :
    Ots → Tsa → DateTime → Option AnchorSchedule → Ledger → Result (Option AnchorRecord) × Ledger
anchor_with ots tsa now none l = (err cannot_anchor, l)
anchor_with ots tsa now (some schedule) l =
    if schedule.enabled
    then method (anchor_locked ots tsa now schedule) l
    else (err cannot_anchor, l)

-- `Ledger.anchor`
unfoldable pub anchor :
    Ots → Tsa → DateTime → Option AnchorSchedule → Ledger → Result (Option AnchorRecord) × Ledger
unfolding anchor_locked method
anchor ots tsa now schedule l = anchor_with ots tsa now (effective schedule l) l
