-- ===== src/Tests/Reading.antt =====
-- The theorems on reading the log and on Ed25519 keys at concrete inputs.
use nexuscone.Prelude.{
  ℕ, ◌+◌, ◌≡◌, refl, ap, ◌∙◌, ◌<◌, true, false, Bool, none, some, Option, List, [], ◌∷◌, All,
  length, arith, ◌==◌, last?,
}
use nexuscone.Prelude.Int.{pos}
use nexuscone.Text.{Text, Bytes, codes, text_eq, text_eq_refl}
use nexuscone.Text.Hex.{hex, hex_digit, from_hex, hex_value}
use nexuscone.Text.Utf8.{utf8}
use nexuscone.Exec.{Result, ok, map_result, or_raise, entry_not_found}
use nexuscone.Store.{EntryRow, Database}
use nexuscone.Store.Query.{first_row}
use nexuscone.Json.{obj}
use nexuscone.Json.Order.{IsValid}
use nexuscone.Entries.{LedgerEntry, payload_or_empty, is_storable}
use nexuscone.Entries.Log.{Request}
use nexuscone.Entries.Query.{EntryFilter, can_ask, get_entries, count, get_latest_entry, get_entry}
use nexuscone.Entries.Verify.{verify_chain}
use nexuscone.Entries.Signed.{Knows, verify_chain-log_all}
use nexuscone.Entries.Spec.{append_all, Refines, Log, ask}
use nexuscone.Entries.Refinement.{log_all-Refines, reads-Refines}
use nexuscone.Entries.Bounds.{IsHash, verify_chain-IsHash}
use nexuscone.Signing.{
  Ed25519, Ed25519Signer, public_key_hex, as_signer, read_key, read_keys, as_verifier,
}
use nexuscone.Signing.Laws.{mapping_get, as_verifier-Knows}
use nexuscone.Tests.Base.{toy, checksum, checksum-byte, approve, empty_db}
use nexuscone.Tests.Chain.{
  calls, calls-accepted, three, payload-IsValid, empty_db-IsWellFormed, toy_verifier,
  toy_verifier-Knows,
}

empty_db-Refines : Refines toy empty_db []
unfolding map_result
empty_db-Refines = record { well_formed = empty_db-IsWellFormed; view = refl }

approve-IsValid : IsValid (obj (payload_or_empty approve.payload))
unfolding IsValid
approve-IsValid = tt

calls-IsValid : All (λ (q : Request). IsValid (obj (payload_or_empty q.payload))) calls
calls-IsValid = (payload-IsValid, (approve-IsValid, (payload-IsValid, tt)))

log_all-Refines_example : Refines toy three (append_all toy calls [])
log_all-Refines_example = log_all-Refines toy calls empty_db [] empty_db-Refines calls-IsValid

abbrev kept : Log
kept = append_all toy calls []

three-Refines : Refines toy three kept
three-Refines = log_all-Refines toy calls empty_db [] empty_db-Refines calls-IsValid

-- The last entry that "api" made.
abbrev by_api : EntryFilter
by_api = record {
  actor = some (codes "api");
  action = none;
  event_type = none;
  start = none;
  finish = none;
}

by_api-plain : can_ask by_api ≡ true
unfolding can_ask is_storable utf8
by_api-plain = refl

reads-Refines_example :
    (get_entries by_api (pos 1) true three ≡ (ok (ask by_api (pos 1) true kept), three))
    × (count three ≡ (ok (length kept), three))
    × (get_latest_entry three ≡ (ok (last? kept), three))
    × (get_entry 2 three ≡ (
      or_raise (entry_not_found 2) (first_row (λ (e : LedgerEntry). e.entry_id == 2) kept),
      three,
    ))
reads-Refines_example =
    reads-Refines toy three kept by_api (pos 1) true 2 three-Refines by_api-plain

three_verifies : (verify_chain toy (some toy_verifier) three).0 ≡ ok 3
three_verifies =
    let passes =
      verify_chain-log_all toy (some toy_verifier) calls empty_db empty_db-IsWellFormed tt
        (tt, (toy_verifier-Knows, (tt, tt))) in
    ap (λ (r : Result ℕ × Database). r.0) passes
    ∙ ap (λ (n : ℕ). ok (length empty_db.entries.rows + n)) calls-accepted

verify_chain-IsHash_example :
    All (λ (r : EntryRow). IsHash r.previous_hash × IsHash r.entry_hash) three.entries.rows
verify_chain-IsHash_example = verify_chain-IsHash toy (some toy_verifier) three 3 three_verifies

-- Two keys in place of those of Ed25519.
abbrev key_bytes : Bool → Bytes
key_bytes false = 0 ∷ []
key_bytes true = 1 ∷ []

abbrev key_of : Bytes → Option Bool
key_of [] = none
key_of (b ∷ bs) = some (b == 1)

abbrev toy_sign : Bool → Bytes → Bytes
toy_sign k m = checksum m ∷ key_bytes k

key_bytes-bytes : (k : Bool) → All (λ b. b < 256) (key_bytes k)
key_bytes-bytes false = (omega arith, tt)
key_bytes-bytes true = (omega arith, tt)

key_of-key_bytes : (k : Bool) → key_of (key_bytes k) ≡ some k
key_of-key_bytes false = refl
key_of-key_bytes true = refl

abbrev two_keys : Ed25519
two_keys = record {
  PrivateKey = Bool;
  PublicKey = Bool;
  from_private_bytes = key_of;
  public_key = λ k. k;
  public_bytes = key_bytes;
  from_public_bytes = key_of;
  sign = toy_sign;
  verify = λ k s m. text_eq s (toy_sign k m);
  public_bytes_read = key_of-key_bytes;
  public_bytes_bytes = key_bytes-bytes;
  sign_bytes = λ k m. (checksum-byte m, key_bytes-bytes k);
  verify_sign = λ k m. text_eq_refl (toy_sign k m);
}

abbrev judge : Ed25519Signer two_keys
judge = record { key_id = codes "judge"; private_key = true }

abbrev mapping : List (Text × Text)
mapping = (codes "api", codes "00") ∷ (codes "judge", codes "01") ∷ []

mapping_reads : read_keys two_keys mapping ≡ ok ((codes "api", false) ∷ (codes "judge", true) ∷ [])
unfolding read_keys read_key from_hex hex_value
mapping_reads = refl

judge_listed : mapping_get mapping (codes "judge") ≡ some (public_key_hex two_keys judge)
unfolding mapping_get text_eq public_key_hex hex hex_digit
judge_listed = refl

as_verifier-Knows_example :
    Knows
      (as_verifier two_keys ((codes "api", false) ∷ (codes "judge", true) ∷ []))
      (as_signer two_keys judge)
as_verifier-Knows_example =
    as_verifier-Knows two_keys judge mapping ((codes "api", false) ∷ (codes "judge", true) ∷ [])
      mapping_reads judge_listed
