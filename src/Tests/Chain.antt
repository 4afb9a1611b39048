-- ===== src/Tests/Chain.antt =====
-- Tests of `log`, `verify_chain` and `get_entry`, and the theorems on them at concrete inputs.
use nexuscone.Prelude.{
  ◌+◌, true, false, ap, ◌≡◌, ◌↔◌, refl, none, some, List, [], ◌∷◌, arith, All, length,
}
use nexuscone.Text.{Text, codes, text_eq, text_eq_refl, text_ltb}
use nexuscone.Text.Utf8.{utf8}
use nexuscone.Text.Decimal.{decimal}
use nexuscone.Json.{sort_keys, insert_member, obj}
use nexuscone.Json.Print.{print, print_string, print_int, escape, escape_char}
use nexuscone.Json.Order.{IsValid}
use nexuscone.Canonical.{canonical_json, ints_fit, digits_fit}
use nexuscone.Exec.{ok, err, previous_hash_mismatch}
use nexuscone.Store.{Database, genesis_previous_hash}
use nexuscone.Entries.{payload_or_empty, can_bind, is_storable}
use nexuscone.Entries.Query.{get_entry}
use nexuscone.Entries.Verify.{Verifier, verify_chain, check_rows, check_row}
use nexuscone.Entries.Chain.{IsChain, IsAuthentic}
use nexuscone.Entries.Verdict.{verify_chain_iff, verify_chain-err, StopsAt}
use nexuscone.Entries.Log.{
  Request, log_request, logged_row, logged_entry, with_entry, accepts, outcome, log_lem,
}
use nexuscone.Entries.Append.{
  log_all, accepted, IsWellFormed, log-IsWellFormed, log_all-IsWellFormed,
}
use nexuscone.Entries.Signed.{Knows, verify_chain-log_all}
use nexuscone.Entries.ReadBack.{get_entry-log, get_entry-log_other}
use nexuscone.Tests.Base.{toy, toy_signer, checksum, checksum-byte, login, approve, empty_db}

-- Accepts what `toy_signer` signs under its key.
abbrev pub toy_verifier : Verifier
toy_verifier = record { verify = λ key m s. some (text_eq s (checksum m ∷ [])) }

pub toy_verifier-Knows : Knows toy_verifier toy_signer
toy_verifier-Knows = record {
  signature = λ m. checksum m ∷ [];
  signs = λ m. refl;
  accepts = λ m. ap some (text_eq_refl (checksum m ∷ []));
  bytes = λ m. (checksum-byte m, tt);
}

pub empty_db-IsWellFormed : IsWellFormed toy empty_db
empty_db-IsWellFormed = record {
  event_types = refl;
  format_versions = refl;
  increasing = tt;
  chain = tt;
}

abbrev pub calls : List Request
calls = login ∷ approve ∷ login ∷ []

verify_chain-log_all_example :
    verify_chain toy (some toy_verifier) (log_all toy calls empty_db)
    ≡ (ok (length empty_db.entries.rows + accepted toy calls empty_db), log_all toy calls empty_db)
verify_chain-log_all_example =
    verify_chain-log_all toy (some toy_verifier) calls empty_db empty_db-IsWellFormed tt
      (tt, (toy_verifier-Knows, (tt, tt)))

abbrev pub three : Database
three = log_all toy calls empty_db

three-IsWellFormed : IsWellFormed toy three
three-IsWellFormed = log_all-IsWellFormed toy calls empty_db empty_db-IsWellFormed

-- The row of the first call, computed.
first_row_text : (logged_row toy login none).payload ≡ codes "{\"amount\":12,\"user\":\"ann\"}"
unfolding logged_row canonical_json sort_keys insert_member text_ltb print print_string print_int
    escape escape_char decimal
first_row_text = refl

verify_chain_iff_example : (verify_chain toy none three ≡ (ok 3, three)) ↔ (
    IsChain toy three.entries genesis_previous_hash three.entries.rows
    × All (IsAuthentic none) three.entries.rows
    × (3 ≡ length three.entries.rows))
verify_chain_iff_example = verify_chain_iff toy none three 3

log-IsWellFormed_example : IsWellFormed toy (log_request toy login three).1
log-IsWellFormed_example = log-IsWellFormed toy login three three-IsWellFormed

log_lem_example :
    let row = logged_row toy login none in
    log_request toy login empty_db
    ≡ outcome (accepts login row.entry_hash) login empty_db (logged_entry toy login none) row
log_lem_example = log_lem toy login empty_db tt

-- One row that does not begin at the genesis hash.
abbrev loose : Database
loose = with_entry empty_db (record (logged_row toy login none) { previous_hash = codes "ff" })

loose_fails :
    (verify_chain toy none loose).0
    ≡ err (previous_hash_mismatch 1 genesis_previous_hash (codes "ff"))
unfolding verify_chain check_rows check_row text_eq logged_row
loose_fails = refl

verify_chain-err_example :
    StopsAt toy none loose.entries genesis_previous_hash loose.entries.rows
      (previous_hash_mismatch 1 genesis_previous_hash (codes "ff"))
verify_chain-err_example =
    verify_chain-err toy none loose (previous_hash_mismatch 1 genesis_previous_hash (codes "ff"))
      loose_fails

pub payload-IsValid : IsValid (obj (payload_or_empty login.payload))
unfolding IsValid text_eq
payload-IsValid = ground arith

login-accepted : (entry_hash : Text) → accepts login entry_hash ≡ true
unfolding accepts ints_fit digits_fit decimal can_bind is_storable utf8
login-accepted entry_hash = refl

-- A lone surrogate in the actor's name is refused.
surrogate-refused :
    (entry_hash : Text) → accepts (record login { actor = 0xd800 ∷ [] }) entry_hash ≡ false
unfolding accepts ints_fit digits_fit decimal can_bind is_storable utf8
surrogate-refused entry_hash = refl

approve-accepted : (entry_hash : Text) → accepts approve entry_hash ≡ true
unfolding accepts ints_fit can_bind is_storable utf8
approve-accepted entry_hash = refl

pub calls-accepted : accepted toy calls empty_db ≡ 3
unfolding accepted
calls-accepted = rw (login-accepted, approve-accepted, login-accepted) refl

get_entry-log_example :
    let (r, db') = log_request toy login empty_db in
    let entry = logged_entry toy login none in
    (r ≡ ok entry)
    × (get_entry entry.entry_id db'
        ≡ (ok (record entry { payload = sort_keys entry.payload }), db'))
get_entry-log_example =
    get_entry-log toy login empty_db empty_db-IsWellFormed (login-accepted _) payload-IsValid

get_entry-log_other_example :
    (get_entry 7 (log_request toy login empty_db).1).0 ≡ (get_entry 7 empty_db).0
get_entry-log_other_example =
    get_entry-log_other toy login empty_db 7 empty_db-IsWellFormed (omega arith)
