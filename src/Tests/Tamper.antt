-- ===== src/Tests/Tamper.antt =====
-- Tests of tamper evidence and its limits, of migration, of canonical JSON and of timestamps.
use nexuscone.Prelude.{◌≡◌, ◌⊎◌, refl, true, false, none, some, [], ◌∷◌, arith, All}
use nexuscone.Prelude.Int.{negsuc}
use nexuscone.Text.{Text, codes, text_eq, text_ltb}
use nexuscone.Text.Decimal.{decimal}
use nexuscone.Text.Hex.{hex}
use nexuscone.Json.{
  Value, null, boolean, int, str, arr, obj, nil, cons, end, member, sort_keys, insert_member,
}
use nexuscone.Json.Print.{print, print_string, print_int, escape, escape_char}
use nexuscone.Json.Parse.{loads}
use nexuscone.Json.Order.{IsValid}
use nexuscone.Canonical.{canonical_json}
use nexuscone.Canonical.Laws.{loads-canonical_json, canonical_json-injective}
use nexuscone.Time.{iso, from_iso, in_range, days_in_month}
use nexuscone.Time.RoundTrip.{from_iso-iso, IsReadable}
use nexuscone.Exec.{ok}
use nexuscone.Store.{EntryRow, EntryTable, Database, File, Ledger, open_on, genesis_previous_hash}
use nexuscone.Entries.{entry_fields}
use nexuscone.Entries.Verify.{verify_chain}
use nexuscone.Entries.Chain.{IsChain, head_hash, hash_of}
use nexuscone.Entries.Verdict.{verify_chain_iff}
use nexuscone.Entries.Log.{logged_row, with_entry}
use nexuscone.Entries.Append.{IsWellFormed}
use nexuscone.Entries.Tamper.{IsStorable, SameChain, HasCollision, tamper_evidence}
use nexuscone.Entries.Unseen.{forged, truncated, verify_chain-forged, verify_chain-truncated}
use nexuscone.Ledger.{open_file, init, close}
use nexuscone.Ledger.Migration.{open_file-IsWellFormed, init-close, IsSound, SameColumns}
use nexuscone.Tests.Base.{toy, approve, empty_db, noon}

abbrev row : EntryRow
row = logged_row toy approve none

abbrev one : Database
one = with_entry empty_db row

abbrev stripped : Database
stripped = forged 3 one

one-IsChain : IsChain toy one.entries genesis_previous_hash one.entries.rows
unfolding logged_row hash_of
one-IsChain = (refl, refl, tt)

stripped-IsChain : IsChain toy stripped.entries genesis_previous_hash stripped.entries.rows
unfolding logged_row hash_of entry_fields
stripped-IsChain = (refl, refl, tt)

one-IsStorable : All (IsStorable one.entries) one.entries.rows
unfolding logged_row iso canonical_json sort_keys print print_string escape
one-IsStorable = ground arith

stripped-IsStorable : All (IsStorable stripped.entries) stripped.entries.rows
unfolding logged_row iso canonical_json sort_keys print print_string escape
stripped-IsStorable = ground arith

tamper_evidence_example :
    SameChain one.entries stripped.entries one.entries.rows stripped.entries.rows
    ⊎ HasCollision toy one.entries stripped.entries one.entries.rows stripped.entries.rows
tamper_evidence_example =
    tamper_evidence toy one.entries stripped.entries refl one-IsChain stripped-IsChain
      one-IsStorable stripped-IsStorable refl

one-verified : verify_chain toy none one ≡ (ok 1, one)
one-verified =
    (verify_chain_iff toy none one 1).1
      (one-IsChain, ((unfold nexuscone.Entries.Chain.IsAuthentic in tt), tt), refl)

verify_chain-forged_example : verify_chain toy none stripped ≡ (ok 1, stripped)
unfolding logged_row
verify_chain-forged_example =
    verify_chain-forged toy none none one 1 3 refl (omega arith) (omega arith) one-verified

verify_chain-truncated_example : verify_chain toy none (truncated 0 one) ≡ (ok 0, truncated 0 one)
verify_chain-truncated_example = verify_chain-truncated toy none one 1 0 (omega arith) one-verified

-- A file of v0.1.0 with one row, hashed without its event type.
abbrev legacy_columns : EntryTable
legacy_columns = record { has_event_type = false; has_format_version = false; rows = [] }

abbrev legacy_row : EntryRow
legacy_row =
    let r : EntryRow = record row { signature = none; signing_key_id = none } in
    record r { entry_hash = hash_of toy legacy_columns r }

abbrev legacy : File
legacy = record {
  entries = some (record legacy_columns { rows = legacy_row ∷ [] });
  anchors = none;
  witnesses = none;
  attestations = none;
}

legacy-IsSound : IsSound toy (record legacy_columns { rows = legacy_row ∷ [] })
unfolding logged_row hash_of
legacy-IsSound = record { increasing = tt; chain = (refl, refl, tt) }

open_file-IsWellFormed_example : IsWellFormed toy (open_file legacy)
open_file-IsWellFormed_example = open_file-IsWellFormed toy legacy legacy-IsSound

abbrev migrated : Ledger
migrated = record { connection = open_on one; anchor_schedule = none }

one-SameColumns : SameColumns (open_file legacy) one
unfolding open_file
one-SameColumns = record {
  event_type = refl;
  format_version = refl;
  tst_blob = refl;
  tsa_url = refl;
  tsa_gen_time = refl;
}

init-close_example : init (close migrated) ≡ migrated
init-close_example = init-close legacy one none one-SameColumns

abbrev sample : Value
sample = obj (
    member (codes "b") (arr (cons null (cons (int (negsuc 6)) (cons (boolean true) nil))))
      (member (codes "a\"") (str (0xe9 ∷ 10 ∷ 0x1f600 ∷ [])) end))

sample_text :
    canonical_json sample ≡ codes "{\"a\\\"\":\"\\u00e9\\n\\ud83d\\ude00\",\"b\":[null,-7,true]}"
unfolding canonical_json sort_keys insert_member text_ltb print print_string print_int escape
    escape_char decimal nexuscone.Json.Print.u_escape nexuscone.Text.Hex.hex_digit
sample_text = refl

sample-IsValid : IsValid sample
unfolding IsValid text_eq
sample-IsValid = ground arith

loads-canonical_json_example : loads (canonical_json sample) ≡ some (sort_keys sample)
loads-canonical_json_example = loads-canonical_json sample sample-IsValid

abbrev reordered : Value
reordered = obj (
    member (codes "a\"") (str (0xe9 ∷ 10 ∷ 0x1f600 ∷ []))
      (member (codes "b") (arr (cons null (cons (int (negsuc 6)) (cons (boolean true) nil)))) end))

reordered-IsValid : IsValid reordered
unfolding IsValid text_eq
reordered-IsValid = ground arith

same_text : canonical_json sample ≡ canonical_json reordered
unfolding canonical_json sort_keys insert_member text_ltb
same_text = refl

canonical_json-injective_example : sort_keys sample ≡ sort_keys reordered
canonical_json-injective_example =
    canonical_json-injective sample reordered sample-IsValid reordered-IsValid same_text

noon-IsReadable : IsReadable noon
unfolding in_range days_in_month nexuscone.Time.is_leap
noon-IsReadable = (refl, omega arith)

from_iso-iso_example : from_iso (iso noon) ≡ some noon
from_iso-iso_example = from_iso-iso noon noon-IsReadable
