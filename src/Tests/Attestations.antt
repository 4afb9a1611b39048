-- ===== src/Tests/Attestations.antt =====
-- The theorems on witnesses and on the schedule at concrete inputs.
use nexuscone.Prelude.{arith, ℕ, ◌≡◌, refl, ap, ◌↔◌, ◌⊎◌, true, none, some, List, [], ◌∷◌, length}
use nexuscone.Prelude.Int.{pos, ◌≤ℤ◌}
use nexuscone.Text.{text_eq, text_eq_refl, codes}
use nexuscone.Time.{iso, in_range, days_in_month, is_leap}
use nexuscone.Time.RoundTrip.{from_iso-iso, IsReadable}
use nexuscone.Json.{obj, end, sort_keys}
use nexuscone.Json.Order.{IsValid}
use nexuscone.Canonical.Laws.{loads-canonical_json}
use nexuscone.Exec.{ok, map_result}
use nexuscone.Schedule.{AnchorSchedule, default_schedule, should_anchor}
use nexuscone.Schedule.Rule.{IsDue, should_anchor_iff}
use nexuscone.Store.{WitnessRow, Database, genesis_previous_hash}
use nexuscone.Store.Query.{first_row}
use nexuscone.Entries.Verify.{Verifier}
use nexuscone.Entries.Log.{with_entry, logged_row}
use nexuscone.Entries.Signed.{Knows}
use nexuscone.Witnesses.{Witness, row_to_witness, retire_witness}
use nexuscone.Witnesses.Attest.{attest_with_witness}
use nexuscone.Witnesses.Verify.{verify_witness_attestations, sort_by_witness, check_attestations}
use nexuscone.Witnesses.Sorted.{signed_by}
use nexuscone.Witnesses.Chain.{IsSubChain}
use nexuscone.Witnesses.Verdict.{verify_witness_attestations_iff}
use nexuscone.Witnesses.Signing.{
  CanAttest, signed_digest, attested_row, attestation_at, with_attestation,
}
use nexuscone.Witnesses.Growth.{verify-attest}
use nexuscone.Witnesses.Refusal.{attest_with_witness-refused}
use nexuscone.Witnesses.Retirement.{retire_witness-again}
use nexuscone.Tests.Base.{toy, toy_signer, checksum, checksum-byte, approve, empty_db, noon}

-- Accepts what `toy_signer` signs under any key.
abbrev lenient : Verifier
lenient = record { verify = λ key m s. some (text_eq s (checksum m ∷ [])) }

lenient-Knows : Knows lenient toy_signer
lenient-Knows = record {
  signature = λ m. checksum m ∷ [];
  signs = λ m. refl;
  accepts = λ m. ap some (text_eq_refl (checksum m ∷ []));
  bytes = λ m. (checksum-byte m, tt);
}

abbrev court_row : WitnessRow
court_row = record {
  witness_id = 1;
  label = codes "court";
  public_key_hex = codes "k1";
  role = codes "regulator";
  created_at = iso noon;
  retired_at = none;
}

abbrev court : Witness
court = record {
  witness_id = 1;
  label = codes "court";
  public_key_hex = codes "k1";
  role = codes "regulator";
  created_at = noon;
  retired_at = none;
}

abbrev witnessed : Database
witnessed = record (with_entry empty_db (logged_row toy approve none)) {
  witnesses = record { sequence = 1; rows = court_row ∷ [] };
}

noon_range : IsReadable noon
unfolding in_range days_in_month is_leap
noon_range = (refl, omega arith)

court-readable : row_to_witness court_row ≡ ok court
unfolding row_to_witness
court-readable = rw (from_iso-iso noon noon_range)

empty-IsValid : IsValid (obj end)
unfolding IsValid
empty-IsValid = ground arith

court-CanAttest : CanAttest witnessed 1 toy_signer
unfolding first_row logged_row
court-CanAttest = record {
  witness_row = court_row;
  witness = court;
  head = logged_row toy approve none;
  payload = sort_keys (obj end);
  found = refl;
  readable = court-readable;
  active = refl;
  keyed = refl;
  tip = refl;
  decoded = loads-canonical_json (obj end) empty-IsValid;
}

none_yet : verify_witness_attestations toy lenient witnessed ≡ (ok 0, witnessed)
unfolding verify_witness_attestations map_result sort_by_witness check_attestations
none_yet = rw court-readable

verify-attest_example :
    let row =
      attested_row toy noon 1
        (lenient-Knows.signature
          (signed_digest toy noon 1 court-CanAttest.head witnessed.attestations))
        court-CanAttest.head
        witnessed.attestations in
    let db' = with_attestation witnessed row in
    (attest_with_witness toy noon 1 toy_signer witnessed
      ≡ (ok (some (attestation_at noon row)), db'))
    × (verify_witness_attestations toy lenient db' ≡ (ok 1, db'))
verify-attest_example =
    verify-attest toy lenient noon 1 toy_signer witnessed 0 court-CanAttest lenient-Knows none_yet

verify_witness_attestations_iff_example :
    (verify_witness_attestations toy lenient witnessed ≡ (ok 0, witnessed)) ↔ (
      (ws : List Witness) × (map_result row_to_witness witnessed.witnesses.rows ≡ ok ws)
      × ((w : ℕ)
          → IsSubChain toy lenient ws genesis_previous_hash
              (signed_by w witnessed.attestations.rows))
      × (0 ≡ length witnessed.attestations.rows))
verify_witness_attestations_iff_example = verify_witness_attestations_iff toy lenient witnessed 0

attest_with_witness-refused_example :
    ((attest_with_witness toy noon 2 toy_signer witnessed).1 ≡ witnessed)
    ⊎ CanAttest witnessed 2 toy_signer
attest_with_witness-refused_example = attest_with_witness-refused toy noon 2 toy_signer witnessed

retire_witness-again_example :
    retire_witness noon 1 (retire_witness noon 1 witnessed).1 ≡ retire_witness noon 1 witnessed
retire_witness-again_example = retire_witness-again noon noon 1 witnessed

abbrev hourly : AnchorSchedule
hourly = record default_schedule { enabled = true }

should_anchor_iff_example : (should_anchor hourly (pos 5) (some noon) noon ≡ true) ↔ (
    (hourly.enabled ≡ true)
    × ((hourly.every_n_entries ≤ℤ pos 5)
        ⊎ ((pos 1 ≤ℤ pos 5) × IsDue hourly.every_m_minutes (some noon) noon)))
should_anchor_iff_example = should_anchor_iff hourly (pos 5) (some noon) noon
