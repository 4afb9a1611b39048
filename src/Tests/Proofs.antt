-- ===== src/Tests/Proofs.antt =====
-- The theorems on time-stamp tokens and anchors at concrete inputs.
use nexuscone.Prelude.{
  ◌≡◌, refl, sym, ◌∙◌, ap, ◌↔◌, ◌⊎◌, none, some, List, [], ◌∷◌, ◌==◌, Option, if◌then◌else◌,
}
use nexuscone.Prelude.Int.{pos}
use nexuscone.Text.{Text, Bytes, codes}
use nexuscone.Time.{iso}
use nexuscone.Exec.{ok, err, cannot_anchor}
use nexuscone.Schedule.{default_schedule}
use nexuscone.Store.{AnchorRow, Database, Ledger, open_on}
use nexuscone.Rfc3161.{
  Tsa, TstInfo, TimeStampResp, TsaResponse, sha256_oid, response_of, submit_to_tsa, verify_tst,
  is_tsa_error, submit_tsa_track,
}
use nexuscone.Rfc3161.Laws.{IsToken, verify_tst_iff, verify_tst-submit_to_tsa}
use nexuscone.Rfc3161.Track.{AllFail, FirstAnswer, submit_tsa_track_lem}
use nexuscone.Anchors.{Confirmation}
use nexuscone.Ots.{leaf, node, Ots}
use nexuscone.Anchors.Submit.{anchor}
use nexuscone.Anchors.Safety.{anchor-err}
use nexuscone.Tests.Base.{toy, toy_digest, empty_db, noon}

abbrev info_of : Bytes → TstInfo
info_of body = record {
  gen_time = noon;
  hash_algorithm = sha256_oid;
  message = body;
  serial_number = pos 7;
}

-- An authority whose first request fails, and whose token is the digest itself.
abbrev pub toy_tsa : Tsa
toy_tsa = record {
  request = λ url digest. some digest;
  urlopen = λ n url body. if n == 0 then none else some (200, toy_digest body);
  decode_timestamp_response = λ body. some (record { status = 0; tst_info = some (info_of body) });
  granted = 0;
  granted_with_mods = 1;
}

abbrev digest : Bytes
digest = 1 ∷ 2 ∷ 3 ∷ []

abbrev first_url : Text
first_url = codes "a"

abbrev second_url : Text
second_url = codes "b"

abbrev answer : TsaResponse
answer = response_of (toy_digest digest) second_url (info_of (toy_digest digest))

second_answers : submit_to_tsa toy_tsa 1 digest second_url ≡ ok answer
unfolding submit_to_tsa
second_answers = refl

honest :
    (response : TimeStampResp) (info : TstInfo)
    → toy_tsa.decode_timestamp_response answer.tst_blob ≡ some response
    → response.tst_info ≡ some info
    → (info.hash_algorithm ≡ sha256_oid) × (toy.digest digest ≡ info.message)
honest response info e f =
    let known : some (info_of (toy_digest digest)) ≡ some info =
      ap (λ (o : Option TimeStampResp). told o) e ∙ f in
    let same : info_of (toy_digest digest) ≡ info = cc known in
    (sym (ap (λ (i : TstInfo). i.hash_algorithm) same), ap (λ (i : TstInfo). i.message) same)
  where
    told : Option TimeStampResp → Option TstInfo
    told none = none
    told (some r) = r.tst_info

verify_tst-submit_to_tsa_example :
    verify_tst toy_tsa toy answer.tst_blob digest second_url ≡ ok answer
verify_tst-submit_to_tsa_example =
    verify_tst-submit_to_tsa toy_tsa toy 1 digest second_url answer honest second_answers

verify_tst_iff_example : (verify_tst toy_tsa toy answer.tst_blob digest second_url ≡ ok answer) ↔ (
    (info : TstInfo) × IsToken toy_tsa toy answer.tst_blob digest info
    × (answer ≡ response_of answer.tst_blob second_url info))
verify_tst_iff_example = verify_tst_iff toy_tsa toy answer.tst_blob digest second_url answer

abbrev urls : List Text
urls = first_url ∷ second_url ∷ []

track : submit_tsa_track toy_tsa 0 digest none urls ≡ ok (some answer, none)
unfolding submit_tsa_track submit_to_tsa is_tsa_error
track = refl

submit_tsa_track_lem_example :
    ((r : TsaResponse) × (some answer ≡ some r) × FirstAnswer toy_tsa 0 digest urls r)
    ⊎ ((some answer ≡ none) × AllFail toy_tsa 0 digest urls)
submit_tsa_track_lem_example =
    submit_tsa_track_lem toy_tsa 0 digest none urls (some answer) none track

abbrev pending : AnchorRow
pending = record {
  anchor_id = 1;
  chain_head_hash = codes "00";
  chain_head_entry_id = 1;
  ots_proof_blob = some digest;
  submitted_at = iso noon;
  calendar_servers = codes "[\"a\"]";
  confirmed_at = none;
  bitcoin_block_height = none;
  bitcoin_block_hash = none;
  tst_blob = none;
  tsa_url = none;
  tsa_gen_time = none;
}

abbrev anchored : Database
anchored = record empty_db {
  anchors = record empty_db.anchors {
    sequence = 2;
    rows = pending ∷ record pending { anchor_id = 2 } ∷ [];
  };
}

abbrev confirmation : Confirmation
confirmation = record {
  upgraded_proof_blob = digest;
  bitcoin_block_height = 800000;
  bitcoin_block_hash = none;
  confirmed_at = noon;
}

abbrev toy_ots : Ots
toy_ots = record {
  timestamp = λ d. node d [] leaf;
  submit = λ n url d. some (node d [] leaf);
  get_timestamp = λ k n uri d. some (node d [] leaf);
  merge = λ a b. some a;
  serialize = λ t. some [];
  deserialize = λ b d. some (node d [] leaf);
  all_attestations = λ t. [];
}

abbrev ledger : Ledger
ledger = record { connection = open_on anchored; anchor_schedule = some default_schedule }

disabled_raises : (anchor toy_ots toy_tsa noon none ledger).0 ≡ err cannot_anchor
unfolding anchor
disabled_raises = refl

anchor-err_example : (anchor toy_ots toy_tsa noon none ledger).1 ≡ ledger
anchor-err_example = anchor-err toy_ots toy_tsa noon none ledger cannot_anchor disabled_raises
