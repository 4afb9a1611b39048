-- ===== src/Tests/Insertion.antt =====
-- The theorem on the insertion of anchors at a concrete input.
use nexuscone.Prelude.{◌≡◌, refl, none, some, [], ◌∷◌, arith, All}
use nexuscone.Text.{codes}
use nexuscone.Text.Utf8.{IsScalarText}
use nexuscone.Time.{iso, in_range, days_in_month, is_leap}
use nexuscone.Time.RoundTrip.{IsReadable}
use nexuscone.Json.{str}
use nexuscone.Exec.{ok}
use nexuscone.Store.{AnchorRow, Database}
use nexuscone.Store.Query.{first_row, next_rowid}
use nexuscone.Rfc3161.{TsaResponse}
use nexuscone.Entries.{LedgerEntry}
use nexuscone.Entries.Log.{logged_row, logged_entry, with_entry}
use nexuscone.Anchors.{AnchorRecord, get_anchor}
use nexuscone.Anchors.Submit.{OtsResult, insert_anchor, dumps_texts}
use nexuscone.Anchors.Insert.{get_anchor-insert_anchor}
use nexuscone.Tests.Base.{toy, empty_db, noon, login}

abbrev one_entry : Database
one_entry = with_entry empty_db (logged_row toy login none)

abbrev entry : LedgerEntry
entry = logged_entry toy login none

abbrev proofs : OtsResult
proofs = record { successful = codes "a" ∷ codes "b" ∷ []; proof = some (7 ∷ []); errors = [] }

abbrev token : TsaResponse
token = record {
  tst_blob = 1 ∷ 2 ∷ [];
  tsa_url = codes "t";
  gen_time = noon;
  hash_algorithm = codes "x";
  serial_number = codes "7";
}

abbrev row : AnchorRow
row = record {
  anchor_id = 1;
  chain_head_hash = entry.entry_hash;
  chain_head_entry_id = entry.entry_id;
  ots_proof_blob = some (7 ∷ []);
  submitted_at = iso noon;
  calendar_servers = dumps_texts (codes "a" ∷ codes "b" ∷ []);
  confirmed_at = none;
  bitcoin_block_height = none;
  bitcoin_block_hash = none;
  tst_blob = some (1 ∷ 2 ∷ []);
  tsa_url = some (codes "t");
  tsa_gen_time = some (iso noon);
}

abbrev anchored : AnchorRecord
anchored = record {
  anchor_id = 1;
  chain_head_hash = entry.entry_hash;
  chain_head_entry_id = entry.entry_id;
  submitted_at = noon;
  calendar_servers = str (codes "a") ∷ str (codes "b") ∷ [];
  ots_proof_blob = some (7 ∷ []);
  confirmed_at = none;
  bitcoin_block_height = none;
  bitcoin_block_hash = none;
  tst_blob = some (1 ∷ 2 ∷ []);
  tsa_url = some (codes "t");
  tsa_gen_time = some noon;
}

abbrev after : Database
after = record one_entry { anchors = record one_entry.anchors { sequence = 1; rows = row ∷ [] } }

inserts : insert_anchor noon entry proofs (some token) one_entry ≡ (ok anchored, after)
unfolding insert_anchor first_row next_rowid logged_row logged_entry
inserts = refl

valid : IsReadable noon
unfolding in_range days_in_month is_leap
valid = (refl, omega arith)

no_surrogates : All IsScalarText proofs.successful
no_surrogates = (((omega arith, refl), tt), (((omega arith, refl), tt), tt))

get_anchor-insert_anchor_example : get_anchor 1 after ≡ (ok anchored, after)
get_anchor-insert_anchor_example =
    get_anchor-insert_anchor noon entry proofs (some token) one_entry after anchored inserts valid
      valid no_surrogates
