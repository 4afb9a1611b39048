-- ===== src/Tests/Program.antt =====
-- The theorems on the command-line program at concrete inputs.
use nexuscone.Prelude.{
  ◌≡◌, refl, ◌↔◌, none, List, [], ◌∷◌, ◌++◌, length, replicate, length-replicate, All,
}
use nexuscone.Prelude.Int.{pos}
use nexuscone.Store.Query.{where_rows, limit_rows}
use nexuscone.Exec.{ok, map_result}
use nexuscone.Store.{AnchorRow, File, genesis_previous_hash}
use nexuscone.Ledger.{migrate_anchors_columns, open_file, file_of}
use nexuscone.Entries.Chain.{IsChain}
use nexuscone.Entries.Append.{log_all}
use nexuscone.Anchors.{get_anchors}
use nexuscone.Cli.{Report, chain_valid, check_anchors_command, verify_chain_command, texts_of}
use nexuscone.Cli.Commands.{check_tst_command}
use nexuscone.Cli.Verdicts.{Passes, HasTexts, check_anchors_command_iff}
use nexuscone.Cli.Chain.{ExitsWith, verify_chain_command_iff}
use nexuscone.Cli.Limit.{with_anchors, checks-limit}
use nexuscone.Tests.Base.{toy, empty_db, login, approve}
use nexuscone.Tests.Upgrades.{waiting, waiting_db, waiting_anchor, waiting_reads}
use nexuscone.Tests.Proofs.{toy_tsa}
use nexuscone.Tests.Calendar.{calendar}

abbrev file : File
file = file_of waiting_db

listed_all : (get_anchors none (pos 500) (open_file file)).0 ≡ ok (waiting_anchor ∷ [])
unfolding get_anchors where_rows limit_rows map_result open_file migrate_anchors_columns
listed_all = rw waiting_reads refl

no_texts : HasTexts waiting_anchor
unfolding texts_of
no_texts = ([], refl)

check_anchors_command_iff_example :
    (report : Report) × ((check_anchors_command calendar file).0 ≡ ok report)
    × ((report.code ≡ 0) ↔ All (Passes calendar) (waiting_anchor ∷ []))
check_anchors_command_iff_example =
    check_anchors_command_iff calendar file (waiting_anchor ∷ []) listed_all (no_texts, tt)

abbrev ledger_file : File
ledger_file = file_of (log_all toy (login ∷ approve ∷ []) empty_db)

verify_chain_command_iff_example :
    let db = open_file ledger_file in
    let sound = IsChain toy db.entries genesis_previous_hash db.entries.rows in
    let printed : Report = record { lines = chain_valid (length db.entries.rows) ∷ []; code = 0 } in
    (ExitsWith 0 (verify_chain_command toy ledger_file).0 ↔ sound)
    × (((verify_chain_command toy ledger_file).0 ≡ ok printed) ↔ sound)
    × ((verify_chain_command toy ledger_file).1 ≡ file_of db)
verify_chain_command_iff_example = verify_chain_command_iff toy ledger_file

abbrev many : List AnchorRow
many = replicate 500 waiting

checks-limit_example :
    ((check_anchors_command calendar
        (with_anchors file waiting_db.anchors (many ++ waiting ∷ []))).0
      ≡ (check_anchors_command calendar (with_anchors file waiting_db.anchors many)).0)
    × ((check_tst_command toy_tsa toy
          (with_anchors file waiting_db.anchors (many ++ waiting ∷ []))).0
        ≡ (check_tst_command toy_tsa toy (with_anchors file waiting_db.anchors many)).0)
checks-limit_example =
    checks-limit calendar toy_tsa toy file waiting_db.anchors many (waiting ∷ []) (refl, refl, refl)
      (length-replicate 500 waiting)
