-- ===== src/Cli/Commands.antt =====
-- verifier.py: the other commands, and `main`.
use nexuscone.Prelude.{ℕ, ◌+◌, Option, none, some, List, [], ◌∷◌, ◌++◌, length, if◌then◌else◌}
use nexuscone.Prelude.Int.{pos}
use nexuscone.Text.{Text, Bytes}
use nexuscone.Text.Hex.{from_hex}
use nexuscone.Time.{DateTime}
use nexuscone.Canonical.{Sha256}
use nexuscone.Exec.{Result, ok, err, hex_error, anchor_not_found, or_raise, ◌>>=◌}
use nexuscone.Store.{File}
use nexuscone.Ledger.{method}
use nexuscone.Ots.{Ots}
use nexuscone.Rfc3161.{Tsa, TsaResponse, verify_tst, is_tsa_error}
use nexuscone.Anchors.{AnchorRecord, get_anchor, get_anchors}
use nexuscone.Poller.{Mempool, upgrade_pending_anchors}
use nexuscone.Cli.{
  Line, fail, tst_verified, tst_failed, tst_summary, counters, anchor_shown, Report, with_ledger,
  exit_code, verify_chain_command, check_anchors_command,
}

pub record TstTally : Type 0 where
  pub verified : ℕ
  pub failed : ℕ
  pub skipped : ℕ
  pub lines : List Line

abbrev pub text_or_empty : Option Text → Text
text_or_empty none = []
text_or_empty (some t) = t

-- `except TSAError`: no other error is caught.
abbrev pub add_token : AnchorRecord → Result TsaResponse → TstTally → Result TstTally
add_token anchor (ok response) c = ok (record c {
  verified = c.verified + 1;
  lines = c.lines ++ tst_verified anchor.chain_head_hash response ∷ [];
})
add_token anchor (err e) c =
    if is_tsa_error e
    then ok
        (record c { failed = c.failed + 1; lines = c.lines ++ tst_failed anchor.anchor_id e ∷ [] })
    else err e

-- The token of one anchor.
abbrev pub token_of : Tsa → Sha256 → AnchorRecord → Bytes → Result TsaResponse
token_of tsa h anchor blob = do
  digest ← or_raise hex_error (from_hex anchor.chain_head_hash)
  verify_tst tsa h blob digest (text_or_empty anchor.tsa_url)

abbrev pub check_blob : Tsa → Sha256 → AnchorRecord → Option Bytes → TstTally → Result TstTally
check_blob tsa h anchor none c = ok (record c { skipped = c.skipped + 1 })
check_blob tsa h anchor (some blob) c = add_token anchor (token_of tsa h anchor blob) c

unfoldable pub check_tst_list : Tsa → Sha256 → TstTally → List AnchorRecord → Result TstTally
unfolding verify_tst is_tsa_error
check_tst_list tsa h c [] = ok c
check_tst_list tsa h c (a ∷ anchors) =
    check_blob tsa h a a.tst_blob c >>= λ d. check_tst_list tsa h d anchors

abbrev pub no_tokens : TstTally
no_tokens = record { verified = 0; failed = 0; skipped = 0; lines = [] }

abbrev pub tst_report : TstTally → Report
tst_report c = record {
  lines = c.lines ++ tst_summary c.verified c.failed c.skipped ∷ [];
  code = exit_code c.failed;
}

-- `_check_tst`
unfoldable pub check_tst_command : Tsa → Sha256 → File → Result Report × File
unfolding with_ledger check_tst_list method
check_tst_command tsa h = with_ledger (λ l.
    let (r, l') = method (get_anchors none (pos 500)) l in
    (r >>= λ anchors. check_tst_list tsa h no_tokens anchors >>= λ c. ok (tst_report c), l'))

-- `_upgrade_pending`, with the default maximal age of a day.
unfoldable pub upgrade_pending_command :
    Ots → Mempool → (ℕ → DateTime) → DateTime → File → Result Report × File
unfolding with_ledger upgrade_pending_anchors
upgrade_pending_command ots web clock now = with_ledger (λ l.
    let (r, l') = upgrade_pending_anchors ots web clock now (some 1440) l in
    (r >>= λ c. ok (record { lines = counters c ∷ []; code = 0 }), l'))

abbrev blob_length : Option Bytes → ℕ
blob_length none = 0
blob_length (some b) = length b

-- `except KeyError`
abbrev pub shown_report : Result AnchorRecord → Result Report
shown_report (ok a) = ok (record {
  lines = anchor_shown a (blob_length a.ots_proof_blob) (blob_length a.tst_blob) ∷ [];
  code = 0;
})
shown_report (err (anchor_not_found i)) =
    ok (record { lines = fail (anchor_not_found i) ∷ []; code = 1 })
shown_report (err e) = err e

-- `_print_anchor`
unfoldable pub print_anchor_command : ℕ → File → Result Report × File
unfolding with_ledger method
print_anchor_command anchor_id =
    with_ledger (λ l. let (r, l') = method (get_anchor anchor_id) l in (shown_report r, l'))

-- The mutually exclusive flags.
pub data Command : Type 0 where
  check_anchors check_tst upgrade_pending verify : Command
  print_anchor : (anchor_id : ℕ) → Command

-- What the program has around it.
pub record World : Type 0 where
  pub sha256 : Sha256
  pub ots : Ots
  pub tsa : Tsa
  pub web : Mempool
  pub clock : ℕ → DateTime
  pub now : DateTime

-- `main`, and what the file holds afterwards.
unfoldable pub main : World → Command → File → Result Report × File
unfolding verify_chain_command check_anchors_command check_tst_command upgrade_pending_command
    print_anchor_command
main w check_anchors f = check_anchors_command w.ots f
main w check_tst f = check_tst_command w.tsa w.sha256 f
main w upgrade_pending f = upgrade_pending_command w.ots w.web w.clock w.now f
main w (print_anchor i) f = print_anchor_command i f
main w verify f = verify_chain_command w.sha256 f
