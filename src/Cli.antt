-- ===== src/Cli.antt =====
-- verifier.py: the program nexuscone-verify. `argparse` is left out: `main` takes the command that it
-- parsed. What is printed is a list of lines, each with the values that it names.
pub mod Commands
pub mod Upgraded
pub mod Verdicts
pub mod Chain
pub mod Limit
use mathlib.Core.List.{map}
use nexuscone.Prelude.{
  ℕ, ◌+◌, Bool, true, false, not, Option, none, some, List, [], ◌∷◌, ◌++◌, ◌==◌, length,
  if◌then◌else◌,
}
use nexuscone.Prelude.Int.{pos}
use nexuscone.Text.{Text, Bytes}
use nexuscone.Text.Hex.{from_hex}
use nexuscone.Time.{DateTime}
use nexuscone.Json.{Value, null, boolean, int, str, arr, obj}
use nexuscone.Canonical.{Sha256}
use nexuscone.Exec.{
  Error, Result, ok, err, hex_error, type_error, timestamp_error, no_bitcoin_attestation,
  height_mismatch, previous_hash_mismatch, entry_hash_mismatch, signature_invalid, anchor_not_found,
  or_raise, raise_if, ◌>>=◌, ◌>>◌,
}
use nexuscone.Exec.Action.{Action}
use nexuscone.Store.{File, Connection, closed, open_on, Ledger}
use nexuscone.Ledger.{init, close, file_of, method}
use nexuscone.Entries.Verify.{verify_chain}
use nexuscone.Ots.{Ots}
use nexuscone.Rfc3161.{Tsa, TsaResponse, verify_tst, is_tsa_error}
use nexuscone.Anchors.{AnchorRecord, get_anchor, get_anchors}
use nexuscone.Poller.{Mempool, Counters, upgrade_pending_anchors}
use nexuscone.Poller.Tree.{first_bitcoin_attestation}

pub data Line : Type 0 where
  chain_valid : (entries : ℕ) → Line
  fail : Error → Line
  anchor_verified : (chain_head : Text) → (block : Option ℕ) → Line
  anchor_failed : (anchor_id : ℕ) → Error → Line
  anchor_pending : (chain_head : Text) → DateTime → (calendars : List Text) → Line
  anchor_summary : (confirmed pending failed : ℕ) → Line
  tst_verified : (chain_head : Text) → TsaResponse → Line
  tst_failed : (anchor_id : ℕ) → Error → Line
  tst_summary : (verified failed skipped : ℕ) → Line
  counters : Counters → Line
  anchor_shown : AnchorRecord → (ots_bytes tst_bytes : ℕ) → Line

pub record Report : Type 0 where
  pub lines : List Line
  pub code : ℕ

-- The file that a closed ledger leaves.
abbrev pub file_left : Connection → File
file_left (closed f) = f
file_left (open_on db) = file_of db

-- `async with Ledger(db_path) as ledger: ...`
unfoldable pub with_ledger : {A : Type 0} → Action Ledger A → File → Result A × File
unfolding init close
with_ledger m f =
    let (r, l) = m (init (record { connection = closed f; anchor_schedule = none })) in
    (r, file_left (close l).connection)

-- `except ChainVerificationError`
unfoldable pub is_chain_error : Error → Bool
is_chain_error (previous_hash_mismatch i expected found) = true
is_chain_error (entry_hash_mismatch i recomputed found) = true
is_chain_error (signature_invalid i) = true
is_chain_error _ = false

abbrev pub chain_report : Result ℕ → Result Report
chain_report (ok n) = ok (record { lines = chain_valid n ∷ []; code = 0 })
chain_report (err e) =
    if is_chain_error e then ok (record { lines = fail e ∷ []; code = 1 }) else err e

-- `_verify_chain`: no verifier is given.
unfoldable pub verify_chain_command : Sha256 → File → Result Report × File
unfolding with_ledger is_chain_error method
verify_chain_command h =
    with_ledger (λ l. let (r, l') = method (verify_chain h none) l in (chain_report r, l'))

-- The proof of a confirmed anchor against its row.
unfoldable pub check_proof : Ots → AnchorRecord → Bytes → Result (Unit {0})
check_proof ots anchor blob = do
  msg ← or_raise hex_error (from_hex anchor.chain_head_hash)
  ts ← or_raise timestamp_error (ots.deserialize blob msg)
  height ← or_raise no_bitcoin_attestation (first_bitcoin_attestation ots ts)
  stored ← or_raise (height_mismatch height) anchor.bitcoin_block_height
  raise_if (not (height == stored)) (height_mismatch height)

abbrev text_of : Value → Result Text
text_of null = err type_error
text_of (boolean b) = err type_error
text_of (int n) = err type_error
text_of (str s) = ok s
text_of (arr vs) = err type_error
text_of (obj ms) = err type_error

-- `", ".join(...)` raises on what is no text.
unfoldable pub texts_of : List Value → Result (List Text)
texts_of [] = ok []
texts_of (v ∷ vs) = do t ← text_of v; ts ← texts_of vs; ok (t ∷ ts)

pub record AnchorTally : Type 0 where
  pub confirmed : ℕ
  pub pending : ℕ
  pub failed : ℕ
  pub lines : List Line

abbrev pub add_proof : AnchorRecord → Result (Unit {0}) → AnchorTally → AnchorTally
add_proof anchor (ok u) c = record c {
  confirmed = c.confirmed + 1;
  lines = c.lines ++ anchor_verified anchor.chain_head_hash anchor.bitcoin_block_height ∷ [];
}
add_proof anchor (err e) c = record c {
  failed = c.failed + 1;
  lines = c.lines ++ anchor_failed anchor.anchor_id e ∷ [];
}

abbrev pub add_pending : AnchorRecord → AnchorTally → Result AnchorTally
add_pending anchor c = do
  calendars ← texts_of anchor.calendar_servers
  ok (record c {
    pending = c.pending + 1;
    lines = c.lines ++ anchor_pending anchor.chain_head_hash anchor.submitted_at calendars ∷ [];
  })

-- `if anchor.confirmed_at is not None and anchor.ots_proof_blob is not None`
abbrev pub check_parts :
    Ots → AnchorRecord → Option DateTime → Option Bytes → AnchorTally → Result AnchorTally
check_parts ots anchor none blob c = add_pending anchor c
check_parts ots anchor (some t) none c = add_pending anchor c
check_parts ots anchor (some t) (some blob) c =
    ok (add_proof anchor (check_proof ots anchor blob) c)

unfoldable pub check_anchor : Ots → AnchorRecord → AnchorTally → Result AnchorTally
unfolding check_proof texts_of
check_anchor ots anchor = check_parts ots anchor anchor.confirmed_at anchor.ots_proof_blob

unfoldable pub check_anchor_list : Ots → AnchorTally → List AnchorRecord → Result AnchorTally
unfolding check_anchor
check_anchor_list ots c [] = ok c
check_anchor_list ots c (a ∷ anchors) =
    check_anchor ots a c >>= λ d. check_anchor_list ots d anchors

abbrev pub no_anchors : AnchorTally
no_anchors = record { confirmed = 0; pending = 0; failed = 0; lines = [] }

abbrev pub exit_code : ℕ → ℕ
exit_code failed = if failed == 0 then 0 else 1

abbrev pub anchor_report : AnchorTally → Report
anchor_report c = record {
  lines = c.lines ++ anchor_summary c.confirmed c.pending c.failed ∷ [];
  code = exit_code c.failed;
}

-- `_check_anchors`: `get_anchors` with its default limit.
unfoldable pub check_anchors_command : Ots → File → Result Report × File
unfolding with_ledger check_anchor_list method
check_anchors_command ots = with_ledger (λ l.
    let (r, l') = method (get_anchors none (pos 500)) l in
    (r >>= λ anchors. check_anchor_list ots no_anchors anchors >>= λ c. ok (anchor_report c), l'))
