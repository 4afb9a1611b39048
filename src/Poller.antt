-- ===== src/Poller.antt =====
-- poller.py: upgrading the proofs of pending anchors.
pub mod Tree
pub mod Counts
pub mod Confirming
pub mod Frame
pub mod Merge
pub mod Pending
pub mod Answers
pub mod Upgrade
pub mod Outcomes
use nexuscone.Prelude.{
  ℕ, ◌+◌, Bool, true, false, ◌&&◌, ◌||◌, Option, none, some, List, [], ◌∷◌, ◌++◌, ◌==◌, ltb, leb,
  length, if◌then◌else◌,
}
use mathlib.Core.List.{reverse}
use nexuscone.Prelude.Int.{pos}
use nexuscone.Text.{Text, Bytes, codes}
use nexuscone.Text.Decimal.{decimal}
use nexuscone.Text.Hex.{from_hex}
use nexuscone.Time.{DateTime}
use nexuscone.Exec.{Result, ok, err, assertion_error, hex_error, timestamp_error, or_raise, ◌>>=◌}
use nexuscone.Exec as Exec
use nexuscone.Exec.Action.{Action, pure, lift}
use nexuscone.Exec.Action as Action
use nexuscone.Store.{Ledger}
use nexuscone.Ledger.{method}
use nexuscone.Ots.{Timestamp, Ots}
use nexuscone.Anchors.{AnchorRecord, Confirmation, confirm_anchor, list_unconfirmed_anchors}
use Tree.{collect_pending, merge_at_commitment, first_bitcoin_attestation}

-- mempool.space: `urlopen k` is the request for the k-th anchor of a run, with the HTTP status and
-- the body; `none` is any exception.
pub record Mempool : Type 0 where
  pub urlopen : ℕ → Text → Option (ℕ × Bytes)

abbrev pub block_url : ℕ → Text
block_url height = codes "https://mempool.space/api/block-height/" ++ decimal height

abbrev is_space : ℕ → Bool
is_space c = c == 32 || (leb 9 c && leb c 13) || (leb 28 c && leb c 31)

unfoldable pub strip_front : Text → Text
strip_front [] = []
strip_front (c ∷ cs) = let more = strip_front cs in if is_space c then more else c ∷ cs

-- `str.strip` of an ASCII text.
unfoldable pub strip : Text → Text
unfolding strip_front
strip t = reverse (strip_front (reverse (strip_front t)))

-- `bytes.decode("ascii")`
unfoldable pub ascii : Bytes → Option Text
ascii [] = some []
ascii (b ∷ bs) = elim (ltb b 128) [
  | false ↦ none
  | true ↦ elim (ascii bs) [ none ↦ none | some t ↦ some (b ∷ t) ]
]

abbrev pub text_or_none : Text → Option Text
text_or_none [] = none
text_or_none (c ∷ cs) = some (c ∷ cs)

abbrev pub body_text : Option Text → Option Text
body_text none = none
body_text (some t) = text_or_none (strip t)

-- `_fetch_bitcoin_block_hash_at_height`
unfoldable pub fetch_block_hash : Mempool → ℕ → ℕ → Option Text
unfolding strip ascii
fetch_block_hash web k height = elim (web.urlopen k (block_url height)) [
  | none ↦ none
  | some (status, body) ↦ if status == 200 then body_text (ascii body) else none
]

-- The loop over the pending attestations: a calendar that raises is passed over, a merge that raises
-- is not.
unfoldable pub upgrade_tree : Ots → ℕ → ℕ → Timestamp → List (Bytes × Text) → Result Timestamp
upgrade_tree ots k n ts [] = ok ts
upgrade_tree ots k n ts ((commitment, uri) ∷ pairs) = elim (ots.get_timestamp k n uri commitment) [
  | none ↦ upgrade_tree ots k (n + 1) ts pairs
  | some partial ↦ elim (merge_at_commitment ots commitment partial ts) [
    | err e ↦ err e
    | ok (found, merged) ↦ upgrade_tree ots k (n + 1) merged pairs
  ]
]

pub data Outcome : Type 0 where
  upgraded still_pending : Outcome

-- The end of `_upgrade_one`, for a tree with a Bitcoin attestation of that height.
unfoldable pub confirm_upgraded :
    Ots → Mempool → ℕ → DateTime → AnchorRecord → Timestamp → ℕ → Action Ledger Outcome
unfolding fetch_block_hash method
confirm_upgraded ots web k now anchor ts height =
    Action.◌>>=◌ (lift (or_raise timestamp_error (ots.serialize ts))) λ blob.
      Action.◌>>=◌
        (method (
          confirm_anchor anchor.anchor_id (record {
            upgraded_proof_blob = blob;
            bitcoin_block_height = height;
            bitcoin_block_hash = fetch_block_hash web k height;
            confirmed_at = now;
          })))
        λ confirmed. pure upgraded

abbrev pub confirm_if_any :
    Ots → Mempool → ℕ → DateTime → AnchorRecord → Timestamp → Option ℕ → Action Ledger Outcome
confirm_if_any ots web k now anchor ts none = pure still_pending
confirm_if_any ots web k now anchor ts (some height) =
    confirm_upgraded ots web k now anchor ts height

-- What `_upgrade_one` does before it confirms: the upgraded tree, or `none` where nothing is pending.
abbrev pub upgrade_pairs : Ots → ℕ → Timestamp → List (Bytes × Text) → Result (Option Timestamp)
upgrade_pairs ots k ts [] = ok none
upgrade_pairs ots k ts (p ∷ pairs) =
    Exec.◌>>=◌ (upgrade_tree ots k 0 ts (p ∷ pairs)) λ merged. ok (some merged)

unfoldable pub upgraded_proof : Ots → ℕ → AnchorRecord → Result (Option Timestamp)
unfolding upgrade_tree
upgraded_proof ots k anchor = do
  blob ← or_raise assertion_error anchor.ots_proof_blob
  msg ← or_raise hex_error (from_hex anchor.chain_head_hash)
  ts ← or_raise timestamp_error (ots.deserialize blob msg)
  upgrade_pairs ots k ts (collect_pending ts)

abbrev pub confirm_tree :
    Ots → Mempool → ℕ → DateTime → AnchorRecord → Option Timestamp → Action Ledger Outcome
confirm_tree ots web k now anchor none = pure still_pending
confirm_tree ots web k now anchor (some ts) =
    confirm_if_any ots web k now anchor ts (first_bitcoin_attestation ots ts)

-- `_upgrade_one`; `now` is the clock's time at its end.
unfoldable pub upgrade_one : Ots → Mempool → ℕ → DateTime → AnchorRecord → Action Ledger Outcome
unfolding upgraded_proof confirm_upgraded
upgrade_one ots web k now anchor =
    Action.◌>>=◌ (lift (upgraded_proof ots k anchor)) (confirm_tree ots web k now anchor)

pub record Counters : Type 0 where
  pub attempted : ℕ
  pub upgraded : ℕ
  pub still_pending : ℕ
  pub failed : ℕ

-- `counters[outcome] += 1`, or `counters["failed"] += 1`.
unfoldable pub counted : Result Outcome → Counters → Counters
counted (ok upgraded) c = record c { upgraded = c.upgraded + 1 }
counted (ok still_pending) c = record c { still_pending = c.still_pending + 1 }
counted (err e) c = record c { failed = c.failed + 1 }

-- The loop over the pending anchors; `clock k` is the time at the k-th.
unfoldable pub upgrade_all :
    Ots → Mempool → (ℕ → DateTime) → ℕ → Counters → List AnchorRecord → Ledger → Counters × Ledger
unfolding upgrade_one counted
upgrade_all ots web clock k c [] l = (c, l)
upgrade_all ots web clock k c (a ∷ more) l =
    let (r, l') = upgrade_one ots web k (clock k) a l in
    upgrade_all ots web clock (k + 1) (counted r c) more l'

abbrev pub fresh_counters : ℕ → Counters
fresh_counters n = record { attempted = n; upgraded = 0; still_pending = 0; failed = 0 }

abbrev pub run_pending :
    Ots → Mempool → (ℕ → DateTime) → Result (List AnchorRecord) → Ledger → Result Counters × Ledger
run_pending ots web clock (err e) l = (err e, l)
run_pending ots web clock (ok anchors) l =
    let (c, l') = upgrade_all ots web clock 0 (fresh_counters (length anchors)) anchors l in
    (ok c, l')

-- `upgrade_pending_anchors`; `now` is the clock's time at its start. The list is cut off at the
-- default limit of `list_unconfirmed_anchors`.
unfoldable pub upgrade_pending_anchors :
    Ots → Mempool → (ℕ → DateTime) → DateTime → Option ℕ → Action Ledger Counters
unfolding upgrade_all method
upgrade_pending_anchors ots web clock now max_age_minutes l =
    let (listed, l') = method (list_unconfirmed_anchors max_age_minutes now (pos 500)) l in
    run_pending ots web clock listed l'
