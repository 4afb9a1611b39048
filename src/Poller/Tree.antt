-- ===== src/Poller/Tree.antt =====
-- poller.py, the walks over a timestamp.
use nexuscone.Prelude.{ℕ, Bool, true, false, Option, none, some, List, [], ◌∷◌, ◌++◌, if◌then◌else◌}
use nexuscone.Text.{Text, Bytes, text_eq}
use nexuscone.Exec.{Result, ok, err, timestamp_error, or_raise, ◌>>=◌}
use nexuscone.Ots.{
  Attestation, pending, bitcoin, other, Timestamp, node, Children, leaf, branch, Ots,
}

-- The pending attestations at one node.
unfoldable pub pending_at : Bytes → List Attestation → List (Bytes × Text)
pending_at msg [] = []
pending_at msg (pending uri ∷ more) = (msg, uri) ∷ pending_at msg more
pending_at msg (bitcoin height ∷ more) = pending_at msg more
pending_at msg (other tag ∷ more) = pending_at msg more

-- `_collect_pending`
unfoldable mutual
  unfolding pending_at

  pub collect_pending : Timestamp → List (Bytes × Text)
  collect_pending (node msg attestations ops) = pending_at msg attestations ++ collect_below ops

  pub collect_below : Children → List (Bytes × Text)
  collect_below leaf = []
  collect_below (branch op t ts) = collect_pending t ++ collect_below ts

-- A node is put together again around its children.
abbrev pub at_node : Bytes → List Attestation → Result (Bool × Children) → Result (Bool × Timestamp)
at_node msg attestations (err e) = err e
at_node msg attestations (ok (found, ops)) = ok (found, node msg attestations ops)

abbrev pub behind_child : Bytes → Timestamp → Result (Bool × Children) → Result (Bool × Children)
behind_child op t (err e) = err e
behind_child op t (ok (found, ts)) = ok (found, branch op t ts)

-- `if _merge_at_commitment(child, ...): return True`: the children behind a hit are left alone.
abbrev pub after_child :
    Bytes
    → Children
    → Result (Bool × Timestamp)
    → Result (Bool × Children)
    → Result (Bool × Children)
after_child op ts (err e) rest = err e
after_child op ts (ok (true, t)) rest = ok (true, branch op t ts)
after_child op ts (ok (false, t)) rest = behind_child op t rest

-- `ts.merge(upgraded_partial); return True`
abbrev pub merge_here : Ots → Timestamp → Timestamp → Result (Bool × Timestamp)
merge_here ots t partial =
    or_raise timestamp_error (ots.merge t partial) >>= λ merged. ok (true, merged)

-- `_merge_at_commitment`, with the tree that it leaves.
unfoldable mutual
  pub merge_at_commitment : Ots → Bytes → Timestamp → Timestamp → Result (Bool × Timestamp)
  merge_at_commitment ots commitment partial (node msg attestations ops) =
      let below = at_node msg attestations (merge_below ots commitment partial ops) in
      if text_eq msg commitment then merge_here ots (node msg attestations ops) partial else below

  pub merge_below : Ots → Bytes → Timestamp → Children → Result (Bool × Children)
  merge_below ots commitment partial leaf = ok (false, leaf)
  merge_below ots commitment partial (branch op t ts) =
      after_child op ts (merge_at_commitment ots commitment partial t)
        (merge_below ots commitment partial ts)

-- The loop of `_first_bitcoin_attestation` over `ts.all_attestations()`: the height.
unfoldable pub first_bitcoin : List (Bytes × Attestation) → Option ℕ
first_bitcoin [] = none
first_bitcoin ((msg, pending uri) ∷ rest) = first_bitcoin rest
first_bitcoin ((msg, bitcoin height) ∷ rest) = some height
first_bitcoin ((msg, other tag) ∷ rest) = first_bitcoin rest

-- `_first_bitcoin_attestation`
unfoldable pub first_bitcoin_attestation : Ots → Timestamp → Option ℕ
unfolding first_bitcoin
first_bitcoin_attestation ots t = first_bitcoin (ots.all_attestations t)
