-- ===== src/Poller/Outcomes.antt =====
-- The outcomes of one anchor.
use nexuscone.Prelude.{ℕ, ◌≡◌, sym, ap, inl, inr, Option, none, some, Option-cases}
use nexuscone.Text.{Bytes}
use nexuscone.Time.{DateTime}
use nexuscone.Schedule.{AnchorSchedule}
use nexuscone.Exec.{Result, ok}
use nexuscone.Exec.Inversion.{Result-cases}
use nexuscone.Store.{Database, Ledger}
use nexuscone.Ledger.{method}
use nexuscone.Ots.{Timestamp, Ots}
use nexuscone.Anchors.{AnchorRecord, Confirmation, confirm_anchor}
use nexuscone.Poller.{
  Mempool, Outcome, upgraded, fetch_block_hash, upgraded_proof, confirm_upgraded, confirm_tree,
  upgrade_one,
}
use nexuscone.Poller.Tree.{first_bitcoin_attestation}
use nexuscone.Poller.Frame.{opened}

abbrev pub Returned : Type 0
Returned = Result Outcome × Ledger

-- What the poller stores for a tree with a block of that height.
abbrev pub confirmation_of : Mempool → ℕ → DateTime → Bytes → ℕ → Confirmation
confirmation_of web k now blob height = record {
  upgraded_proof_blob = blob;
  bitcoin_block_height = height;
  bitcoin_block_hash = fetch_block_hash web k height;
  confirmed_at = now;
}

-- An anchor was confirmed with the height of a block in its upgraded proof.
pub record WasConfirmed (ots : Ots) (web : Mempool) (k : ℕ) (now : DateTime) (a : AnchorRecord)
    (s : Option AnchorSchedule) (db : Database) (l' : Ledger) : Type 0 where
  pub proof : Timestamp
  pub height : ℕ
  pub blob : Bytes
  pub upgraded_to : upgraded_proof ots k a ≡ ok (some proof)
  pub block : first_bitcoin_attestation ots proof ≡ some height
  pub serialized : ots.serialize proof ≡ some blob
  pub after :
      l' ≡ opened s (confirm_anchor a.anchor_id (confirmation_of web k now blob height) db).1

module _ (ots : Ots) (web : Mempool) (k : ℕ) (now : DateTime) (a : AnchorRecord)
    (s : Option AnchorSchedule) (db : Database) (l' : Ledger) where
  confirm_upgraded-WasConfirmed :
      (u : Timestamp) (height : ℕ)
      → upgraded_proof ots k a ≡ ok (some u)
      → first_bitcoin_attestation ots u ≡ some height
      → confirm_upgraded ots web k now a u height (opened s db) ≡ (ok upgraded, l')
      → WasConfirmed ots web k now a s db l'
  unfolding confirm_upgraded method
  confirm_upgraded-WasConfirmed u height up first e = elim (Option-cases (ots.serialize u)) [
    | inl fails ↦ let never = ap (λ (r : Returned). r.0) (rw (confirm_upgraded, fails) at e) in cc
    | inr (blob, f) ↦
        let c = confirmation_of web k now blob height in
        elim (Result-cases (confirm_anchor a.anchor_id c db).0) [
          | inl (b, g) ↦ record {
            proof = u;
            height = height;
            blob = blob;
            upgraded_to = up;
            block = first;
            serialized = f;
            after = sym (ap (λ (r : Returned). r.1) (rw g at (rw f at e)));
          }
          | inr (x, g) ↦ let never = ap (λ (r : Returned). r.0) (rw g at (rw f at e)) in cc
        ]
  ]

  confirm_tree-WasConfirmed :
      (t : Option Timestamp)
      → upgraded_proof ots k a ≡ ok t
      → confirm_tree ots web k now a t (opened s db) ≡ (ok upgraded, l')
      → WasConfirmed ots web k now a s db l'
  confirm_tree-WasConfirmed none up e = let never = ap (λ (r : Returned). r.0) e in cc
  confirm_tree-WasConfirmed (some u) up e = elim (Option-cases (first_bitcoin_attestation ots u)) [
    | inl without ↦ let never = ap (λ (r : Returned). r.0) (rw without at e) in cc
    | inr (height, first) ↦ confirm_upgraded-WasConfirmed u height up first (rw first at e)
  ]

  -- Where `_upgrade_one` returns "upgraded", the upgraded proof has an attestation of a block, and
  -- the ledger is what `confirm_anchor` leaves for that proof, that block and that time.
  pub upgrade_one-WasConfirmed :
      upgrade_one ots web k now a (opened s db) ≡ (ok upgraded, l')
      → WasConfirmed ots web k now a s db l'
  unfolding upgrade_one
  upgrade_one-WasConfirmed e = elim (Result-cases (upgraded_proof ots k a)) [
    | inl (t, up) ↦ confirm_tree-WasConfirmed t up (rw up at e)
    | inr (x, up) ↦ let never = ap (λ (r : Returned). r.0) (rw up at e) in cc
  ]
