-- ===== src/Poller/Frame.antt =====
-- What a run of the poller may write.
use nexuscone.Prelude.{
  ℕ, ◌+◌, ◌≡◌, refl, ◌∙◌, ap, inl, inr, Option, none, some, List, [], ◌∷◌, Option-cases, map,
  length,
}
use mathlib.Core.List.{Memᴰ}
use mathlib.Core.List.Memᴰ.{head, tail}
use nexuscone.Schedule.{AnchorSchedule}
use nexuscone.Prelude.Int.{ℤ, pos}
use nexuscone.Time.{DateTime}
use nexuscone.Exec.{ok}
use nexuscone.Exec.Inversion.{Result-cases}
use nexuscone.Store.{Database, Ledger, open_on}
use nexuscone.Ledger.{method}
use nexuscone.Ots.{Ots, Timestamp}
use nexuscone.Anchors.{
  AnchorRecord, Confirmation, confirm_anchor, list_unconfirmed_anchors, cutoff_of,
}
use nexuscone.Poller.{
  Mempool, upgrade_one, upgraded_proof, confirm_tree, confirm_upgraded, upgrade_all, counted,
  Counters, upgrade_pending_anchors, fresh_counters, fetch_block_hash,
}
use nexuscone.Poller.Tree.{first_bitcoin_attestation}
use nexuscone.Poller.Confirming.{
  OnlyConfirms, OnlyConfirms-refl, OnlyConfirms-trans, confirm_anchor-OnlyConfirms,
}

abbrev pub opened : Option AnchorSchedule → Database → Ledger
opened s db = record { connection = open_on db; anchor_schedule = s }

abbrev pub ids_of : List AnchorRecord → List ℕ
ids_of anchors = map (λ (a : AnchorRecord). a.anchor_id) anchors

module _ (ids : List ℕ) where
  -- A ledger that is open on what such confirmations lead to.
  abbrev pub Confirms : Option AnchorSchedule → Database → Ledger → Type 0
  Confirms s db l' = (db' : Database) × (l' ≡ opened s db') × OnlyConfirms ids db db'

  module _ (ots : Ots) (web : Mempool) (k : ℕ) (now : DateTime) (a : AnchorRecord)
      (listed : Memᴰ a.anchor_id ids) (s : Option AnchorSchedule) (db : Database) where
    confirm_upgraded-Confirms :
        (ts : Timestamp) (height : ℕ)
        → Confirms s db (confirm_upgraded ots web k now a ts height (opened s db)).1
    unfolding confirm_upgraded method
    confirm_upgraded-Confirms ts height = elim (Option-cases (ots.serialize ts)) [
      | inl e ↦ rw e (db, refl, OnlyConfirms-refl ids db)
      | inr (blob, e) ↦
          let c : Confirmation = record {
            upgraded_proof_blob = blob;
            bitcoin_block_height = height;
            bitcoin_block_hash = fetch_block_hash web k height;
            confirmed_at = now;
          } in
          let after = (confirm_anchor a.anchor_id c db).1 in
          let only = confirm_anchor-OnlyConfirms ids a.anchor_id c db listed in
          elim (Result-cases (confirm_anchor a.anchor_id c db).0) [
            | inl (b, f) ↦ rw e rw f (after, refl, only)
            | inr (x, f) ↦ rw e rw f (after, refl, only)
          ]
    ]

    confirm_tree-Confirms :
        (t : Option Timestamp) → Confirms s db (confirm_tree ots web k now a t (opened s db)).1
    confirm_tree-Confirms none = (db, refl, OnlyConfirms-refl ids db)
    confirm_tree-Confirms (some ts) = elim (Option-cases (first_bitcoin_attestation ots ts)) [
      | inl e ↦ rw e (db, refl, OnlyConfirms-refl ids db)
      | inr (height, e) ↦ rw e (confirm_upgraded-Confirms ts height)
    ]

    upgrade_one-Confirms : Confirms s db (upgrade_one ots web k now a (opened s db)).1
    unfolding upgrade_one
    upgrade_one-Confirms = elim (Result-cases (upgraded_proof ots k a)) [
      | inl (t, e) ↦ rw e (confirm_tree-Confirms t)
      | inr (x, e) ↦ rw e (db, refl, OnlyConfirms-refl ids db)
    ]

  upgrade_all-Confirms :
      (ots : Ots) (web : Mempool) (clock : ℕ → DateTime) (k : ℕ) (c : Counters)
      (anchors : List AnchorRecord) (s : Option AnchorSchedule) (db : Database)
      → ((i : ℕ) → Memᴰ i (ids_of anchors) → Memᴰ i ids)
      → Confirms s db (upgrade_all ots web clock k c anchors (opened s db)).1
  unfolding upgrade_all
  upgrade_all-Confirms ots web clock k c [] s db listed = (db, refl, OnlyConfirms-refl ids db)
  upgrade_all-Confirms ots web clock k c (a ∷ more) s db listed =
      let run = upgrade_one ots web k (clock k) a (opened s db) in
      let here = listed a.anchor_id (head refl) in
      let (mid, e, first) = upgrade_one-Confirms ots web k (clock k) a here s db in
      let (last, f, rest) =
        upgrade_all-Confirms ots web clock (k + 1) (counted run.0 c) more s mid
          (λ i m. listed i (tail m)) in
      let rest_of =
        λ (l : Ledger). (upgrade_all ots web clock (k + 1) (counted run.0 c) more l).1 in
      (last, ap rest_of e ∙ f, OnlyConfirms-trans ids db mid last first rest)

-- Listing writes nothing.
list_unconfirmed-kept :
    (max_age : Option ℕ) (now : DateTime) (limit : ℤ) (db : Database)
    → (list_unconfirmed_anchors max_age now limit db).1 ≡ db
unfolding list_unconfirmed_anchors
list_unconfirmed-kept max_age now limit db = elim (Result-cases (cutoff_of max_age now)) [
  | inl (cutoff, e) ↦ rw e refl
  | inr (x, e) ↦ rw e refl
]

-- A run of the poller over an open ledger leaves it open, with the entries, the witnesses and the
-- attestations as they were and no anchor added or removed; an anchor that was not listed is as it
-- was, and a listed one is as it was or confirmed.
pub upgrade_pending-Confirms :
    (ots : Ots) (web : Mempool) (clock : ℕ → DateTime) (now : DateTime) (max_age : Option ℕ)
    (s : Option AnchorSchedule) (db : Database) (anchors : List AnchorRecord)
    → (list_unconfirmed_anchors max_age now (pos 500) db).0 ≡ ok anchors
    → Confirms
        (ids_of anchors)
        s
        db
        (upgrade_pending_anchors ots web clock now max_age (opened s db)).1
unfolding upgrade_pending_anchors method
upgrade_pending-Confirms ots web clock now max_age s db anchors e =
    let kept = list_unconfirmed-kept max_age now (pos 500) db in
    rw e rw kept (
      upgrade_all-Confirms (ids_of anchors) ots web clock 0 (fresh_counters (length anchors))
        anchors s db (λ i m. m))
