-- ===== src/Poller/Counts.antt =====
-- The counters of a run of the poller.
use nexuscone.Prelude.{ℕ, ◌+◌, ◌≡◌, refl, ◌∙◌, Option, List, [], ◌∷◌, length, arith}
use nexuscone.Prelude.Int.{pos}
use nexuscone.Time.{DateTime}
use nexuscone.Exec.{Result, ok, err}
use nexuscone.Store.{Ledger}
use nexuscone.Ledger.{method}
use nexuscone.Ots.{Ots}
use nexuscone.Anchors.{AnchorRecord, list_unconfirmed_anchors}
use nexuscone.Poller.{
  Mempool, Outcome, upgraded, still_pending, Counters, counted, upgrade_one, upgrade_all,
  fresh_counters, upgrade_pending_anchors,
}

abbrev pub outcomes : Counters → ℕ
outcomes c = c.upgraded + c.still_pending + c.failed

outcomes-counted : (r : Result Outcome) (c : Counters) → outcomes (counted r c) ≡ outcomes c + 1
unfolding counted
outcomes-counted (ok upgraded) c = omega arith
outcomes-counted (ok still_pending) c = omega arith
outcomes-counted (err e) c = omega arith

attempted-counted : (r : Result Outcome) (c : Counters) → (counted r c).attempted ≡ c.attempted
unfolding counted
attempted-counted (ok upgraded) c = refl
attempted-counted (ok still_pending) c = refl
attempted-counted (err e) c = refl

module _ (ots : Ots) (web : Mempool) (clock : ℕ → DateTime) where
  outcomes-upgrade_all :
      (k : ℕ) (c : Counters) (anchors : List AnchorRecord) (l : Ledger)
      → outcomes (upgrade_all ots web clock k c anchors l).0 ≡ outcomes c + length anchors
  unfolding upgrade_all
  outcomes-upgrade_all k c [] l = omega arith
  outcomes-upgrade_all k c (a ∷ more) l =
      let (r, l') = upgrade_one ots web k (clock k) a l in
      omega (arith, outcomes-counted r c, outcomes-upgrade_all (k + 1) (counted r c) more l')

  attempted-upgrade_all :
      (k : ℕ) (c : Counters) (anchors : List AnchorRecord) (l : Ledger)
      → (upgrade_all ots web clock k c anchors l).0.attempted ≡ c.attempted
  unfolding upgrade_all
  attempted-upgrade_all k c [] l = refl
  attempted-upgrade_all k c (a ∷ more) l =
      let (r, l') = upgrade_one ots web k (clock k) a l in
      attempted-upgrade_all (k + 1) (counted r c) more l' ∙ attempted-counted r c

-- Where the pending anchors can be listed, a run returns, whatever the calendars, the explorer and
-- the proofs do: it counts every listed anchor as attempted, and as exactly one of upgraded, still
-- pending and failed.
pub upgrade_pending-returns :
    (ots : Ots) (web : Mempool) (clock : ℕ → DateTime) (now : DateTime) (max_age : Option ℕ)
    (l : Ledger) (anchors : List AnchorRecord)
    → (method (list_unconfirmed_anchors max_age now (pos 500)) l).0 ≡ ok anchors
    → (c : Counters) × ((upgrade_pending_anchors ots web clock now max_age l).0 ≡ ok c)
      × (c.attempted ≡ length anchors)
      × (c.upgraded + c.still_pending + c.failed ≡ length anchors)
unfolding upgrade_pending_anchors
upgrade_pending-returns ots web clock now max_age l anchors e =
    let l' = (method (list_unconfirmed_anchors max_age now (pos 500)) l).1 in
    let fresh = fresh_counters (length anchors) in
    let run = upgrade_all ots web clock 0 fresh anchors l' in
    (
      run.0,
      rw e refl,
      attempted-upgrade_all ots web clock 0 fresh anchors l',
      omega (arith, outcomes-upgrade_all ots web clock 0 fresh anchors l'),
    )
