-- ===== src/Poller/Confirming.antt =====
-- Confirming some anchors of a database, and changing nothing else.
use nexuscone.Prelude.{
  ℕ, ◌≡◌, refl, sym, ◌∙◌, ap, ◌⊎◌, inl, inr, List, [], ◌∷◌, ◌==◌, Bool-cases, ==_iff,
}
use mathlib.Core.List.{Memᴰ}
use mathlib.Core.List.Memᴰ.{cast}
use nexuscone.Store.{AnchorRow, Database}
use nexuscone.Store.Query.{update_rows}
use nexuscone.Anchors.{Confirmation, confirm_row, confirm_anchor, get_anchor}

-- A row that is as it was, or that has one of the ids and was confirmed.
abbrev pub MayConfirm : List ℕ → AnchorRow → AnchorRow → Type 0
MayConfirm ids r s = (s ≡ r) ⊎ ((c : Confirmation) × Memᴰ r.anchor_id ids × (s ≡ confirm_row c r))

abbrev pub MayConfirmAll : List ℕ → List AnchorRow → List AnchorRow → Type 0
MayConfirmAll ids [] [] = Unit
MayConfirmAll ids [] (s ∷ ss) = ⊥
MayConfirmAll ids (r ∷ rs) [] = ⊥
MayConfirmAll ids (r ∷ rs) (s ∷ ss) = MayConfirm ids r s × MayConfirmAll ids rs ss

-- The databases that confirmations of these anchors may lead to.
pub record OnlyConfirms (ids : List ℕ) (db : Database) (db' : Database) : Type 0 where
  pub entries : db'.entries ≡ db.entries
  pub witnesses : db'.witnesses ≡ db.witnesses
  pub attestations : db'.attestations ≡ db.attestations
  pub sequence : db'.anchors.sequence ≡ db.anchors.sequence
  pub rows : MayConfirmAll ids db.anchors.rows db'.anchors.rows

module _ (ids : List ℕ) where
  MayConfirm-trans :
      (r s u : AnchorRow) → MayConfirm ids r s → MayConfirm ids s u → MayConfirm ids r u
  unfolding confirm_row
  MayConfirm-trans r s u (inl e) (inl f) = inl (f ∙ e)
  MayConfirm-trans r s u (inl e) (inr (c, m, f)) =
      inr (c, cast (ap (λ (x : AnchorRow). x.anchor_id) (sym e)) m, f ∙ ap (confirm_row c) e)
  MayConfirm-trans r s u (inr (c, m, e)) (inl f) = inr (c, m, f ∙ e)
  MayConfirm-trans r s u (inr (c, m, e)) (inr (d, n, f)) = inr (d, m, f ∙ ap (confirm_row d) e)

  MayConfirmAll-refl : (rs : List AnchorRow) → MayConfirmAll ids rs rs
  MayConfirmAll-refl [] = tt
  MayConfirmAll-refl (r ∷ rs) = (inl refl, MayConfirmAll-refl rs)

  MayConfirmAll-trans :
      (rs ss us : List AnchorRow)
      → MayConfirmAll ids rs ss
      → MayConfirmAll ids ss us
      → MayConfirmAll ids rs us
  MayConfirmAll-trans [] [] [] a b = tt
  MayConfirmAll-trans [] [] (u ∷ us) a b = absurd b
  MayConfirmAll-trans [] (s ∷ ss) us a b = absurd a
  MayConfirmAll-trans (r ∷ rs) [] us a b = absurd a
  MayConfirmAll-trans (r ∷ rs) (s ∷ ss) [] a b = absurd b
  MayConfirmAll-trans (r ∷ rs) (s ∷ ss) (u ∷ us) a b =
      (MayConfirm-trans r s u a.0 b.0, MayConfirmAll-trans rs ss us a.1 b.1)

  pub OnlyConfirms-refl : (db : Database) → OnlyConfirms ids db db
  OnlyConfirms-refl db = record {
    entries = refl;
    witnesses = refl;
    attestations = refl;
    sequence = refl;
    rows = MayConfirmAll-refl db.anchors.rows;
  }

  pub OnlyConfirms-trans :
      (a b c : Database) → OnlyConfirms ids a b → OnlyConfirms ids b c → OnlyConfirms ids a c
  OnlyConfirms-trans a b c p q = record {
    entries = q.entries ∙ p.entries;
    witnesses = q.witnesses ∙ p.witnesses;
    attestations = q.attestations ∙ p.attestations;
    sequence = q.sequence ∙ p.sequence;
    rows = MayConfirmAll-trans a.anchors.rows b.anchors.rows c.anchors.rows p.rows q.rows;
  }

  MayConfirmAll-update :
      (i : ℕ) (c : Confirmation) (rs : List AnchorRow)
      → Memᴰ i ids
      → MayConfirmAll ids rs (update_rows (λ (r : AnchorRow). r.anchor_id == i) (confirm_row c) rs)
  unfolding update_rows
  MayConfirmAll-update i c [] m = tt
  MayConfirmAll-update i c (r ∷ rs) m = elim (Bool-cases (r.anchor_id == i)) [
    | inl e ↦
        rw e (inr (c, cast ((==_iff r.anchor_id i).0 e) m, refl), MayConfirmAll-update i c rs m)
    | inr e ↦ rw e (inl refl, MayConfirmAll-update i c rs m)
  ]

  pub confirm_anchor-OnlyConfirms :
      (i : ℕ) (c : Confirmation) (db : Database)
      → Memᴰ i ids
      → OnlyConfirms ids db (confirm_anchor i c db).1
  unfolding confirm_anchor get_anchor
  confirm_anchor-OnlyConfirms i c db m = record {
    entries = refl;
    witnesses = refl;
    attestations = refl;
    sequence = refl;
    rows = MayConfirmAll-update i c db.anchors.rows m;
  }
