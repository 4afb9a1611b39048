-- ===== src/Anchors/Laws.antt =====
-- What a confirmation changes.
use nexuscone.Prelude.{ℕ, ◌≡◌, Bool, false, not, List, ◌∷◌, ◌==◌}
use nexuscone.Store.{AnchorRow, Database}
use nexuscone.Store.Query.{where_rows}

-- The database without one anchor.
unfoldable pub without_anchor : ℕ → Database → Database
without_anchor i db = record db {
  anchors = record db.anchors {
    rows = where_rows (λ (r : AnchorRow). not (r.anchor_id == i)) db.anchors.rows;
  };
}

where_rows-drop :
    {A : Type 0} (p : A → Bool) (r : A) (rs : List A)
    → p r ≡ false
    → where_rows p (r ∷ rs) ≡ where_rows p rs
unfolding where_rows
where_rows-drop p r rs e = rw e
