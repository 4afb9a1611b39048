-- ===== src/Anchors/Age.antt =====
-- The anchors that are young enough for the poller.
use nexuscone.Prelude.{
  ℕ, ◌+◌, ◌*◌, ◌≤◌, ◌≡◌, refl, sym, ap, ◌↔◌, Bool, true, false, ◌&&◌, not, Option, none, some, List,
  [], ◌∷◌, leb, All, arith,
}
use nexuscone.Prelude.Int.{ℤ}
use nexuscone.Text.{text_leb}
use nexuscone.Time.{DateTime, iso, from_iso, in_range, ordinal, days_before_month, micros}
use nexuscone.Time.RoundTrip.{from_iso-iso, IsReadable}
use nexuscone.Time.Order.{text_leb-iso_iff, year_1000, micros-year}
use nexuscone.Time.Shift.Laws.{minus_minutes_lem}
use nexuscone.Exec.{map_result}
use nexuscone.Store.{AnchorRow, Database}
use nexuscone.Store.Query.{where_rows, limit_rows}
use nexuscone.Anchors.{row_to_anchor, is_null, is_pending, list_unconfirmed_anchors}

abbrev young : ℕ → DateTime → Option DateTime → Bool
young m now none = false
young m now (some t) = leb (micros now) (micros t + m * 60000000)

-- An unconfirmed anchor with a proof, submitted in the last `m` minutes.
unfoldable pub is_young : ℕ → DateTime → AnchorRow → Bool
is_young m now row =
    is_null row.confirmed_at
    && not (is_null row.ots_proof_blob)
    && young m now (from_iso row.submitted_at)

-- The time of a row is one that the program wrote.
abbrev pub HasTime : AnchorRow → Type 0
HasTime row = (t : DateTime) × IsReadable t × (row.submitted_at ≡ iso t)

abbrev cut : Bool → Bool → Bool → Bool
cut a b c = a && not b && c

same_verdict : (p q : Bool) → ((p ≡ true) ↔ (q ≡ true)) → p ≡ q
same_verdict true true h = refl
same_verdict true false h = sym (h.0 refl)
same_verdict false true h = h.1 refl
same_verdict false false h = refl

is_pending-is_young :
    (m : ℕ) (now cutoff : DateTime) (row : AnchorRow)
    → IsReadable cutoff
    → micros cutoff + m * 60000000 ≡ micros now
    → HasTime row
    → is_pending (some cutoff) row ≡ is_young m now row
unfolding is_pending is_young
is_pending-is_young m now cutoff row valid instant (t, r, e) =
    let order = text_leb-iso_iff cutoff t valid r in
    let same : text_leb (iso cutoff) (iso t) ≡ leb (micros now) (micros t + m * 60000000) =
      same_verdict _ _
        (λ h. ground (arith, order.0 h, instant), λ h. order.1 (ground (arith, h, instant))) in
    rw e rw (from_iso-iso t r)
      (ap (cut (is_null row.confirmed_at) (is_null row.ots_proof_blob)) same)

where_rows-same :
    (p q : AnchorRow → Bool) (rows : List AnchorRow)
    → All (λ r. p r ≡ q r) rows
    → where_rows p rows ≡ where_rows q rows
unfolding where_rows
where_rows-same p q [] h = refl
where_rows-same p q (r ∷ rows) h = rw (h.0, where_rows-same p q rows h.1) refl

All-is_young :
    (m : ℕ) (now cutoff : DateTime) (rows : List AnchorRow)
    → IsReadable cutoff
    → micros cutoff + m * 60000000 ≡ micros now
    → All HasTime rows
    → All (λ r. is_pending (some cutoff) r ≡ is_young m now r) rows
All-is_young m now cutoff [] valid instant h = tt
All-is_young m now cutoff (r ∷ rows) valid instant h = (
  is_pending-is_young m now cutoff r valid instant h.0,
  All-is_young m now cutoff rows valid instant h.1,
)

after_first : 86400000000 ≤ micros year_1000
unfolding micros ordinal days_before_month
after_first = omega arith

-- With a maximal age whose cutoff is not before the year 1000, on rows whose times the program wrote in
-- the years 1000 to 9999,
-- `list_unconfirmed_anchors` reads the rows, up to the limit, that are unconfirmed, have a proof and
-- were submitted at most that many minutes before the clock's time: the texts that SQL compares are
-- in the order of the instants.
pub list_unconfirmed-is_young :
    (m : ℕ) (now : DateTime) (limit : ℤ) (db : Database)
    → in_range now ≡ true
    → micros year_1000 + m * 60000000 ≤ micros now
    → All HasTime db.anchors.rows
    → (list_unconfirmed_anchors (some m) now limit db).0
      ≡ map_result row_to_anchor (limit_rows limit (where_rows (is_young m now) db.anchors.rows))
unfolding list_unconfirmed_anchors
list_unconfirmed-is_young m now limit db valid early times =
    let late : 86400000000 ≤ micros year_1000 = after_first in
    let (cutoff, known, r, instant) = minus_minutes_lem m now valid (omega (arith, early, late)) in
    let four = micros-year cutoff r (omega (arith, early, instant)) in
    let rows = db.anchors.rows in
    let same =
      where_rows-same (is_pending (some cutoff)) (is_young m now) rows
        (All-is_young m now cutoff rows (r, four) instant times) in
    rw (known, same) refl
