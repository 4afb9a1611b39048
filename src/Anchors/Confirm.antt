-- ===== src/Anchors/Confirm.antt =====
-- Reading an anchor after its confirmation.
use nexuscone.Prelude.{
  ℕ, ◌≡◌, refl, ap, inl, inr, Option, none, some, List, [], ◌∷◌, ◌==◌, Bool-cases, Option-cases,
}
use nexuscone.Time.{from_iso}
use nexuscone.Time.RoundTrip.{from_iso-iso, IsReadable}
use nexuscone.Json.Parse.{loads}
use nexuscone.Exec.{ok, err, date_error, json_error, type_error, anchor_not_found, or_raise}
use nexuscone.Exec.Inversion.{>>=-eq-ok, ok-injective}
use nexuscone.Store.{AnchorRow, Database}
use nexuscone.Store.Query.{first_row, update_rows}
use nexuscone.Anchors.{
  AnchorRecord, list_of, parse_iso, row_to_anchor, get_anchor, Confirmation, confirm_row,
  confirm_anchor,
}

-- The anchor with what is known of it now.
abbrev pub confirmed : Confirmation → AnchorRecord → AnchorRecord
confirmed c a = record a {
  ots_proof_blob = some c.upgraded_proof_blob;
  bitcoin_block_height = some c.bitcoin_block_height;
  bitcoin_block_hash = c.bitcoin_block_hash;
  confirmed_at = some c.confirmed_at;
}

row_to_anchor-confirm_row :
    (c : Confirmation) (row : AnchorRow) (a : AnchorRecord)
    → IsReadable c.confirmed_at
    → row_to_anchor row ≡ ok a
    → row_to_anchor (confirm_row c row) ≡ ok (confirmed c a)
unfolding row_to_anchor confirm_row
row_to_anchor-confirm_row c row a valid e =
    let (submitted, d, e₁) = >>=-eq-ok (or_raise date_error (from_iso row.submitted_at)) _ e in
    let (decoded, l, e₂) = >>=-eq-ok (or_raise json_error (loads row.calendar_servers)) _ e₁ in
    let (servers, s, e₃) = >>=-eq-ok (or_raise type_error (list_of decoded)) _ e₂ in
    let (stamp, p, e₄) = >>=-eq-ok (parse_iso row.confirmed_at) _ e₃ in
    let (gen_time, g, e₅) = >>=-eq-ok (parse_iso row.tsa_gen_time) _ e₄ in
    rw (d, l, s, from_iso-iso c.confirmed_at valid, g)
      (ap (λ (r : AnchorRecord). ok (confirmed c r)) (ok-injective _ _ e₅))

first_row-confirm_row :
    (i : ℕ) (c : Confirmation) (rows : List AnchorRow) (row : AnchorRow)
    → first_row (λ (r : AnchorRow). r.anchor_id == i) rows ≡ some row
    → first_row
        (λ (r : AnchorRow). r.anchor_id == i)
        (update_rows (λ (r : AnchorRow). r.anchor_id == i) (confirm_row c) rows)
      ≡ some (confirm_row c row)
unfolding first_row update_rows confirm_row
first_row-confirm_row i c [] row e = cc
first_row-confirm_row i c (r ∷ rows) row e = elim (Bool-cases (r.anchor_id == i)) [
  | inl here ↦ let same : some r ≡ some row = rw here at e in rw here rw here (ap again same)
  | inr other ↦ rw other rw other (first_row-confirm_row i c rows row (rw other at e))
]
  where
    again : Option AnchorRow → Option AnchorRow
    again none = none
    again (some r) = some (confirm_row c r)

pub get_anchor-confirm_anchor :
    (i : ℕ) (c : Confirmation) (a : AnchorRecord) (db : Database)
    → IsReadable c.confirmed_at
    → (get_anchor i db).0 ≡ ok a
    → let (r, db') = confirm_anchor i c db in
      (r ≡ ok (confirmed c a)) × (get_anchor i db' ≡ (ok (confirmed c a), db'))
unfolding get_anchor confirm_anchor
get_anchor-confirm_anchor i c a db valid e =
    elim (Option-cases (first_row (λ (r : AnchorRow). r.anchor_id == i) db.anchors.rows)) [
      | inl absent ↦ let never : err (anchor_not_found i) ≡ ok a = rw absent at e in cc
      | inr (row, found) ↦
          let read : row_to_anchor row ≡ ok a = rw found at e in
          let again = first_row-confirm_row i c db.anchors.rows row found in
          let returned = row_to_anchor-confirm_row c row a valid read in
          rw again (returned, rw returned refl)
    ]
