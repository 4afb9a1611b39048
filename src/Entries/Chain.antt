-- ===== src/Entries/Chain.antt =====
-- What a chain is: each row holds the hash of the row before it and the hash of its own fields.
use nexuscone.Prelude.{
  ℕ, ◌≡◌, refl, sym, ◌∙◌, ap, ◌↔◌, true, not, Option, none, some, List, [], ◌∷◌, All,
}
use nexuscone.Text.{Text, Bytes, text_eq, text_eq_iff}
use nexuscone.Text.Hex.{hex, from_hex}
use nexuscone.Text.Utf8.{utf8}
use nexuscone.Json.{obj}
use nexuscone.Canonical.{Sha256, canonical_json}
use nexuscone.Canonical.Laws.{sha256_hex-canonical_json}
use nexuscone.Exec.{
  ok, or_raise, raise_if, unicode_error, hex_error, verifier_raised, signature_invalid,
  previous_hash_mismatch, entry_hash_mismatch, ◌>>◌,
}
use nexuscone.Exec.Inversion.{>>=-eq-ok, or_raise-eq-ok, raise_if-eq-ok, text_eq-true, not-false}
use nexuscone.Store.{EntryRow, EntryTable}
use nexuscone.Entries.{entry_fields, compute_entry_hash, event_type_of, format_version_of}
use nexuscone.Entries.Verify.{Verifier, check_signature, check_if_signed, check_row, check_rows}

-- The text that is hashed for a row, and its hash.
unfoldable pub message_of : EntryTable → EntryRow → Text
message_of t row = canonical_json (
    obj (
      entry_fields row.entry_id row.timestamp row.actor row.action row.payload row.previous_hash
        (event_type_of t row) (format_version_of t row)))

unfoldable pub hash_of : Sha256 → EntryTable → EntryRow → Text
unfolding message_of
hash_of h t row = hex (h.digest (message_of t row))

pub compute_entry_hash-total :
    (h : Sha256) (id : ℕ) (timestamp actor action payload previous event_type : Text) (v : ℕ)
    → compute_entry_hash h id timestamp actor action payload previous event_type v
      ≡ some (
          hex (
            h.digest (
              canonical_json
                (obj (entry_fields id timestamp actor action payload previous event_type v)))))
unfolding compute_entry_hash
compute_entry_hash-total h id timestamp actor action payload previous event_type v =
    sha256_hex-canonical_json h _

-- A signature that the verifier accepts over the entry hash. A row without one has nothing to show.
unfoldable pub SignatureHolds : Verifier → EntryRow → Option Text → Type 0
SignatureHolds v row none = Unit
SignatureHolds v row (some signature) =
    (message : Bytes) × (bytes : Bytes) × (utf8 row.entry_hash ≡ some message)
    × (from_hex signature ≡ some bytes)
    × (v.verify row.signing_key_id message bytes ≡ some true)

unfoldable pub IsAuthentic : Option Verifier → EntryRow → Type 0
unfolding SignatureHolds
IsAuthentic none row = Unit
IsAuthentic (some v) row = SignatureHolds v row row.signature

-- Rows that continue a chain whose last hash is `p`.
abbrev pub IsChain : Sha256 → EntryTable → Text → List EntryRow → Type 0
IsChain h t p [] = Unit
IsChain h t p (r ∷ rs) =
    (r.previous_hash ≡ p) × (r.entry_hash ≡ hash_of h t r) × IsChain h t r.entry_hash rs

-- The hash of the last row, or `p` where there is none.
abbrev pub head_hash : Text → List EntryRow → Text
head_hash p [] = p
head_hash p (r ∷ rs) = head_hash r.entry_hash rs

check_signature_sound :
    (v : Verifier) (row : EntryRow) (s : Option Text)
    → check_if_signed (some v) row s ≡ ok tt
    → SignatureHolds v row s
unfolding check_signature SignatureHolds
check_signature_sound v row none e = tt
check_signature_sound v row (some s) e =
    let (m, em, e₁) = >>=-eq-ok (or_raise unicode_error (utf8 row.entry_hash)) _ e in
    let (b, eb, e₂) = >>=-eq-ok (or_raise hex_error (from_hex s)) _ e₁ in
    let (valid, ev, e₃) =
      >>=-eq-ok (or_raise verifier_raised (v.verify row.signing_key_id m b)) _ e₂ in
    let accepted = raise_if-eq-ok (not valid) (signature_invalid row.entry_id) e₃ in
    (
      m,
      b,
      or_raise-eq-ok _ (utf8 row.entry_hash) em,
      or_raise-eq-ok _ (from_hex s) eb,
      or_raise-eq-ok _ (v.verify row.signing_key_id m b) ev ∙ ap some (not-false valid accepted),
    )

check_signature_complete :
    (v : Verifier) (row : EntryRow) (s : Option Text)
    → SignatureHolds v row s
    → check_if_signed (some v) row s ≡ ok tt
unfolding check_signature SignatureHolds
check_signature_complete v row none a = refl
check_signature_complete v row (some s) (m, b, em, eb, ev) = rw (em, eb, ev)

-- The checks of one row, with the hash written out.
check_row-eq :
    (h : Sha256) (v : Option Verifier) (t : EntryTable) (p : Text) (row : EntryRow)
    → check_row h v t p row ≡ (
        raise_if
          (not (text_eq row.previous_hash p))
          (previous_hash_mismatch row.entry_id p row.previous_hash)
        >> (raise_if
              (not (text_eq (hash_of h t row) row.entry_hash))
              (entry_hash_mismatch row.entry_id (hash_of h t row) row.entry_hash)
            >> check_if_signed v row row.signature))
unfolding check_row hash_of
check_row-eq h v t p row = rw (compute_entry_hash-total)

signed_sound :
    (v : Option Verifier) (row : EntryRow)
    → check_if_signed v row row.signature ≡ ok tt
    → IsAuthentic v row
unfolding IsAuthentic
signed_sound none row e = tt
signed_sound (some v) row e = check_signature_sound v row row.signature e

signed_complete :
    (v : Option Verifier) (row : EntryRow)
    → IsAuthentic v row
    → check_if_signed v row row.signature ≡ ok tt
unfolding IsAuthentic
signed_complete none row a = refl
signed_complete (some v) row a = check_signature_complete v row row.signature a

-- One row passes exactly when it links to `p`, holds its hash, and its signature holds.
pub check_row_iff :
    (h : Sha256) (v : Option Verifier) (t : EntryTable) (p : Text) (row : EntryRow)
    → (check_row h v t p row ≡ ok tt)
      ↔ ((row.previous_hash ≡ p) × (row.entry_hash ≡ hash_of h t row) × IsAuthentic v row)
check_row_iff h v t p row = (forward, backward)
  where
    forward :
        check_row h v t p row ≡ ok tt
        → (row.previous_hash ≡ p) × (row.entry_hash ≡ hash_of h t row) × IsAuthentic v row
    forward e =
        let (_, e₁, more) =
          >>=-eq-ok (raise_if (not (text_eq row.previous_hash p)) _) _
            (sym (check_row-eq h v t p row) ∙ e) in
        let (_, e₂, signed) =
          >>=-eq-ok (raise_if (not (text_eq (hash_of h t row) row.entry_hash)) _) _ more in
        (
          text_eq-true _ _ (raise_if-eq-ok _ _ e₁),
          sym (text_eq-true _ _ (raise_if-eq-ok _ _ e₂)),
          signed_sound v row signed,
        )

    backward :
        (row.previous_hash ≡ p) × (row.entry_hash ≡ hash_of h t row) × IsAuthentic v row
        → check_row h v t p row ≡ ok tt
    backward (linked, hashed, signed) =
        rw
          (
            check_row-eq,
            (text_eq_iff row.previous_hash p).1 linked,
            (text_eq_iff (hash_of h t row) row.entry_hash).1 (sym hashed),
          )
          (signed_complete v row signed)

-- The loop passes exactly on chains whose signatures hold.
pub check_rows_iff :
    (h : Sha256) (v : Option Verifier) (t : EntryTable) (p : Text) (rows : List EntryRow)
    → (check_rows h v t p rows ≡ ok tt) ↔ (IsChain h t p rows × All (IsAuthentic v) rows)
unfolding check_rows
check_rows_iff h v t p [] = (λ _. (tt, tt), λ _. refl)
check_rows_iff h v t p (row ∷ rows) =
    let rest = check_rows_iff h v t row.entry_hash rows in
    let here = check_row_iff h v t p row in
    (
      λ e.
          let (_, first, more) = >>=-eq-ok (check_row h v t p row) _ e in
          let (linked, hashed, signed) = here.0 first in
          let (chain, all) = rest.0 more in ((linked, hashed, chain), (signed, all)),
      λ (chain, all). rw (here.1 (chain.0, chain.1, all.0)) (rest.1 (chain.2, all.1)),
    )
