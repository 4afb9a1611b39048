-- ===== src/Witnesses/Growth.antt =====
-- `attest_with_witness` followed by `verify_witness_attestations`.
use nexuscone.Prelude.{
  ℕ, ◌+◌, ◌≡◌, refl, sym, ◌∙◌, ap, subst, some, List, [], ◌∷◌, ◌++◌, length-append, last?, arith,
  ◌==◌, ==_iff, Bool-cases, inl, inr,
}
use mathlib.Core.List.{append-nil}
use nexuscone.Text.{Text}
use nexuscone.Text.Hex.{from_hex-hex}
use nexuscone.Time.{DateTime, from_iso}
use nexuscone.Canonical.{Sha256}
use nexuscone.Exec.{ok, date_error, or_raise, map_result}
use nexuscone.Exec.Inversion.{>>=-eq-ok, ok-injective}
use nexuscone.Store.{WitnessRow, AttestationRow, AttestationTable, Database, genesis_previous_hash}
use nexuscone.Store.Query.{where_rows, first_row, first_row-here, first_row-later}
use nexuscone.Entries.{Signer}
use nexuscone.Entries.Verify.{Verifier}
use nexuscone.Entries.Signed.{Knows}
use nexuscone.Witnesses.{Witness, optional_iso, row_to_witness}
use nexuscone.Witnesses.Attest.{prev_hash_of, last_attestation_hash, attest_with_witness}
use nexuscone.Witnesses.Verify.{verify_witness_attestations}
use nexuscone.Witnesses.Sorted.{
  signed_by, signed_by-own, signed_by-other, signed_by-nil, signed_by-append,
}
use nexuscone.Witnesses.Chain.{registered, attested_hash, IsAttested, IsSubChain}
use nexuscone.Witnesses.Verdict.{verify_witness_attestations_iff}
use nexuscone.Witnesses.Signing.{
  CanAttest, signed_digest, attestation_at, attested_row, with_attestation, attest_with_witness_lem,
}

-- The hash of the last attestation, or `p` where there is none.
abbrev last_hash : Text → List AttestationRow → Text
last_hash p [] = p
last_hash p (r ∷ rs) = last_hash r.attestation_hash rs

last_hash-prev_hash_of :
    (r : AttestationRow) (rs : List AttestationRow)
    → last_hash r.attestation_hash rs ≡ prev_hash_of (last? (r ∷ rs))
last_hash-prev_hash_of r [] = refl
last_hash-prev_hash_of r (q ∷ rs) = last_hash-prev_hash_of q rs

-- What `_get_last_witness_attestation_hash` returns is the hash at the end of the sub-chain.
last_hash_lem :
    (i : ℕ) (t : AttestationTable)
    → last_attestation_hash i t ≡ last_hash genesis_previous_hash (signed_by i t.rows)
unfolding last_attestation_hash signed_by
last_hash_lem i t = sym (tip (where_rows (λ r. r.witness_id == i) t.rows))
  where
    tip : (rs : List AttestationRow) → last_hash genesis_previous_hash rs ≡ prev_hash_of (last? rs)
    tip [] = refl
    tip (r ∷ rs) = last_hash-prev_hash_of r rs

some-injective : {A : Type 0} (a b : A) → some a ≡ some b → a ≡ b
some-injective a b e = cc

row_to_witness-id :
    (r : WitnessRow) (w : Witness) → row_to_witness r ≡ ok w → w.witness_id ≡ r.witness_id
unfolding row_to_witness
row_to_witness-id r w e =
    let (_, _, e₁) = >>=-eq-ok (optional_iso r.retired_at) _ e in
    let (_, _, e₂) = >>=-eq-ok (or_raise date_error (from_iso r.created_at)) _ e₁ in
    sym (ap (λ (x : Witness). x.witness_id) (ok-injective _ _ e₂))

-- A witness that the table has is a witness that the verification knows.
registered_lem :
    (i : ℕ) (rows : List WitnessRow) (row : WitnessRow) (ws : List Witness) (w : Witness)
    → map_result row_to_witness rows ≡ ok ws
    → first_row (λ (r : WitnessRow). r.witness_id == i) rows ≡ some row
    → row_to_witness row ≡ ok w
    → registered ws i ≡ some w
unfolding map_result first_row
registered_lem i [] row ws w e f g = cc
registered_lem i (r ∷ rows) row ws w e f g =
    let (x, read, e₁) = >>=-eq-ok (row_to_witness r) _ e in
    let (xs, reads, e₂) = >>=-eq-ok (map_result row_to_witness rows) _ e₁ in
    let same = row_to_witness-id r x read in
    rw (sym (ok-injective (x ∷ xs) ws e₂)) rw same (elim (Bool-cases (r.witness_id == i)) [
      | inl own ↦
          let same_row : r ≡ row =
            some-injective _ _
              (sym (first_row-here (λ (y : WitnessRow). y.witness_id == i) r rows own) ∙ f) in
          let same_witness : x ≡ w = ok-injective _ _ (sym read ∙ ap row_to_witness same_row ∙ g) in
          rw (own, same_witness)
      | inr other ↦
          let later =
            sym (first_row-later (λ (y : WitnessRow). y.witness_id == i) r rows other) ∙ f in
          rw other (registered_lem i rows row xs w reads later g)
    ])

IsSubChain-snoc :
    (h : Sha256) (v : Verifier) (ws : List Witness) (p : Text) (rs : List AttestationRow)
    (r : AttestationRow)
    → IsSubChain h v ws p rs
    → IsAttested h v ws (last_hash p rs) r
    → IsSubChain h v ws p (rs ++ r ∷ [])
IsSubChain-snoc h v ws p [] r c a = (a, tt)
IsSubChain-snoc h v ws p (q ∷ rs) r c a =
    (c.0, IsSubChain-snoc h v ws q.attestation_hash rs r c.1 a)

-- A row behind the others lengthens the sub-chain of its witness and no other.
all_grow :
    (h : Sha256) (v : Verifier) (ws : List Witness) (r : AttestationRow) (rs : List AttestationRow)
    → IsAttested h v ws (last_hash genesis_previous_hash (signed_by r.witness_id rs)) r
    → ((w : ℕ) → IsSubChain h v ws genesis_previous_hash (signed_by w rs))
    → (w : ℕ) → IsSubChain h v ws genesis_previous_hash (signed_by w (rs ++ r ∷ []))
all_grow h v ws r rs a all w = elim (Bool-cases (r.witness_id == w)) [
  | inl own ↦
      let same = (==_iff r.witness_id w).0 own in
      let here =
        subst (λ i. IsAttested h v ws (last_hash genesis_previous_hash (signed_by i rs)) r) same
          a in
      rw (signed_by-append w rs (r ∷ []), signed_by-own w r [] own, signed_by-nil w)
        (IsSubChain-snoc h v ws genesis_previous_hash (signed_by w rs) r (all w) here)
  | inr other ↦
      rw
        (
          signed_by-append w rs (r ∷ []),
          signed_by-other w r [] other,
          signed_by-nil w,
          append-nil (signed_by w rs),
        )
        (all w)
]

-- The row of a signer that the verifier knows is attested.
attested_row-IsAttested :
    (h : Sha256) (v : Verifier) (now : DateTime) (i : ℕ) (signer : Signer) (db : Database)
    (c : CanAttest db i signer) (ws : List Witness) (k : Knows v signer)
    → map_result row_to_witness db.witnesses.rows ≡ ok ws
    → let signature = k.signature (signed_digest h now i c.head db.attestations) in
      let row = attested_row h now i signature c.head db.attestations in
      IsAttested h v ws (last_hash genesis_previous_hash (signed_by i db.attestations.rows)) row
unfolding attested_row signed_digest attested_hash
attested_row-IsAttested h v now i signer db c ws k e =
    let digest = signed_digest h now i c.head db.attestations in
    record {
      witness = c.witness;
      message = digest;
      signature = k.signature digest;
      known = registered_lem i db.witnesses.rows c.witness_row ws c.witness e c.found c.readable;
      linked = last_hash_lem i db.attestations;
      hashed = refl;
      message_bytes = from_hex-hex digest (h.digest_bytes _);
      signature_bytes = from_hex-hex (k.signature digest) (k.bytes digest);
      accepted = rw c.keyed (k.accepts digest);
    }

-- Where the attestations pass, and a witness may sign whose signer always returns and whose key the
-- verifier knows, `attest_with_witness` returns, and the attestations pass with one more in the count.
pub verify-attest :
    (h : Sha256) (v : Verifier) (now : DateTime) (i : ℕ) (signer : Signer) (db : Database) (n : ℕ)
    (c : CanAttest db i signer) (k : Knows v signer)
    → verify_witness_attestations h v db ≡ (ok n, db)
    → let signature = k.signature (signed_digest h now i c.head db.attestations) in
      let row = attested_row h now i signature c.head db.attestations in
      let db' = with_attestation db row in
      (attest_with_witness h now i signer db ≡ (ok (some (attestation_at now row)), db'))
      × (verify_witness_attestations h v db' ≡ (ok (n + 1), db'))
unfolding attested_row
verify-attest h v now i signer db n c k e =
    let digest = signed_digest h now i c.head db.attestations in
    let row = attested_row h now i (k.signature digest) c.head db.attestations in
    let (ws, read, chains, counted) = (verify_witness_attestations_iff h v db n).0 e in
    let attested = attested_row-IsAttested h v now i signer db c ws k read in
    let grown = all_grow h v ws row db.attestations.rows attested chains in
    (
      attest_with_witness_lem h now i signer db c (k.signature digest) (k.signs digest),
      (verify_witness_attestations_iff h v (with_attestation db row) (n + 1)).1
          (ws, read, grown, omega (arith, counted, length-append db.attestations.rows (row ∷ []))),
    )
