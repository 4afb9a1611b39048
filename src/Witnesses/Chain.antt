-- ===== src/Witnesses/Chain.antt =====
-- What an attestation proves, and the sub-chain of each witness.
use nexuscone.Prelude.{
  ℕ, ◌≡◌, refl, sym, ◌∙◌, ap, ◌↔◌, Bool, true, not, Option, none, some, List, [], ◌∷◌, ◌==◌,
}
use nexuscone.Text.{Text, Bytes, text_eq, text_eq_iff}
use nexuscone.Text.Hex.{hex, from_hex}
use nexuscone.Json.{obj}
use nexuscone.Canonical.{Sha256, canonical_json}
use nexuscone.Canonical.Laws.{sha256_hex-canonical_json}
use nexuscone.Exec.{
  ok, or_raise, raise_if, unknown_witness, prev_attestation_mismatch, attestation_hash_mismatch,
  ◌>>=◌, ◌>>◌,
}
use nexuscone.Exec.Inversion.{>>=-eq-ok, or_raise-eq-ok, raise_if-eq-ok, text_eq-true, not-false}
use nexuscone.Store.{AttestationRow}
use nexuscone.Store.Query.{first_row}
use nexuscone.Entries.Verify.{Verifier}
use nexuscone.Witnesses.{Witness}
use nexuscone.Witnesses.Attest.{attestation_fields, compute_attestation_hash}
use nexuscone.Witnesses.Verify.{check_attestation, signature_outcome, verdict}

-- The hash that an attestation should hold.
unfoldable pub attested_hash : Sha256 → AttestationRow → Text
attested_hash h row = hex (
    h.digest (
      canonical_json (
        obj (
          attestation_fields row.witness_id row.chain_head_entry_id row.chain_head_hash
            row.signed_at row.prev_attestation_hash))))

pub compute_attestation_hash-total :
    (h : Sha256) (row : AttestationRow)
    → compute_attestation_hash h row.witness_id row.chain_head_entry_id row.chain_head_hash
        row.signed_at row.prev_attestation_hash
      ≡ some (attested_hash h row)
unfolding compute_attestation_hash attested_hash
compute_attestation_hash-total h row = sha256_hex-canonical_json h _

abbrev pub registered : List Witness → ℕ → Option Witness
registered witnesses i = first_row (λ (w : Witness). w.witness_id == i) witnesses

-- An attestation by a registered witness that follows `prev`, holds its hash, and whose signature
-- over the bytes of the hash is that of the witness's key.
pub record IsAttested (h : Sha256) (v : Verifier) (witnesses : List Witness) (prev : Text)
    (row : AttestationRow) : Type 0 where
  pub witness : Witness
  pub message : Bytes
  pub signature : Bytes
  pub known : registered witnesses row.witness_id ≡ some witness
  pub linked : row.prev_attestation_hash ≡ prev
  pub hashed : row.attestation_hash ≡ attested_hash h row
  pub message_bytes : from_hex row.attestation_hash ≡ some message
  pub signature_bytes : from_hex row.signature_hex ≡ some signature
  pub accepted : v.verify (some witness.public_key_hex) message signature ≡ some true

-- One witness's attestations, each following the one before.
abbrev pub IsSubChain : Sha256 → Verifier → List Witness → Text → List AttestationRow → Type 0
IsSubChain h v ws prev [] = Unit
IsSubChain h v ws prev (r ∷ rs) = IsAttested h v ws prev r × IsSubChain h v ws r.attestation_hash rs

-- A verdict that lets the row pass.
verdict-inv :
    (v : Verifier) (key : Text) (m s : Option Bytes)
    → verdict v key m s ≡ some true
    → (a : Bytes) × (b : Bytes) × (m ≡ some a)
      × (s ≡ some b)
      × (v.verify (some key) a b ≡ some true)
verdict-inv v key none s e = cc
verdict-inv v key (some m) none e = cc
verdict-inv v key (some m) (some s) e = (m, s, refl, refl, e)

signature_outcome-inv :
    (row : AttestationRow) (o : Option Bool) → signature_outcome row o ≡ ok tt → o ≡ some true
signature_outcome-inv row none e = cc
signature_outcome-inv row (some b) e = ap some (not-false b (raise_if-eq-ok (not b) _ e))

-- The checks of one row, with the hash written out.
check_attestation-eq :
    (h : Sha256) (v : Verifier) (ws : List Witness) (prev : Text) (row : AttestationRow)
    → check_attestation h v ws prev row ≡ (
        or_raise (unknown_witness row.attestation_id row.witness_id) (registered ws row.witness_id)
        >>= λ w.
            raise_if (not (text_eq row.prev_attestation_hash prev)) (
              prev_attestation_mismatch row.attestation_id row.witness_id prev
                row.prev_attestation_hash)
            >> (raise_if (not (text_eq (attested_hash h row) row.attestation_hash)) (
                  attestation_hash_mismatch row.attestation_id row.witness_id
                    (attested_hash h row)
                    row.attestation_hash)
                >> signature_outcome row (
                    verdict v w.public_key_hex
                      (from_hex (attested_hash h row))
                      (from_hex row.signature_hex))))
unfolding check_attestation
check_attestation-eq h v ws prev row = rw (compute_attestation_hash-total h row)

-- One row passes exactly when it is attested.
pub check_attestation_iff :
    (h : Sha256) (v : Verifier) (ws : List Witness) (prev : Text) (row : AttestationRow)
    → (check_attestation h v ws prev row ≡ ok tt) ↔ IsAttested h v ws prev row
check_attestation_iff h v ws prev row = (forward, backward)
  where
    forward : check_attestation h v ws prev row ≡ ok tt → IsAttested h v ws prev row
    forward e =
        let (w, found, e₁) =
          >>=-eq-ok (or_raise _ (registered ws row.witness_id)) _
            (sym (check_attestation-eq h v ws prev row) ∙ e) in
        let (_, e₂, e₃) =
          >>=-eq-ok (raise_if (not (text_eq row.prev_attestation_hash prev)) _) _ e₁ in
        let (_, e₄, e₅) =
          >>=-eq-ok (raise_if (not (text_eq (attested_hash h row) row.attestation_hash)) _) _ e₃ in
        let same = sym (text_eq-true (attested_hash h row) _ (raise_if-eq-ok _ _ e₄)) in
        let (m, s, em, es, good) =
          verdict-inv v w.public_key_hex _ (from_hex row.signature_hex)
            (signature_outcome-inv row _ e₅) in
        record {
          witness = w;
          message = m;
          signature = s;
          known = or_raise-eq-ok _ _ found;
          linked = text_eq-true _ _ (raise_if-eq-ok _ _ e₂);
          hashed = same;
          message_bytes = ap from_hex same ∙ em;
          signature_bytes = es;
          accepted = good;
        }

    backward : IsAttested h v ws prev row → check_attestation h v ws prev row ≡ ok tt
    backward a = rw (
      check_attestation-eq,
      a.known,
      (text_eq_iff row.prev_attestation_hash prev).1 a.linked,
      (text_eq_iff (attested_hash h row) row.attestation_hash).1 (sym a.hashed),
      sym a.hashed,
      a.message_bytes,
      a.signature_bytes,
      a.accepted,
    )
