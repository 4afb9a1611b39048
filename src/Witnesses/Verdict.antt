-- ===== src/Witnesses/Verdict.antt =====
-- What `verify_witness_attestations` says of a table.
use nexuscone.Prelude.{
  ℕ, ◌+◌, ◌≡◌, sym, ap, subst, ◌↔◌, true, false, List, [], ◌∷◌, length, arith, ◌==◌, ==_iff,
  ==_refl, Bool-cases, inl, inr,
}
use nexuscone.Text.{Text}
use nexuscone.Canonical.{Sha256}
use nexuscone.Exec.{Result, ok, map_result}
use nexuscone.Exec.Inversion.{>>=-eq-ok}
use nexuscone.Store.{AttestationRow, Database, genesis_previous_hash}
use nexuscone.Entries.Verify.{Verifier}
use nexuscone.Witnesses.{Witness, row_to_witness}
use nexuscone.Witnesses.Verify.{
  expected_of, sort_by_witness, check_attestation, check_attestations, verify_witness_attestations,
}
use nexuscone.Witnesses.Sorted.{
  signed_by, signed_by-nil, signed_by-own, signed_by-other, sort-signed_by, length-sort,
}
use nexuscone.Witnesses.Chain.{IsSubChain, check_attestation_iff}

expected_of-own :
    (i w : ℕ) (t : Text) (d : List (ℕ × Text)) → (i == w) ≡ true → expected_of ((i, t) ∷ d) w ≡ t
unfolding expected_of
expected_of-own i w t d e = rw e

expected_of-other :
    (i w : ℕ) (t : Text) (d : List (ℕ × Text))
    → (i == w) ≡ false
    → expected_of ((i, t) ∷ d) w ≡ expected_of d w
unfolding expected_of
expected_of-other i w t d e = rw e

count_nil : (n : ℕ) → n + 0 ≡ n
count_nil n = omega arith

module _ (h : Sha256) (v : Verifier) (ws : List Witness) where
  -- Every witness's rows are a sub-chain of what the dict expects of it.
  abbrev AllSubChains : List (ℕ × Text) → List AttestationRow → Type 0
  AllSubChains d rows = (w : ℕ) → IsSubChain h v ws (expected_of d w) (signed_by w rows)

  abbrev after : List (ℕ × Text) → AttestationRow → List (ℕ × Text)
  after d row = (row.witness_id, row.attestation_hash) ∷ d

  with_row :
      (d : List (ℕ × Text)) (row : AttestationRow) (rows : List AttestationRow)
      → check_attestation h v ws (expected_of d row.witness_id) row ≡ ok tt
      → AllSubChains (after d row) rows
      → AllSubChains d (row ∷ rows)
  with_row d row rows good rest w = elim (Bool-cases (row.witness_id == w)) [
    | inl own ↦
        let same = (==_iff row.witness_id w).0 own in
        let att = (check_attestation_iff h v ws (expected_of d row.witness_id) row).0 good in
        rw (signed_by-own w row rows own) (
          rw (sym same) att,
          subst (λ t. IsSubChain h v ws t (signed_by w rows))
              (expected_of-own row.witness_id w row.attestation_hash d own) (rest w),
        )
    | inr other ↦ rw (signed_by-other w row rows other) (
        subst (λ t. IsSubChain h v ws t (signed_by w rows))
          (expected_of-other row.witness_id w row.attestation_hash d other) (rest w))
  ]

  without_row :
      (d : List (ℕ × Text)) (row : AttestationRow) (rows : List AttestationRow)
      → AllSubChains d (row ∷ rows)
      → (check_attestation h v ws (expected_of d row.witness_id) row ≡ ok tt)
        × AllSubChains (after d row) rows
  without_row d row rows all =
      let w = row.witness_id in
      let here =
        subst (IsSubChain h v ws (expected_of d w)) (signed_by-own w row rows (==_refl w))
          (all w) in
      ((check_attestation_iff h v ws (expected_of d w) row).1 here.0, later here.1)
    where
      later :
          IsSubChain h v ws row.attestation_hash (signed_by row.witness_id rows)
          → AllSubChains (after d row) rows
      later own_rest w = elim (Bool-cases (row.witness_id == w)) [
        | inl own ↦
            let same = (==_iff row.witness_id w).0 own in
            rw (expected_of-own row.witness_id w row.attestation_hash d own, sym same) own_rest
        | inr other ↦
            rw (expected_of-other row.witness_id w row.attestation_hash d other) (
              subst (IsSubChain h v ws (expected_of d w)) (signed_by-other w row rows other)
                (all w))
      ]

  check_attestations_iff :
      (d : List (ℕ × Text)) (n m : ℕ) (rows : List AttestationRow)
      → (check_attestations h v ws d n rows ≡ ok m) ↔ (AllSubChains d rows × (m ≡ n + length rows))
  unfolding check_attestations
  check_attestations_iff d n m [] =
      (λ e. (λ w. rw (signed_by-nil w) tt, cc (count_nil n, e)), λ (_, e). cc (count_nil n, e))
  check_attestations_iff d n m (row ∷ rows) =
      let rest = check_attestations_iff (after d row) (n + 1) m rows in
      (
        λ e.
            let (_, good, more) =
              >>=-eq-ok (check_attestation h v ws (expected_of d row.witness_id) row) _ e in
            let (chains, counted) = rest.0 more in
            (with_row d row rows good chains, omega (arith, counted)),
        λ (all, counted).
            let (good, chains) = without_row d row rows all in
            rw good (rest.1 (chains, omega (arith, counted))),
      )

-- `verify_witness_attestations` returns a number exactly when every witness row can be read, the
-- attestations of each witness form a chain of their own from the genesis hash, each by a registered
-- witness with its hash and a signature of that witness's key, and the number is that of the rows.
pub verify_witness_attestations_iff :
    (h : Sha256) (v : Verifier) (db : Database) (n : ℕ)
    → (verify_witness_attestations h v db ≡ (ok n, db)) ↔ (
        (ws : List Witness) × (map_result row_to_witness db.witnesses.rows ≡ ok ws)
        × ((w : ℕ) → IsSubChain h v ws genesis_previous_hash (signed_by w db.attestations.rows))
        × (n ≡ length db.attestations.rows))
unfolding verify_witness_attestations
verify_witness_attestations_iff h v db n =
    let rows = sort_by_witness db.attestations.rows in
    (
      λ e.
          let (ws, read, passed) =
            >>=-eq-ok (map_result row_to_witness db.witnesses.rows) _
              (ap (λ (p : Result ℕ × Database). p.0) e) in
          let (chains, counted) = (check_attestations_iff h v ws [] 0 n rows).0 passed in
          (
            ws,
            read,
            λ w.
                subst (IsSubChain h v ws genesis_previous_hash)
                  (sort-signed_by w db.attestations.rows) (unfold expected_of in chains w),
            omega (arith, counted, length-sort db.attestations.rows),
          ),
      λ (ws, read, chains, counted).
          let sorted : AllSubChains h v ws [] rows = λ w.
            subst (IsSubChain h v ws (expected_of [] w))
              (sym (sort-signed_by w db.attestations.rows)) (unfold expected_of in chains w) in
          let passed =
            (check_attestations_iff h v ws [] 0 n rows).1
              (sorted, omega (arith, counted, length-sort db.attestations.rows)) in
          rw (read, passed),
    )
