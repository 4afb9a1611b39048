-- ===== src/Cli/Chain.antt =====
-- What the exit code of the check of the entries says.
use nexuscone.Prelude.{
  ℕ, ◌≡◌, refl, ap, ◌↔◌, inl, inr, none, List, [], ◌∷◌, length, All, Bool-cases, arith,
}
use nexuscone.Canonical.{Sha256}
use nexuscone.Exec.{Result, ok, err}
use nexuscone.Exec.Inversion.{ok-injective}
use nexuscone.Store.{EntryRow, File, Database, genesis_previous_hash}
use nexuscone.Ledger.{open_file, init, close, file_of, method}
use nexuscone.Entries.Chain.{IsChain, IsAuthentic}
use nexuscone.Entries.Verify.{verify_chain}
use nexuscone.Entries.Verdict.{verify_chain_iff}
use nexuscone.Cli.{
  Report, chain_valid, is_chain_error, chain_report, with_ledger, verify_chain_command,
}

-- The command returned with this exit code.
abbrev pub ExitsWith : ℕ → Result Report → Type 0
ExitsWith code (err e) = ⊥
ExitsWith code (ok report) = report.code ≡ code

exits_at_0 : (r : Result ℕ) (n : ℕ) → r ≡ ok n → ExitsWith 0 (chain_report r)
exits_at_0 (ok m) n e = refl
exits_at_0 (err x) n e = cc

chain_report_iff :
    (r : Result ℕ) (n : ℕ)
    → (chain_report r ≡ ok (record { lines = chain_valid n ∷ []; code = 0 })) ↔ (r ≡ ok n)
chain_report_iff (ok m) n = (
  λ e. let same : m ≡ n = ap entries_of (ok-injective _ _ e) in ap (λ (k : ℕ). ok k) same,
  λ e. ap chain_report e,
)
  where
    entries_of : Report → ℕ
    entries_of r = elim r.lines [ [] ↦ 0 | l ∷ ls ↦ elim l [ chain_valid k ↦ k | _ ↦ 0 ] ]
chain_report_iff (err x) n = elim (Bool-cases (is_chain_error x)) [
  | inl chain ↦ (
    λ e. let codes : 1 ≡ 0 = ap (λ (r : Report). r.code) (ok-injective _ _ (rw chain at e)) in cc,
    λ e. cc,
  )
  | inr other ↦ (λ e. let never = rw other at e in cc, λ e. cc)
]

All-IsAuthentic : (rows : List EntryRow) → All (IsAuthentic none) rows
unfolding IsAuthentic
All-IsAuthentic [] = tt
All-IsAuthentic (r ∷ rows) = (tt, All-IsAuthentic rows)

-- Exit code 0 is the report of a count.
chain_report_exits : (r : Result ℕ) → ExitsWith 0 (chain_report r) → (n : ℕ) × (r ≡ ok n)
chain_report_exits (ok m) e = (m, refl)
chain_report_exits (err x) e = elim (Bool-cases (is_chain_error x)) [
  | inl chain ↦ let never : 1 ≡ 0 = rw chain at e in absurd (omega (arith, never))
  | inr other ↦ absurd (rw other at e)
]

-- `nexuscone-verify` without a flag returns with exit code 0 exactly when the entries of the file,
-- migrated, form a chain from the genesis hash. It then prints their number and nothing else.
-- Whatever the outcome, the file holds the migrated tables afterwards.
pub verify_chain_command_iff :
    (h : Sha256) (f : File)
    → let db = open_file f in
      let sound = IsChain h db.entries genesis_previous_hash db.entries.rows in
      let printed : Report = record {
        lines = chain_valid (length db.entries.rows) ∷ [];
        code = 0;
      } in
      (ExitsWith 0 (verify_chain_command h f).0 ↔ sound)
      × (((verify_chain_command h f).0 ≡ ok printed) ↔ sound)
      × ((verify_chain_command h f).1 ≡ file_of db)
unfolding verify_chain_command with_ledger init close method verify_chain
verify_chain_command_iff h f =
    let db = open_file f in
    let rows = db.entries.rows in
    let result = (verify_chain h none db).0 in
    let verdict = verify_chain_iff h none db in
    let report = chain_report_iff result (length rows) in
    let printed : IsChain h db.entries genesis_previous_hash rows → result ≡ ok (length rows) =
      λ chain.
        ap (λ (r : Result ℕ × Database). r.0)
          ((verdict (length rows)).1 (chain, All-IsAuthentic rows, refl)) in
    let counted : (n : ℕ) → result ≡ ok n → IsChain h db.entries genesis_previous_hash rows =
      λ n e. ((verdict n).0 (ap (λ (r : Result ℕ). (r, db)) e)).0 in
    (
      (
        λ e. let (n, returned) = chain_report_exits result e in counted n returned,
        λ chain. exits_at_0 result (length rows) (printed chain),
      ),
      (λ e. counted (length rows) (report.0 e), λ chain. report.1 (printed chain)),
      refl,
    )
