-- ===== src/Entries/Verdict.antt =====
-- What `verify_chain` says of a table.
use nexuscone.Prelude.{ℕ, ◌≡◌, refl, ap, ◌↔◌, inl, inr, Option, List, [], ◌∷◌, ◌++◌, length, All}
use nexuscone.Text.{Text}
use nexuscone.Canonical.{Sha256}
use nexuscone.Exec.{Result, ok, err, Error}
use nexuscone.Exec.Inversion.{>>=-eq-ok, >>=-eq-err}
use nexuscone.Store.{EntryRow, EntryTable, Database, genesis_previous_hash}
use nexuscone.Entries.Verify.{Verifier, check_row, check_rows, verify_chain}
use nexuscone.Entries.Chain.{IsAuthentic, IsChain, head_hash, check_row_iff, check_rows_iff}

-- `verify_chain` returns a number exactly when the rows form a chain from the genesis hash and
-- every signature holds, the number being that of the rows; it leaves the database as it was.
pub verify_chain_iff :
    (h : Sha256) (v : Option Verifier) (db : Database) (n : ℕ)
    → (verify_chain h v db ≡ (ok n, db)) ↔ (
        IsChain h db.entries genesis_previous_hash db.entries.rows
        × All (IsAuthentic v) db.entries.rows
        × (n ≡ length db.entries.rows))
unfolding verify_chain
verify_chain_iff h v db n =
    let rows = db.entries.rows in
    let checks = check_rows_iff h v db.entries genesis_previous_hash rows in
    (
      λ e.
          let (_, passed, counted) =
            >>=-eq-ok (check_rows h v db.entries genesis_previous_hash rows) _
              (ap (λ (p : Result ℕ × Database). p.0) e) in
          let (chain, all) = checks.0 passed in (chain, all, cc counted),
      λ (chain, all, counted). rw (checks.1 (chain, all), counted),
    )

-- Where the loop stops: everything before the row passes, and the row does not.
pub record StopsAt (h : Sha256) (v : Option Verifier) (t : EntryTable) (p : Text)
    (rows : List EntryRow) (e : Error) : Type 0 where
  pub before : List EntryRow
  pub row : EntryRow
  pub behind : List EntryRow
  pub split : rows ≡ before ++ row ∷ behind
  pub chain : IsChain h t p before
  pub authentic : All (IsAuthentic v) before
  pub raised : check_row h v t (head_hash p before) row ≡ err e

check_rows-StopsAt :
    (h : Sha256) (v : Option Verifier) (t : EntryTable) (p : Text) (rows : List EntryRow)
    (e : Error)
    → check_rows h v t p rows ≡ err e
    → StopsAt h v t p rows e
unfolding check_rows
check_rows-StopsAt h v t p [] e f = cc
check_rows-StopsAt h v t p (row ∷ rows) e f = elim (>>=-eq-err (check_row h v t p row) _ f) [
  | inl bad ↦ record {
    before = [];
    row = row;
    behind = rows;
    split = refl;
    chain = tt;
    authentic = tt;
    raised = bad;
  }
  | inr (_, good, later) ↦
      let s = check_rows-StopsAt h v t row.entry_hash rows e later in
      let (linked, hashed, signed) = (check_row_iff h v t p row).0 good in
      record {
        before = row ∷ s.before;
        row = s.row;
        behind = s.behind;
        split = ap (λ rs. row ∷ rs) s.split;
        chain = (linked, hashed, s.chain);
        authentic = (signed, s.authentic);
        raised = s.raised;
      }
]

-- Where `verify_chain` raises, the rows before some row form a chain from the genesis hash whose
-- signatures hold, and the check of that row raises the same error.
pub verify_chain-err :
    (h : Sha256) (v : Option Verifier) (db : Database) (e : Error)
    → (verify_chain h v db).0 ≡ err e
    → StopsAt h v db.entries genesis_previous_hash db.entries.rows e
unfolding verify_chain
verify_chain-err h v db e f =
    let rows = db.entries.rows in
    elim (>>=-eq-err (check_rows h v db.entries genesis_previous_hash rows) _ f) [
      | inl bad ↦ check_rows-StopsAt h v db.entries genesis_previous_hash rows e bad
      | inr (_, _, never) ↦ cc
    ]
