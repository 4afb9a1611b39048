-- ===== src/Cli/Limit.antt =====
-- The anchors that the checks look at.
use nexuscone.Prelude.{ℕ, ◌≡◌, refl, ap, true, none, some, List, [], ◌∷◌, ◌++◌, length, take, subst}
use nexuscone.Prelude.Int.{pos}
use nexuscone.Canonical.{Sha256}
use nexuscone.Exec.{Result, ok, map_result, ◌>>=◌}
use nexuscone.Store.{AnchorRow, AnchorTable, File}
use nexuscone.Store.Query.{where_rows, limit_rows}
use nexuscone.Ledger.{open_file, migrate_anchors_columns, init, close, method}
use nexuscone.Ots.{Ots}
use nexuscone.Rfc3161.{Tsa}
use nexuscone.Anchors.{AnchorRecord, row_to_anchor, confirmed_is, get_anchors}
use nexuscone.Cli.{with_ledger, check_anchor_list, no_anchors, anchor_report, check_anchors_command}
use nexuscone.Cli.Commands.{check_tst_list, no_tokens, tst_report, check_tst_command}

take-length : {A : Type 0} (xs ys : List A) → take (length xs) (xs ++ ys) ≡ take (length xs) xs
take-length [] ys = refl
take-length (x ∷ xs) ys = ap (λ zs. x ∷ zs) (take-length xs ys)

take-append : {A : Type 0} (n : ℕ) (xs ys : List A) → length xs ≡ n → take n (xs ++ ys) ≡ take n xs
take-append n xs ys e = subst (λ m. take m (xs ++ ys) ≡ take m xs) e (take-length xs ys)

where_rows-all : (rows : List AnchorRow) → where_rows (confirmed_is none) rows ≡ rows
unfolding where_rows
where_rows-all [] = refl
where_rows-all (r ∷ rows) = ap (λ rs. r ∷ rs) (where_rows-all rows)

-- A file with these anchors.
abbrev pub with_anchors : File → AnchorTable → List AnchorRow → File
with_anchors f t rows = record f { anchors = some (record t { rows = rows }) }

-- The columns of the current schema are there.
abbrev pub IsCurrent : AnchorTable → Type 0
IsCurrent t = (t.has_tst_blob ≡ true) × (t.has_tsa_url ≡ true) × (t.has_tsa_gen_time ≡ true)

get_anchors-limit :
    (f : File) (t : AnchorTable) (rows more : List AnchorRow)
    → IsCurrent t
    → length rows ≡ 500
    → (get_anchors none (pos 500) (open_file (with_anchors f t (rows ++ more)))).0
      ≡ (get_anchors none (pos 500) (open_file (with_anchors f t rows))).0
unfolding get_anchors open_file migrate_anchors_columns limit_rows
get_anchors-limit f t rows more (tst, url, time) e =
    rw (tst, url, time, where_rows-all (rows ++ more), where_rows-all rows)
      (ap (λ (rs : List AnchorRow). map_result row_to_anchor rs) (take-append 500 rows more e))

-- `--check-anchors` and `--check-tst` look at the first 500 anchors of a file of the current schema:
-- what they print and their exit code are the same whatever anchors come after those.
pub checks-limit :
    (ots : Ots) (tsa : Tsa) (h : Sha256) (f : File) (t : AnchorTable) (rows more : List AnchorRow)
    → IsCurrent t
    → length rows ≡ 500
    → ((check_anchors_command ots (with_anchors f t (rows ++ more))).0
        ≡ (check_anchors_command ots (with_anchors f t rows)).0)
      × ((check_tst_command tsa h (with_anchors f t (rows ++ more))).0
          ≡ (check_tst_command tsa h (with_anchors f t rows)).0)
unfolding check_anchors_command check_tst_command with_ledger init close method
checks-limit ots tsa h f t rows more current e =
    let same = get_anchors-limit f t rows more current e in
    (
      ap
          (λ (r : Result (List AnchorRecord)).
            r >>= λ anchors. check_anchor_list ots no_anchors anchors >>= λ c. ok (anchor_report c))
          same,
      ap
          (λ (r : Result (List AnchorRecord)).
            r >>= λ anchors. check_tst_list tsa h no_tokens anchors >>= λ c. ok (tst_report c))
          same,
    )
