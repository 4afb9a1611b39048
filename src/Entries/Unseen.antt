-- ===== src/Entries/Unseen.antt =====
-- Changes to a table that `verify_chain` is not made to see: signatures taken away, the digits of a
-- format version from 2 on, and rows cut off at the end.
use nexuscone.Prelude.{
  ℕ, zero, suc, ◌≤◌, ◌≡◌, refl, sym, ◌∙◌, ap, true, Option, none, some, List, [], ◌∷◌, arith,
  length, leb, map, take, All,
}
use nexuscone.Text.{Text}
use nexuscone.Canonical.{Sha256}
use nexuscone.Exec.{ok}
use nexuscone.Store.{EntryRow, EntryTable, Database, genesis_previous_hash}
use nexuscone.Entries.{entry_fields}
use nexuscone.Entries.Verify.{Verifier, verify_chain}
use nexuscone.Entries.Chain.{hash_of, IsChain, IsAuthentic}
use nexuscone.Entries.Verdict.{verify_chain_iff}

-- Raw SQL on one row: drop its signature and set another version.
abbrev pub forge : ℕ → EntryRow → EntryRow
forge v r = record r { signature = none; signing_key_id = none; format_version = v }

-- A database whose rows were all changed so.
abbrev pub forged : ℕ → Database → Database
forged v db = record db { entries = record db.entries { rows = map (forge v) db.entries.rows } }

-- Every row has a version that hashes the event type.
abbrev pub IsModern : EntryRow → Type 0
IsModern r = 2 ≤ r.format_version

forge-hash_of :
    (h : Sha256) (t : EntryTable) (qs : List EntryRow) (v : ℕ) (r : EntryRow)
    → t.has_format_version ≡ true
    → 2 ≤ v
    → IsModern r
    → hash_of h (record t { rows = qs }) (forge v r) ≡ hash_of h t r
unfolding hash_of entry_fields
forge-hash_of h t qs v r f p q =
    let new : leb 2 v ≡ true = ground arith in
    let old : leb 2 r.format_version ≡ true = ground arith in rw (f, new, old)

forge-IsChain :
    (h : Sha256) (t : EntryTable) (qs : List EntryRow) (v : ℕ) (p : Text) (rows : List EntryRow)
    → t.has_format_version ≡ true
    → 2 ≤ v
    → All IsModern rows
    → IsChain h t p rows
    → IsChain h (record t { rows = qs }) p (map (forge v) rows)
forge-IsChain h t qs v p [] f b m c = tt
forge-IsChain h t qs v p (r ∷ rs) f b m c = (
  c.0,
  c.1 ∙ sym (forge-hash_of h t qs v r f b m.0),
  forge-IsChain h t qs v r.entry_hash rs f b m.1 c.2,
)

forge-IsAuthentic :
    (w : Option Verifier) (v : ℕ) (rows : List EntryRow) → All (IsAuthentic w) (map (forge v) rows)
unfolding IsAuthentic
forge-IsAuthentic w v [] = tt
forge-IsAuthentic none v (r ∷ rs) = (tt, forge-IsAuthentic none v rs)
forge-IsAuthentic (some w) v (r ∷ rs) = (tt, forge-IsAuthentic (some w) v rs)

length-map : {A B : Type 0} (f : A → B) (xs : List A) → length (map f xs) ≡ length xs
length-map f [] = refl
length-map f (x ∷ xs) = ap suc (length-map f xs)

-- Where `verify_chain` accepts rows of version 2 or more of a table that has that column, it
-- still accepts them, under any verifier, after every signature and key id was set to NULL and
-- every version to another from 2 on.
pub verify_chain-forged :
    (h : Sha256) (w x : Option Verifier) (db : Database) (n v : ℕ)
    → db.entries.has_format_version ≡ true
    → 2 ≤ v
    → All IsModern db.entries.rows
    → verify_chain h w db ≡ (ok n, db)
    → verify_chain h x (forged v db) ≡ (ok n, forged v db)
verify_chain-forged h w x db n v f b m e =
    let (chain, _, counted) = (verify_chain_iff h w db n).0 e in
    (verify_chain_iff h x (forged v db) n).1 (
      forge-IsChain h db.entries _ v genesis_previous_hash db.entries.rows f b m chain,
      forge-IsAuthentic x v db.entries.rows,
      counted ∙ sym (length-map (forge v) db.entries.rows),
    )

-- A database cut off after `n` entries.
abbrev pub truncated : ℕ → Database → Database
truncated n db = record db { entries = record db.entries { rows = take n db.entries.rows } }

take-IsChain :
    (h : Sha256) (t : EntryTable) (qs : List EntryRow) (n : ℕ) (p : Text) (rows : List EntryRow)
    → IsChain h t p rows
    → IsChain h (record t { rows = qs }) p (take n rows)
unfolding hash_of
take-IsChain h t qs zero p rows c = tt
take-IsChain h t qs (suc n) p [] c = tt
take-IsChain h t qs (suc n) p (r ∷ rs) c = (c.0, c.1, take-IsChain h t qs n r.entry_hash rs c.2)

All-take : (P : EntryRow → Type 0) (n : ℕ) (rows : List EntryRow) → All P rows → All P (take n rows)
All-take P zero rows a = tt
All-take P (suc n) [] a = tt
All-take P (suc n) (r ∷ rs) a = (a.0, All-take P n rs a.1)

length-take : (n : ℕ) (rows : List EntryRow) → n ≤ length rows → n ≡ length (take n rows)
length-take zero rows h = refl
length-take (suc n) [] h = absurd (omega arith)
length-take (suc n) (r ∷ rs) h = ap suc (length-take n rs (omega arith))

-- Where `verify_chain` accepts a table of `m` rows, it accepts its first `n` rows with the count
-- `n`, for every `n` up to `m`.
pub verify_chain-truncated :
    (h : Sha256) (w : Option Verifier) (db : Database) (m n : ℕ)
    → n ≤ m
    → verify_chain h w db ≡ (ok m, db)
    → verify_chain h w (truncated n db) ≡ (ok n, truncated n db)
verify_chain-truncated h w db m n b e =
    let (chain, all, counted) = (verify_chain_iff h w db m).0 e in
    (verify_chain_iff h w (truncated n db) n).1 (
      take-IsChain h db.entries _ n genesis_previous_hash db.entries.rows chain,
      All-take (IsAuthentic w) n db.entries.rows all,
      length-take n db.entries.rows (omega arith),
    )
