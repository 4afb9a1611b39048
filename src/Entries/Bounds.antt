-- ===== src/Entries/Bounds.antt =====
-- The texts in the two hash columns.
use nexuscone.Prelude.{
  ℕ, ◌/◌, ◌%◌, ◌≡◌, ◌<◌, refl, sym, subst, Bool, true, ◌&&◌, ◌||◌, Option, List, [], ◌∷◌, leb,
  length, All, arith, zero, suc, replicate,
}
use nexuscone.Text.{Text, Bytes}
use nexuscone.Text.Hex.{hex, hex_digit, length-hex}
use nexuscone.Canonical.{Sha256}
use nexuscone.Exec.{ok}
use nexuscone.Exec.Inversion.{>>=-eq-ok}
use nexuscone.Store.{EntryRow, EntryTable, Database, genesis_previous_hash}
use nexuscone.Entries.Chain.{IsChain, hash_of, message_of, check_rows_iff}
use nexuscone.Entries.Verify.{Verifier, check_rows, verify_chain}

-- A digit of `bytes.hex`.
abbrev pub is_hex : ℕ → Bool
is_hex c = (leb b'0' c && leb c b'9') || (leb b'a' c && leb c b'f')

-- The hexadecimal text of 32 bytes.
abbrev pub IsHash : Text → Type 0
IsHash t = (length t ≡ 64) × All (λ c. is_hex c ≡ true) t

is_hex-hex_digit : (d : ℕ) → d < 16 → is_hex (hex_digit d) ≡ true
unfolding hex_digit
is_hex-hex_digit d h = ground arith

is_hex-hex : (bs : Bytes) → All (λ b. b < 256) bs → All (λ c. is_hex c ≡ true) (hex bs)
unfolding hex
is_hex-hex [] h = tt
is_hex-hex (b ∷ bs) h = (
  is_hex-hex_digit (b / 16) (omega (arith, h.0)),
  (is_hex-hex_digit (b % 16) (omega arith), is_hex-hex bs h.1),
)

hex-IsHash : (h : Sha256) (m : Bytes) → IsHash (hex (h.digest m))
hex-IsHash h m = (
  omega (arith, length-hex (h.digest m), h.digest_length m),
  is_hex-hex (h.digest m) (h.digest_bytes m),
)

is_hex-zeros : (n : ℕ) → All (λ c. is_hex c ≡ true) (replicate n b'0')
is_hex-zeros zero = tt
is_hex-zeros (suc n) = (refl, is_hex-zeros n)

genesis-IsHash : IsHash genesis_previous_hash
genesis-IsHash = (refl, is_hex-zeros 64)

IsChain-IsHash :
    (h : Sha256) (t : EntryTable) (p : Text) (rows : List EntryRow)
    → IsHash p
    → IsChain h t p rows
    → All (λ (r : EntryRow). IsHash r.previous_hash × IsHash r.entry_hash) rows
unfolding hash_of
IsChain-IsHash h t p [] start chain = tt
IsChain-IsHash h t p (r ∷ rows) start (linked, hashed, rest) =
    let own : IsHash r.entry_hash = subst IsHash (sym hashed) (hex-IsHash h (message_of t r)) in
    ((subst IsHash (sym linked) start, own), IsChain-IsHash h t r.entry_hash rows own rest)

-- Where `verify_chain` returns, every row's previous hash and entry hash are 64 lower-case
-- hexadecimal digits.
pub verify_chain-IsHash :
    (h : Sha256) (v : Option Verifier) (db : Database) (n : ℕ)
    → (verify_chain h v db).0 ≡ ok n
    → All (λ (r : EntryRow). IsHash r.previous_hash × IsHash r.entry_hash) db.entries.rows
unfolding verify_chain
verify_chain-IsHash h v db n e =
    let rows = db.entries.rows in
    let (u, passed, same) = >>=-eq-ok (check_rows h v db.entries genesis_previous_hash rows) _ e in
    let chain = ((check_rows_iff h v db.entries genesis_previous_hash rows).0 passed).0 in
    IsChain-IsHash h db.entries genesis_previous_hash rows genesis-IsHash chain
