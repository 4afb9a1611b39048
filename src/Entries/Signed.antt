-- ===== src/Entries/Signed.antt =====
-- `log` followed by `verify_chain`, with and without signatures.
use nexuscone.Prelude.{
  ◌+◌, ◌<◌, ◌≡◌, refl, sym, subst, true, inl, inr, Option, none, some, List, [], ◌∷◌, length, All,
  All-append,
}
use nexuscone.Text.{Bytes}
use nexuscone.Text.Hex.{hex, hex-ascii, from_hex-hex}
use nexuscone.Text.Utf8.{utf8, utf8_ascii}
use nexuscone.Canonical.{Sha256}
use nexuscone.Exec.{ok}
use nexuscone.Store.{EntryRow, Database}
use nexuscone.Entries.{Signer, signing_key_of}
use nexuscone.Entries.Verify.{Verifier, verify_chain}
use nexuscone.Entries.Chain.{IsAuthentic, SignatureHolds}
use nexuscone.Entries.Verdict.{verify_chain_iff}
use nexuscone.Entries.Log.{Request, log_request, logged_row, signature_of, log_cases}
use nexuscone.Entries.Append.{
  log_all, accepted, IsWellFormed, log-IsWellFormed, log_all-IsWellFormed, length-log_all,
}

-- The signer returns a signature of every message, and the verifier accepts it under its key.
pub record Knows (v : Verifier) (s : Signer) : Type 0 where
  pub signature : Bytes → Bytes
  pub signs : (m : Bytes) → s.sign m ≡ ok (signature m)
  pub accepts : (m : Bytes) → v.verify (some s.key_id) m (signature m) ≡ some true
  pub bytes : (m : Bytes) → All (λ b. b < 256) (signature m)

abbrev KnowsIf : Verifier → Option Signer → Type 0
KnowsIf v none = Unit
KnowsIf v (some s) = Knows v s

-- Without a verifier nothing is asked of the signer.
abbrev pub Trusts : Option Verifier → Request → Type 0
Trusts none q = Unit
Trusts (some v) q = KnowsIf v q.signer

signature_of-holds :
    (h : Sha256) (v : Verifier) (s : Option Signer) (row : EntryRow) (m : Bytes)
    → row.entry_hash ≡ hex (h.digest m)
    → row.signing_key_id ≡ signing_key_of s
    → KnowsIf v s
    → SignatureHolds v row (signature_of s row.entry_hash)
unfolding SignatureHolds
signature_of-holds h v none row m hashed keyed k = tt
signature_of-holds h v (some s) row m hashed keyed k =
    let encoded : utf8 row.entry_hash ≡ some row.entry_hash =
      rw hashed (utf8_ascii (hex (h.digest m)) (hex-ascii (h.digest m) (h.digest_bytes m))) in
    let signature = k.signature row.entry_hash in
    rw (k.signs row.entry_hash) (
      row.entry_hash,
      signature,
      encoded,
      from_hex-hex signature (k.bytes row.entry_hash),
      subst (λ i. v.verify i row.entry_hash signature ≡ some true) (sym keyed)
          (k.accepts row.entry_hash),
    )

logged_row-IsAuthentic :
    (h : Sha256) (v : Option Verifier) (q : Request) (tip : Option EntryRow)
    → Trusts v q
    → IsAuthentic v (logged_row h q tip)
unfolding logged_row IsAuthentic
logged_row-IsAuthentic h none q tip k = tt
logged_row-IsAuthentic h (some v) q tip k =
    signature_of-holds h v q.signer (logged_row h q tip) _ refl refl k

log-IsAuthentic :
    (h : Sha256) (v : Option Verifier) (q : Request) (db : Database)
    → IsWellFormed h db
    → Trusts v q
    → All (IsAuthentic v) db.entries.rows
    → All (IsAuthentic v) (log_request h q db).1.entries.rows
log-IsAuthentic h v q db l k a = elim (log_cases h q db l.increasing) [
  | inl (_, same) ↦ rw same a
  | inr (_, same) ↦
      rw same
        (All-append (IsAuthentic v) db.entries.rows _ a (logged_row-IsAuthentic h v q _ k, tt))
]

log_all-IsAuthentic :
    (h : Sha256) (v : Option Verifier) (qs : List Request) (db : Database)
    → IsWellFormed h db
    → All (Trusts v) qs
    → All (IsAuthentic v) db.entries.rows
    → All (IsAuthentic v) (log_all h qs db).entries.rows
unfolding log_all
log_all-IsAuthentic h v [] db l k a = a
log_all-IsAuthentic h v (q ∷ qs) db l k a =
    log_all-IsAuthentic h v qs (log_request h q db).1 (log-IsWellFormed h q db l) k.1
      (log-IsAuthentic h v q db l k.0 a)

-- From a well-formed ledger (both columns, increasing ids, a chain) whose signatures hold for the
-- verifier, after any sequence of `log` calls by signers that always return and whose keys the
-- verifier knows, `verify_chain` returns the number of rows: the old ones and one for each accepted
-- call, one whose ints have at most 4300 digits, whose signer, if there is one, returns, and whose
-- actor, action, event type and key id have no surrogates; another call raises. Without a verifier
-- nothing is asked of signers and signatures.
pub verify_chain-log_all :
    (h : Sha256) (v : Option Verifier) (qs : List Request) (db : Database)
    → IsWellFormed h db
    → All (IsAuthentic v) db.entries.rows
    → All (Trusts v) qs
    → verify_chain h v (log_all h qs db)
      ≡ (ok (length db.entries.rows + accepted h qs db), log_all h qs db)
verify_chain-log_all h v qs db l a k =
    let after = log_all-IsWellFormed h qs db l in
    (verify_chain_iff h v (log_all h qs db) (length db.entries.rows + accepted h qs db)).1
      (after.chain, log_all-IsAuthentic h v qs db l k a, sym (length-log_all h qs db l))
