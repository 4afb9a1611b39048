-- ===== src/Cli/Verdicts.antt =====
-- What the exit code of the check of the anchors says.
use nexuscone.Prelude.{
  ℕ, ◌+◌, ◌≤◌, ◌≡◌, refl, sym, ◌∙◌, ap, ◌↔◌, ◌⊎◌, inl, inr, Option, none, some, List, [], ◌∷◌, ◌++◌,
  ◌==◌, ==_iff, ==_refl, length, arith, All,
}
use nexuscone.Prelude.Int.{pos}
use nexuscone.Text.{Text, Bytes}
use nexuscone.Text.Hex.{from_hex}
use nexuscone.Time.{DateTime}
use nexuscone.Exec.{
  ok, err, hex_error, timestamp_error, no_bitcoin_attestation, height_mismatch, or_raise,
}
use nexuscone.Exec.Inversion.{>>=-eq-ok, or_raise-eq-ok, raise_if-eq-ok, not-false, Result-cases}
use nexuscone.Store.{File}
use nexuscone.Ledger.{open_file, init, close, method}
use nexuscone.Ots.{Timestamp, Ots}
use nexuscone.Anchors.{AnchorRecord, get_anchors}
use nexuscone.Poller.Tree.{first_bitcoin_attestation}
use nexuscone.Cli.{
  Report, anchor_pending, with_ledger, check_proof, texts_of, AnchorTally, add_proof, check_parts,
  check_anchor, check_anchor_list, no_anchors, exit_code, anchor_report, check_anchors_command,
}

-- The stored proof is about the chain head, and the first block it attests is that of the row.
pub record IsVerified (ots : Ots) (a : AnchorRecord) (blob : Bytes) : Type 0 where
  pub msg : Bytes
  pub proof : Timestamp
  pub height : ℕ
  pub head_bytes : from_hex a.chain_head_hash ≡ some msg
  pub read : ots.deserialize blob msg ≡ some proof
  pub block : first_bitcoin_attestation ots proof ≡ some height
  pub stored : a.bitcoin_block_height ≡ some height

check_proof_iff :
    (ots : Ots) (a : AnchorRecord) (blob : Bytes)
    → (check_proof ots a blob ≡ ok tt) ↔ IsVerified ots a blob
unfolding check_proof
check_proof_iff ots a blob = (
  λ e.
      let (msg, m, e₁) = >>=-eq-ok (or_raise hex_error (from_hex a.chain_head_hash)) _ e in
      let (t, d, e₂) = >>=-eq-ok (or_raise timestamp_error (ots.deserialize blob msg)) _ e₁ in
      let (h, b, e₃) =
        >>=-eq-ok (or_raise no_bitcoin_attestation (first_bitcoin_attestation ots t)) _ e₂ in
      let (k, s, e₄) = >>=-eq-ok (or_raise (height_mismatch h) a.bitcoin_block_height) _ e₃ in
      let same = (==_iff h k).0 (not-false (h == k) (raise_if-eq-ok _ _ e₄)) in
      record {
        msg = msg;
        proof = t;
        height = h;
        head_bytes = or_raise-eq-ok hex_error (from_hex a.chain_head_hash) m;
        read = or_raise-eq-ok timestamp_error (ots.deserialize blob msg) d;
        block = or_raise-eq-ok no_bitcoin_attestation (first_bitcoin_attestation ots t) b;
        stored =
            or_raise-eq-ok (height_mismatch h) a.bitcoin_block_height s
            ∙ ap (λ (j : ℕ). some j) (sym same);
      },
  λ v. rw (v.head_bytes, v.read, v.block, v.stored) rw (==_refl v.height) refl,
)

abbrev pub PassesParts : Ots → AnchorRecord → Option DateTime → Option Bytes → Type 0
PassesParts ots a none blob = Unit
PassesParts ots a (some t) none = Unit
PassesParts ots a (some t) (some blob) = IsVerified ots a blob

-- A confirmed anchor with a proof has a verified one; any other anchor passes.
abbrev pub Passes : Ots → AnchorRecord → Type 0
Passes ots a = PassesParts ots a a.confirmed_at a.ots_proof_blob

-- The calendars of an anchor are texts, as `anchor` stores them.
abbrev pub HasTexts : AnchorRecord → Type 0
HasTexts a = (ts : List Text) × (texts_of a.calendar_servers ≡ ok ts)

abbrev total : AnchorTally → ℕ
total c = c.confirmed + c.pending + c.failed

abbrev pending_one : AnchorRecord → List Text → AnchorTally → AnchorTally
pending_one a ts c = record c {
  pending = c.pending + 1;
  lines = c.lines ++ anchor_pending a.chain_head_hash a.submitted_at ts ∷ [];
}

-- One more anchor is counted, as failed or as one that passes.
abbrev Counted : Ots → AnchorRecord → Option DateTime → Option Bytes → AnchorTally → Type 0
Counted ots a t blob c =
    (d : AnchorTally) × (check_parts ots a t blob c ≡ ok d)
    × (total d ≡ total c + 1)
    × (((d.failed ≡ c.failed) × PassesParts ots a t blob)
        ⊎ ((d.failed ≡ c.failed + 1) × (PassesParts ots a t blob → ⊥)))

check_parts-Counted :
    (ots : Ots) (a : AnchorRecord) (t : Option DateTime) (blob : Option Bytes) (c : AnchorTally)
    → HasTexts a
    → Counted ots a t blob c
check_parts-Counted ots a none blob c (ts, e) =
    (pending_one a ts c, rw e refl, omega arith, inl (refl, tt))
check_parts-Counted ots a (some t) none c (ts, e) =
    (pending_one a ts c, rw e refl, omega arith, inl (refl, tt))
check_parts-Counted ots a (some t) (some blob) c (ts, e) =
    elim (Result-cases (check_proof ots a blob)) [
      | inl (u, good) ↦ rw good (
        add_proof a (ok tt) c,
        refl,
        omega arith,
        inl (refl, (check_proof_iff ots a blob).0 good),
      )
      | inr (x, bad) ↦ rw bad (
        add_proof a (err x) c,
        refl,
        omega arith,
        inr (
          refl,
          λ v. let never : err x ≡ ok tt = sym bad ∙ (check_proof_iff ots a blob).1 v in cc,
        ),
      )
    ]

-- The tally of a list of anchors.
abbrev Tallies : Ots → List AnchorRecord → AnchorTally → AnchorTally → Type 0
Tallies ots anchors c d =
    (total d ≡ total c + length anchors)
    × (c.failed ≤ d.failed)
    × ((d.failed ≡ c.failed) ↔ All (Passes ots) anchors)

check_anchor_list-Tallies :
    (ots : Ots) (anchors : List AnchorRecord) (c : AnchorTally)
    → All HasTexts anchors
    → (d : AnchorTally) × (check_anchor_list ots c anchors ≡ ok d) × Tallies ots anchors c d
unfolding check_anchor_list check_anchor
check_anchor_list-Tallies ots [] c h = (c, refl, (omega arith, omega arith, (λ e. tt, λ all. refl)))
check_anchor_list-Tallies ots (a ∷ anchors) c h =
    let (d, checked, more, verdict) =
      check_parts-Counted ots a a.confirmed_at a.ots_proof_blob c h.0 in
    let (z, rest, (sum, above, all)) = check_anchor_list-Tallies ots anchors d h.1 in
    elim verdict [
      | inl (same, passes) ↦ (
        z,
        rw checked rest,
        (
          omega (arith, more, sum),
          omega (arith, same, above),
          (λ e. (passes, all.0 (e ∙ sym same)), λ p. all.1 p.1 ∙ same),
        ),
      )
      | inr (failed, fails) ↦ (
        z,
        rw checked rest,
        (
          omega (arith, more, sum),
          omega (arith, failed, above),
          (
            λ e. let never : ⊥ = omega (arith, e, failed, above) in absurd never,
            λ p. absurd (fails p.0),
          ),
        ),
      )
    ]

exit_code_iff : (n : ℕ) → (exit_code n ≡ 0) ↔ (n ≡ 0)
exit_code_iff n = ground arith

-- Where the stored anchors can be read and their calendars are texts, `--check-anchors` returns, and
-- its exit code is 0 exactly when every anchor it lists passes: if it is confirmed and has a proof,
-- the proof is one of the chain head, and the first of its attestations of a Bitcoin block, in the
-- order in which the library gives them, is of the stored height.
pub check_anchors_command_iff :
    (ots : Ots) (f : File) (anchors : List AnchorRecord)
    → (get_anchors none (pos 500) (open_file f)).0 ≡ ok anchors
    → All HasTexts anchors
    → (report : Report) × ((check_anchors_command ots f).0 ≡ ok report)
      × ((report.code ≡ 0) ↔ All (Passes ots) anchors)
unfolding check_anchors_command with_ledger init close method
check_anchors_command_iff ots f anchors e texts =
    let (d, checked, (sum, above, all)) = check_anchor_list-Tallies ots anchors no_anchors texts in
    let code = exit_code_iff d.failed in
    (anchor_report d, rw e rw checked refl, (λ z. all.0 (code.0 z), λ p. code.1 (all.1 p)))
