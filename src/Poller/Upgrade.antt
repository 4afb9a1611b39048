-- ===== src/Poller/Upgrade.antt =====
-- What is known when the poller has upgraded an anchor.
use nexuscone.Prelude.{ℕ, ◌≡◌, refl, sym, ◌∙◌, ap, ◌↔◌, some, List, [], ◌∷◌}
use mathlib.Core.List.Memᴰ.{head, tail}
use nexuscone.Text.{Text, Bytes}
use nexuscone.Text.Hex.{from_hex}
use nexuscone.Exec.{ok, assertion_error, hex_error, timestamp_error, or_raise}
use nexuscone.Exec.Inversion.{>>=-eq-ok, or_raise-eq-ok}
use nexuscone.Ots.{Attestation, pending, bitcoin, other, Timestamp, Ots}
use nexuscone.Ots.Laws.{IsAmong, IsAsked, IsAttested, OtsLaws}
use nexuscone.Anchors.{AnchorRecord}
use nexuscone.Poller.{upgrade_tree, upgrade_pairs, upgraded_proof}
use nexuscone.Poller.Tree.{collect_pending, first_bitcoin, first_bitcoin_attestation}
use nexuscone.Poller.Pending.{collect_pending_iff}
use nexuscone.Poller.Answers.{Upgrades, ArePending, upgrade_tree-Upgrades}

first_bitcoin-IsAmong :
    (xs : List (Bytes × Attestation)) (h : ℕ)
    → first_bitcoin xs ≡ some h
    → (m : Bytes) × IsAmong (m, bitcoin h) xs
unfolding first_bitcoin
first_bitcoin-IsAmong [] h e = cc
first_bitcoin-IsAmong ((m, pending uri) ∷ xs) h e =
    let (n, i) = first_bitcoin-IsAmong xs h e in (n, tail i)
first_bitcoin-IsAmong ((m, bitcoin k) ∷ xs) h e =
    let same : k ≡ h = cc in (m, head (ap (λ (j : ℕ). (m, bitcoin j)) (sym same)))
first_bitcoin-IsAmong ((m, other tag) ∷ xs) h e =
    let (n, i) = first_bitcoin-IsAmong xs h e in (n, tail i)

IsAmong-first_bitcoin :
    (xs : List (Bytes × Attestation)) (m : Bytes) (h : ℕ)
    → IsAmong (m, bitcoin h) xs
    → (k : ℕ) × (first_bitcoin xs ≡ some k)
unfolding first_bitcoin
IsAmong-first_bitcoin [] m h i = elim i [ ]
IsAmong-first_bitcoin ((n, pending uri) ∷ xs) m h (head e) =
    let never : bitcoin h ≡ pending uri = ap (λ (x : Bytes × Attestation). x.1) e in cc
IsAmong-first_bitcoin ((n, pending uri) ∷ xs) m h (tail i) = IsAmong-first_bitcoin xs m h i
IsAmong-first_bitcoin ((n, bitcoin k) ∷ xs) m h i = (k, refl)
IsAmong-first_bitcoin ((n, other tag) ∷ xs) m h (head e) =
    let never : bitcoin h ≡ other tag = ap (λ (x : Bytes × Attestation). x.1) e in cc
IsAmong-first_bitcoin ((n, other tag) ∷ xs) m h (tail i) = IsAmong-first_bitcoin xs m h i

-- `_first_bitcoin_attestation` finds a height that the timestamp has an attestation of.
pub first_bitcoin_attestation-IsAttested :
    (ots : Ots) (laws : OtsLaws ots) (t : Timestamp) (h : ℕ)
    → first_bitcoin_attestation ots t ≡ some h
    → (m : Bytes) × IsAttested (m, bitcoin h) t
unfolding first_bitcoin_attestation
first_bitcoin_attestation-IsAttested ots laws t h e =
    let (m, i) = first_bitcoin-IsAmong (ots.all_attestations t) h e in
    (m, (laws.all_attested t (m, bitcoin h)).0 i)

-- It finds one where there is one.
pub IsAttested-first_bitcoin_attestation :
    (ots : Ots) (laws : OtsLaws ots) (t : Timestamp) (m : Bytes) (h : ℕ)
    → IsAttested (m, bitcoin h) t
    → (k : ℕ) × (first_bitcoin_attestation ots t ≡ some k)
unfolding first_bitcoin_attestation
IsAttested-first_bitcoin_attestation ots laws t m h i =
    IsAmong-first_bitcoin (ots.all_attestations t) m h ((laws.all_attested t (m, bitcoin h)).1 i)

-- The proof that an anchor had, read back, and the proof that it has been upgraded to.
pub record IsUpgrade (ots : Ots) (k : ℕ) (a : AnchorRecord) (u : Timestamp) : Type 0 where
  pub blob : Bytes
  pub msg : Bytes
  pub before : Timestamp
  pub stored : a.ots_proof_blob ≡ some blob
  pub head_bytes : from_hex a.chain_head_hash ≡ some msg
  pub read : ots.deserialize blob msg ≡ some before
  pub questions : List (Bytes × Text)
  pub asked :
      (c : Bytes) (uri : Text) → IsAsked c uri questions ↔ IsAttested (c, pending uri) before
  pub upgrades : Upgrades ots k 0 questions before u

upgrade_pairs-some :
    (ots : Ots) (k : ℕ) (t u : Timestamp) (pairs : List (Bytes × Text))
    → upgrade_pairs ots k t pairs ≡ ok (some u)
    → upgrade_tree ots k 0 t pairs ≡ ok u
upgrade_pairs-some ots k t u [] e = cc
upgrade_pairs-some ots k t u (p ∷ pairs) e =
    let (v, merged, same) = >>=-eq-ok (upgrade_tree ots k 0 t (p ∷ pairs)) _ e in
    let equal : v ≡ u = cc same in merged ∙ ap (λ (w : Timestamp). ok w) equal

-- Where the poller has a new proof for an anchor, the new proof is on the same message as the stored
-- one, and there is a list of questions, with a commitment and a URI in it exactly where the stored
-- proof has a pending attestation of that URI at that commitment, at any depth, such that the new
-- proof's attestations are those of the stored proof and those of the calendars' answers to the
-- questions, asked in the order of the list.
pub upgraded_proof-IsUpgrade :
    (ots : Ots) (laws : OtsLaws ots) (k : ℕ) (a : AnchorRecord) (u : Timestamp)
    → upgraded_proof ots k a ≡ ok (some u)
    → IsUpgrade ots k a u
unfolding upgraded_proof
upgraded_proof-IsUpgrade ots laws k a u e =
    let (blob, b, e₁) = >>=-eq-ok (or_raise assertion_error a.ots_proof_blob) _ e in
    let (msg, m, e₂) = >>=-eq-ok (or_raise hex_error (from_hex a.chain_head_hash)) _ e₁ in
    let (t, d, e₃) = >>=-eq-ok (or_raise timestamp_error (ots.deserialize blob msg)) _ e₂ in
    let asked : ArePending (collect_pending t) t = λ c uri i. (collect_pending_iff t c uri).0 i in
    record {
      blob = blob;
      msg = msg;
      before = t;
      stored = or_raise-eq-ok assertion_error a.ots_proof_blob b;
      head_bytes = or_raise-eq-ok hex_error (from_hex a.chain_head_hash) m;
      read = or_raise-eq-ok timestamp_error (ots.deserialize blob msg) d;
      questions = collect_pending t;
      asked = λ c uri. collect_pending_iff t c uri;
      upgrades =
          upgrade_tree-Upgrades ots laws k 0 (collect_pending t) t u asked
            (upgrade_pairs-some ots k t u (collect_pending t) e₃);
    }
