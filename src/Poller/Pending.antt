-- ===== src/Poller/Pending.antt =====
-- The pending attestations of a timestamp, and what asking their calendars adds.
use nexuscone.Prelude.{◌≡◌, sym, ◌∙◌, ap, ◌↔◌, inl, inr, Option, none, some, List, [], ◌∷◌, map}
use mathlib.Core.List.{Memᴰ}
use mathlib.Core.List.Memᴰ.{head, tail, append_left, append_right, append_cases, of_map}
use nexuscone.Text.{Text, Bytes}
use nexuscone.Ots.{
  Attestation, pending, bitcoin, other, Timestamp, node, Children, leaf, branch, attested,
  attested_below,
}
use nexuscone.Ots.Laws.{IsAmong, IsAsked, IsAttested}
use nexuscone.Poller.Tree.{pending_at, collect_pending, collect_below}

pending_at-message :
    (msg : Bytes) (here : List Attestation) (c : Bytes) (uri : Text)
    → IsAsked c uri (pending_at msg here)
    → IsAmong (c, pending uri) (map (λ a. (msg, a)) here)
unfolding pending_at
pending_at-message msg [] c uri m = elim m [ ]
pending_at-message msg (pending u ∷ more) c uri (head e) =
    head (ap (λ (p : Bytes × Text). (p.0, pending p.1)) e)
pending_at-message msg (pending u ∷ more) c uri (tail m) =
    tail (pending_at-message msg more c uri m)
pending_at-message msg (bitcoin h ∷ more) c uri m = tail (pending_at-message msg more c uri m)
pending_at-message msg (other tag ∷ more) c uri m = tail (pending_at-message msg more c uri m)

-- The pair that is collected for an attestation.
abbrev pair_of : Bytes → Attestation → Option (Bytes × Text)
pair_of msg (pending uri) = some (msg, uri)
pair_of msg (bitcoin height) = none
pair_of msg (other tag) = none

pair_of-pending_at :
    (msg : Bytes) (here : List Attestation) (x : Attestation) (p : Bytes × Text)
    → pair_of msg x ≡ some p
    → Memᴰ x here
    → Memᴰ p (pending_at msg here)
unfolding pending_at
pair_of-pending_at msg [] x p k m = elim m [ ]
pair_of-pending_at msg (pending u ∷ more) x p k (head e) =
    head (some-injective (sym k ∙ ap (pair_of msg) e))
  where
    some-injective : {a b : Bytes × Text} → some a ≡ some b → a ≡ b
    some-injective h = cc h
pair_of-pending_at msg (pending u ∷ more) x p k (tail m) =
    tail (pair_of-pending_at msg more x p k m)
pair_of-pending_at msg (bitcoin h ∷ more) x p k (head e) =
    let never : none ≡ some p = sym (ap (pair_of msg) e) ∙ k in cc never
pair_of-pending_at msg (bitcoin h ∷ more) x p k (tail m) = pair_of-pending_at msg more x p k m
pair_of-pending_at msg (other t ∷ more) x p k (head e) =
    let never : none ≡ some p = sym (ap (pair_of msg) e) ∙ k in cc never
pair_of-pending_at msg (other t ∷ more) x p k (tail m) = pair_of-pending_at msg more x p k m

mutual
  unfolding collect_pending attested

  collected-IsAttested :
      (t : Timestamp) (c : Bytes) (uri : Text)
      → IsAsked c uri (collect_pending t)
      → IsAttested (c, pending uri) t
  collected-IsAttested (node msg here ops) c uri m = elim (append_cases (pending_at msg here) m) [
    | inl a ↦ append_left (attested_below ops) (pending_at-message msg here c uri a)
    | inr b ↦ append_right (map (λ a. (msg, a)) here) (collected_below-IsAmong ops c uri b)
  ]

  collected_below-IsAmong :
      (ts : Children) (c : Bytes) (uri : Text)
      → IsAsked c uri (collect_below ts)
      → IsAmong (c, pending uri) (attested_below ts)
  collected_below-IsAmong leaf c uri m = elim m [ ]
  collected_below-IsAmong (branch op t ts) c uri m = elim (append_cases (collect_pending t) m) [
    | inl a ↦ append_left (attested_below ts) (collected-IsAttested t c uri a)
    | inr b ↦ append_right (attested t) (collected_below-IsAmong ts c uri b)
  ]

mutual
  unfolding collect_pending attested

  attested-collected :
      (t : Timestamp) (c : Bytes) (uri : Text)
      → IsAttested (c, pending uri) t
      → IsAsked c uri (collect_pending t)
  attested-collected (node msg here ops) c uri m =
      elim (append_cases (map (λ a. (msg, a)) here) m) [
        | inl a ↦
            let (x, member, e) = of_map (λ a. (msg, a)) here a in
            append_left (collect_below ops) (
              pair_of-pending_at msg here x (c, uri)
                (ap (λ (p : Bytes × Attestation). pair_of p.0 p.1) e) member)
        | inr b ↦ append_right (pending_at msg here) (attested-collected_below ops c uri b)
      ]

  attested-collected_below :
      (ts : Children) (c : Bytes) (uri : Text)
      → IsAmong (c, pending uri) (attested_below ts)
      → IsAsked c uri (collect_below ts)
  attested-collected_below leaf c uri m = elim m [ ]
  attested-collected_below (branch op t ts) c uri m = elim (append_cases (attested t) m) [
    | inl a ↦ append_left (collect_below ts) (attested-collected t c uri a)
    | inr b ↦ append_right (collect_pending t) (attested-collected_below ts c uri b)
  ]

-- `_collect_pending` gives a commitment with a calendar's URI exactly when the timestamp has a
-- pending attestation of that URI at a node whose message is the commitment.
pub collect_pending_iff :
    (t : Timestamp) (c : Bytes) (uri : Text)
    → IsAsked c uri (collect_pending t) ↔ IsAttested (c, pending uri) t
collect_pending_iff t c uri = (collected-IsAttested t c uri, attested-collected t c uri)
