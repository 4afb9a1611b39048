-- ===== src/Poller/Answers.antt =====
-- Asking the calendars of the pending attestations.
use nexuscone.Prelude.{
  ℕ, ◌+◌, ◌≡◌, refl, sym, ◌∙◌, ap, subst, ◌↔◌, ◌⊎◌, inl, inr, Bool, true, false, none, some, List,
  [], ◌∷◌, map, Bool-cases, Option-cases,
}
use mathlib.Core.List.Memᴰ.{head, tail, append_cases, of_map}
use nexuscone.Text.{Text, Bytes, text_eq, text_eq_iff}
use nexuscone.Exec.{ok, or_raise, timestamp_error}
use nexuscone.Exec.Inversion.{Result-cases, ok-injective, >>=-eq-ok}
use nexuscone.Ots.{
  Attestation, pending, Timestamp, node, Children, leaf, branch, message, attested, attested_below,
  Ots,
}
use nexuscone.Ots.Laws.{IsAmong, IsAsked, IsAttested, OtsLaws}
use nexuscone.Poller.{upgrade_tree}
use nexuscone.Poller.Tree.{merge_here, merge_at_commitment, merge_below}
use nexuscone.Poller.Merge.{IsUnion, at_node-eq-ok, after_child-eq-ok, merge_at-attested}

module _ (ots : Ots) (laws : OtsLaws ots) (commitment : Bytes) (partial : Timestamp) where
  merge_here-found :
      (t u : Timestamp) (found : Bool) → merge_here ots t partial ≡ ok (found, u) → found ≡ true
  merge_here-found t u found e =
      let (c, merged, returned) = >>=-eq-ok (or_raise timestamp_error (ots.merge t partial)) _ e in
      ap (λ (p : Bool × Timestamp). p.0) (sym (ok-injective _ _ returned))

  mutual
    unfolding merge_at_commitment attested

    -- A commitment that has an attestation is found.
    merge_at-found :
        (t u : Timestamp) (found : Bool) (a : Attestation)
        → IsAttested (commitment, a) t
        → merge_at_commitment ots commitment partial t ≡ ok (found, u)
        → found ≡ true
    merge_at-found (node msg here ops) u found a m e = elim (Bool-cases (text_eq msg commitment)) [
      | inl hit ↦ merge_here-found (node msg here ops) u found (rw hit at e)
      | inr miss ↦
          let (us, below, same) =
            at_node-eq-ok msg here (merge_below ots commitment partial ops) found u
              (rw miss at e) in
          elim (append_cases (map (λ a. (msg, a)) here) m) [
            | inl own ↦
                let (x, member, at) = of_map (λ a. (msg, a)) here own in
                let equal = ap (λ (p : Bytes × Attestation). p.0) at in
                let hit = (text_eq_iff msg commitment).1 equal in cc
            | inr deep ↦ merge_below-found ops us found a deep below
          ]
    ]

    merge_below-found :
        (ts us : Children) (found : Bool) (a : Attestation)
        → IsAmong (commitment, a) (attested_below ts)
        → merge_below ots commitment partial ts ≡ ok (found, us)
        → found ≡ true
    merge_below-found leaf us found a m e = elim m [ ]
    merge_below-found (branch op t ts) us found a m e =
        elim (after_child-eq-ok op ts (merge_at_commitment ots commitment partial t)
          (merge_below ots commitment partial ts) found us e) [
            | inl (u, first, hit, same) ↦ hit
            | inr (u, vs, first, rest, same) ↦ elim (append_cases (attested t) m) [
              | inl own ↦ let never = merge_at-found t u false a own first in cc never
              | inr deep ↦ merge_below-found ts vs found a deep rest
            ]
          ]

-- An attestation that a calendar's answer to one of the questions has; the first is the n-th.
abbrev pub IsAnswered : Ots → ℕ → ℕ → List (Bytes × Text) → Bytes × Attestation → Type 0
IsAnswered ots k n [] x = ⊥
IsAnswered ots k n ((c, uri) ∷ pairs) x =
    ((p : Timestamp) × (ots.get_timestamp k n uri c ≡ some p) × IsAttested x p)
    ⊎ IsAnswered ots k (n + 1) pairs x

-- Every question is about a node of the timestamp.
abbrev pub ArePending : List (Bytes × Text) → Timestamp → Type 0
ArePending pairs t = (c : Bytes) (uri : Text) → IsAsked c uri pairs → IsAttested (c, pending uri) t

abbrev pub Upgrades : Ots → ℕ → ℕ → List (Bytes × Text) → Timestamp → Timestamp → Type 0
Upgrades ots k n pairs t u =
    (message u ≡ message t)
    × ((x : Bytes × Attestation) → IsAttested x u ↔ (IsAttested x t ⊎ IsAnswered ots k n pairs x))

module _ (ots : Ots) (k : ℕ) where
  Upgrades-none :
      (n : ℕ) (c : Bytes) (uri : Text) (pairs : List (Bytes × Text)) (t u : Timestamp)
      → ots.get_timestamp k n uri c ≡ none
      → Upgrades ots k (n + 1) pairs t u
      → Upgrades ots k n ((c, uri) ∷ pairs) t u
  Upgrades-none n c uri pairs t u silent (same, all) = (
    same,
    λ x. (
      λ m. elim ((all x).0 m) [ inl old ↦ inl old | inr later ↦ inr (inr later) ],
      λ m. elim m [
        | inl old ↦ (all x).1 (inl old)
        | inr now ↦ elim now [
          | inl (p, e, new) ↦ let never : none ≡ some p = sym silent ∙ e in cc
          | inr later ↦ (all x).1 (inr later)
        ]
      ],
    ),
  )

  Upgrades-some :
      (n : ℕ) (c : Bytes) (uri : Text) (pairs : List (Bytes × Text)) (p t mid u : Timestamp)
      → ots.get_timestamp k n uri c ≡ some p
      → message mid ≡ message t
      → IsUnion (attested t) (attested p) (attested mid)
      → Upgrades ots k (n + 1) pairs mid u
      → Upgrades ots k n ((c, uri) ∷ pairs) t u
  Upgrades-some n c uri pairs p t mid u answer kept union (same, all) = (
    same ∙ kept,
    λ x. (
      λ m. elim ((all x).0 m) [
        | inl before ↦ elim ((union x).0 before) [
          | inl old ↦ inl old
          | inr new ↦ inr (inl (p, answer, new))
        ]
        | inr later ↦ inr (inr later)
      ],
      λ m. elim m [
        | inl old ↦ (all x).1 (inl ((union x).1 (inl old)))
        | inr now ↦ elim now [
          | inl (q, e, new) ↦
              let equal : some q ≡ some p = sym e ∙ answer in
              let there : IsAttested x p = subst (IsAttested x) (injective equal) new in
              (all x).1 (inl ((union x).1 (inr there)))
          | inr later ↦ (all x).1 (inr later)
        ]
      ],
    ),
  )
    where
      injective : {a b : Timestamp} → some a ≡ some b → a ≡ b
      injective h = cc

ArePending-tail :
    (c : Bytes) (uri : Text) (pairs : List (Bytes × Text)) (t : Timestamp)
    → ArePending ((c, uri) ∷ pairs) t
    → ArePending pairs t
ArePending-tail c uri pairs t all d u m = all d u (tail m)

-- Where `_upgrade_one` has asked the calendars of attestations that are pending in a timestamp, the
-- timestamp has the same message, and its attestations are those that it had and those of the
-- calendars' answers: none is lost, and an answer is merged wherever its commitment lies.
pub upgrade_tree-Upgrades :
    (ots : Ots) (laws : OtsLaws ots) (k n : ℕ) (pairs : List (Bytes × Text)) (t u : Timestamp)
    → ArePending pairs t
    → upgrade_tree ots k n t pairs ≡ ok u
    → Upgrades ots k n pairs t u
unfolding upgrade_tree
upgrade_tree-Upgrades ots laws k n [] t u asked e =
    subst (λ v. Upgrades ots k n [] t v) (ok-injective t u e)
      (refl, λ x. (λ m. inl m, λ m. elim m [ inl old ↦ old | inr never ↦ absurd never ]))
upgrade_tree-Upgrades ots laws k n ((c, uri) ∷ pairs) t u asked e =
    elim (Option-cases (ots.get_timestamp k n uri c)) [
      | inl silent ↦
          let rest = ArePending-tail c uri pairs t asked in
          Upgrades-none ots k n c uri pairs t u silent (
            upgrade_tree-Upgrades ots laws k (n + 1) pairs t u rest
              (rw (upgrade_tree, silent) at e))
      | inr (p, answer) ↦ elim (Result-cases (merge_at_commitment ots c p t)) [
        | inl ((found, mid), merged) ↦
            let hit =
              merge_at-found ots laws c p t mid found (pending uri) (asked c uri (head refl))
                merged in
            let grown = merge_at-attested ots laws c p t mid found merged in
            let union : IsUnion (attested t) (attested p) (attested mid) = rw hit at grown.1 in
            let rest : ArePending pairs mid =
              λ d v m. (union (d, pending v)).1 (inl (asked d v (tail m))) in
            Upgrades-some ots k n c uri pairs p t mid u answer grown.0 union (
              upgrade_tree-Upgrades ots laws k (n + 1) pairs mid u rest
                (rw (upgrade_tree, answer, merged) at e))
        | inr (x, raised) ↦ let never = rw (upgrade_tree, answer, raised) at e in cc
      ]
    ]
