-- ===== src/Poller/Merge.antt =====
-- Merging a calendar's answer into a timestamp.
use nexuscone.Prelude.{
  ◌≡◌, refl, sym, ap, subst, ◌↔◌, ◌⊎◌, inl, inr, Bool, true, false, List, [], ◌++◌, map, Bool-cases,
}
use mathlib.Core.List.{Memᴰ}
use mathlib.Core.List.Memᴰ.{append_left, append_right, append_cases}
use nexuscone.Text.{Bytes, text_eq}
use nexuscone.Exec.{Result, ok, err, timestamp_error, or_raise}
use nexuscone.Exec.Inversion.{>>=-eq-ok, or_raise-eq-ok, ok-injective}
use nexuscone.Ots.{
  Attestation, Timestamp, node, Children, leaf, branch, message, attested, attested_below, Ots,
}
use nexuscone.Ots.Laws.{OtsLaws}
use nexuscone.Poller.Tree.{
  at_node, behind_child, after_child, merge_here, merge_at_commitment, merge_below,
}

abbrev pub Attested : Type 0
Attested = List (Bytes × Attestation)

abbrev pub IsUnion : Attested → Attested → Attested → Type 0
IsUnion before added after =
    (x : Bytes × Attestation) → Memᴰ x after ↔ (Memᴰ x before ⊎ Memᴰ x added)

-- What a walk leaves: the union where it found the commitment, else what was there.
abbrev pub Grows : Bool → Attested → Attested → Attested → Type 0
Grows true before added after = IsUnion before added after
Grows false before added after = after ≡ before

IsUnion-prepend :
    (pre before added after : Attested)
    → IsUnion before added after
    → IsUnion (pre ++ before) added (pre ++ after)
IsUnion-prepend pre before added after h x = (
  λ m. elim (append_cases pre m) [
    | inl p ↦ inl (append_left before p)
    | inr a ↦ elim ((h x).0 a) [ inl b ↦ inl (append_right pre b) | inr d ↦ inr d ]
  ],
  λ m. elim m [
    | inl b ↦ elim (append_cases pre b) [
      | inl p ↦ append_left after p
      | inr c ↦ append_right pre ((h x).1 (inl c))
    ]
    | inr d ↦ append_right pre ((h x).1 (inr d))
  ],
)

IsUnion-append :
    (post before added after : Attested)
    → IsUnion before added after
    → IsUnion (before ++ post) added (after ++ post)
IsUnion-append post before added after h x = (
  λ m. elim (append_cases after m) [
    | inl a ↦ elim ((h x).0 a) [ inl b ↦ inl (append_left post b) | inr d ↦ inr d ]
    | inr p ↦ inl (append_right before p)
  ],
  λ m. elim m [
    | inl b ↦ elim (append_cases before b) [
      | inl c ↦ append_left post ((h x).1 (inl c))
      | inr p ↦ append_right after p
    ]
    | inr d ↦ append_left post ((h x).1 (inr d))
  ],
)

Grows-prepend :
    (found : Bool) (pre before added after : Attested)
    → Grows found before added after
    → Grows found (pre ++ before) added (pre ++ after)
Grows-prepend true pre before added after h = IsUnion-prepend pre before added after h
Grows-prepend false pre before added after h = ap (λ (xs : Attested). pre ++ xs) h

-- What comes back around a node, or behind a child, is what was found below.
pub at_node-eq-ok :
    (msg : Bytes) (here : List Attestation) (r : Result (Bool × Children)) (found : Bool)
    (u : Timestamp)
    → at_node msg here r ≡ ok (found, u)
    → (ops : Children) × (r ≡ ok (found, ops)) × (u ≡ node msg here ops)
at_node-eq-ok msg here (err e) found u h = cc
at_node-eq-ok msg here (ok (b, ops)) found u h =
    let same = ok-injective _ _ h in
    (
      ops,
      ap (λ (p : Bool × Timestamp). ok (p.0, ops)) same,
      ap (λ (p : Bool × Timestamp). p.1) (sym same),
    )

behind_child-eq-ok :
    (op : Bytes) (t : Timestamp) (r : Result (Bool × Children)) (found : Bool) (us : Children)
    → behind_child op t r ≡ ok (found, us)
    → (ts : Children) × (r ≡ ok (found, ts)) × (us ≡ branch op t ts)
behind_child-eq-ok op t (err e) found us h = cc
behind_child-eq-ok op t (ok (b, ts)) found us h =
    let same = ok-injective _ _ h in
    (
      ts,
      ap (λ (p : Bool × Children). ok (p.0, ts)) same,
      ap (λ (p : Bool × Children). p.1) (sym same),
    )

-- The two ways in which a walk over the children returns: the commitment is below the first, or it
-- is looked for behind it.
pub after_child-eq-ok :
    (op : Bytes) (ts : Children) (r : Result (Bool × Timestamp)) (rest : Result (Bool × Children))
    (found : Bool) (us : Children)
    → after_child op ts r rest ≡ ok (found, us)
    → ((u : Timestamp) × (r ≡ ok (true, u)) × (found ≡ true) × (us ≡ branch op u ts))
      ⊎ ((u : Timestamp) × (vs : Children) × (r ≡ ok (false, u))
          × (rest ≡ ok (found, vs))
          × (us ≡ branch op u vs))
after_child-eq-ok op ts (err e) rest found us h = cc
after_child-eq-ok op ts (ok (true, u)) rest found us h =
    let same = ok-injective _ _ h in
    inl (
      u,
      refl,
      ap (λ (p : Bool × Children). p.0) (sym same),
      ap (λ (p : Bool × Children). p.1) (sym same),
    )
after_child-eq-ok op ts (ok (false, u)) rest found us h =
    let (vs, e, f) = behind_child-eq-ok op u rest found us h in inr (u, vs, refl, e, f)

module _ (ots : Ots) (laws : OtsLaws ots) (commitment : Bytes) (partial : Timestamp) where
  merge_here-IsAttested :
      (t u : Timestamp) (found : Bool)
      → merge_here ots t partial ≡ ok (found, u)
      → (message u ≡ message t) × Grows found (attested t) (attested partial) (attested u)
  merge_here-IsAttested t u found e =
      let (c, merged, returned) = >>=-eq-ok (or_raise timestamp_error (ots.merge t partial)) _ e in
      let m = or_raise-eq-ok timestamp_error (ots.merge t partial) merged in
      let same = ok-injective _ _ returned in
      let union = laws.merge_attested t partial c m in
      subst
        (λ (p : Bool × Timestamp).
          (message p.1 ≡ message t) × Grows p.0 (attested t) (attested partial) (attested p.1))
        same (laws.merge_message t partial c m, union)

  mutual
    unfolding merge_at_commitment attested

    -- A merge leaves the message, and the attestations of both where it found the commitment.
    pub merge_at-attested :
        (t u : Timestamp) (found : Bool)
        → merge_at_commitment ots commitment partial t ≡ ok (found, u)
        → (message u ≡ message t) × Grows found (attested t) (attested partial) (attested u)
    merge_at-attested (node msg here ops) u found e = elim (Bool-cases (text_eq msg commitment)) [
      | inl hit ↦ merge_here-IsAttested (node msg here ops) u found (rw hit at e)
      | inr miss ↦
          let (us, below, same) =
            at_node-eq-ok msg here (merge_below ots commitment partial ops) found u
              (rw miss at e) in
          rw same (
            refl,
            Grows-prepend found (map (λ a. (msg, a)) here) (attested_below ops) (attested partial)
                (attested_below us) (merge_below-attested ops us found below),
          )
    ]

    merge_below-attested :
        (ts us : Children) (found : Bool)
        → merge_below ots commitment partial ts ≡ ok (found, us)
        → Grows found (attested_below ts) (attested partial) (attested_below us)
    merge_below-attested leaf us found e =
        subst (λ (p : Bool × Children). Grows p.0 [] (attested partial) (attested_below p.1))
          (ok-injective _ _ e) refl
    merge_below-attested (branch op t ts) us found e =
        elim (after_child-eq-ok op ts (merge_at_commitment ots commitment partial t)
          (merge_below ots commitment partial ts) found us e) [
            | inl (u, first, hit, same) ↦
                rw (same, hit)
                  (IsUnion-append (attested_below ts) (attested t) (attested partial) (attested u)
                    (merge_at-attested t u true first).1)
            | inr (u, vs, first, rest, same) ↦
                rw (same, (merge_at-attested t u false first).1)
                  (Grows-prepend found (attested t) (attested_below ts) (attested partial)
                    (attested_below vs) (merge_below-attested ts vs found rest))
          ]
