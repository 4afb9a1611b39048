-- ===== src/Tests/Calendar.antt =====
-- A library for timestamps without operations, for the tests: a proof is the list of attestations.
use nexuscone.Prelude.{
  ℕ, zero, suc, ◌≡◌, refl, sym, ◌∙◌, ap, ◌↔◌, ◌⊎◌, inl, inr, Option, none, some, List, [], ◌∷◌,
  ◌++◌, Bool-cases, if◌then◌else◌,
}
use mathlib.Core.List.Memᴰ.{head, tail}
use nexuscone.Text.{Bytes, text_eq, text_eq_iff}
use nexuscone.Ots.{
  Attestation, pending, bitcoin, other, Timestamp, node, leaf, branch, message, attested, Ots,
}
use nexuscone.Ots.Laws.{IsAttested, OtsLaws}

abbrev cons_code : ℕ → Option Bytes → Option Bytes
cons_code c none = none
cons_code c (some cs) = some (c ∷ cs)

-- Only a calendar without a name can be written.
unfoldable pub encode : List Attestation → Option Bytes
encode [] = some []
encode (pending [] ∷ more) = cons_code 0 (encode more)
encode (pending (c ∷ uri) ∷ more) = none
encode (bitcoin h ∷ more) = cons_code (suc h) (encode more)
encode (other tag ∷ more) = none

unfoldable pub decode : Bytes → List Attestation
decode [] = []
decode (zero ∷ cs) = pending [] ∷ decode cs
decode (suc h ∷ cs) = bitcoin h ∷ decode cs

cons_code-eq-some :
    (c : ℕ) (o : Option Bytes) (b : Bytes)
    → cons_code c o ≡ some b
    → (cs : Bytes) × (o ≡ some cs) × (b ≡ c ∷ cs)
cons_code-eq-some c none b e = cc
cons_code-eq-some c (some cs) b e = (cs, refl, cc)

decode-encode : (here : List Attestation) (b : Bytes) → encode here ≡ some b → decode b ≡ here
unfolding encode decode
decode-encode [] b e = let same : [] ≡ b = cc in rw (sym same) refl
decode-encode (pending [] ∷ more) b e =
    let (cs, rest, same) = cons_code-eq-some 0 (encode more) b e in
    rw same (ap (λ xs. pending [] ∷ xs) (decode-encode more cs rest))
decode-encode (pending (c ∷ uri) ∷ more) b e = cc
decode-encode (bitcoin h ∷ more) b e =
    let (cs, rest, same) = cons_code-eq-some (suc h) (encode more) b e in
    rw same (ap (λ xs. bitcoin h ∷ xs) (decode-encode more cs rest))
decode-encode (other tag ∷ more) b e = cc

unfoldable pub write : Timestamp → Option Bytes
unfolding encode
write (node msg here leaf) = encode here
write (node msg here (branch op t ts)) = none

unfoldable pub merged : Timestamp → Timestamp → Option Timestamp
merged (node m here leaf) (node n there leaf) =
    if text_eq m n then some (node m (here ++ there) leaf) else none
merged (node m here leaf) (node n there (branch op t ts)) = none
merged (node m here (branch op t ts)) (node n there ops) = none

-- A calendar that attests every commitment at once, in block 800000.
abbrev pub calendar : Ots
calendar = record {
  timestamp = λ d. node d [] leaf;
  submit = λ n url d. some (node d (pending [] ∷ []) leaf);
  get_timestamp = λ k n uri c. some (node c (bitcoin 800000 ∷ []) leaf);
  merge = merged;
  serialize = write;
  deserialize = λ blob msg. some (node msg (decode blob) leaf);
  all_attestations = attested;
}

here-IsAttested :
    (m : Bytes) (here there : List Attestation) (x : Bytes × Attestation)
    → IsAttested x (node m (here ++ there) leaf)
      ↔ (IsAttested x (node m here leaf) ⊎ IsAttested x (node m there leaf))
unfolding attested
here-IsAttested m [] there x = (λ i. inr i, λ i. elim i [ inl a ↦ elim a [ ] | inr b ↦ b ])
here-IsAttested m (a ∷ here) there x = (
  λ i. elim i [
    | head e ↦ inl (head e)
    | tail j ↦ elim ((here-IsAttested m here there x).0 j) [ inl b ↦ inl (tail b) | inr c ↦ inr c ]
  ],
  λ i. elim i [
    | inl b ↦ elim b [
      | head e ↦ head e
      | tail j ↦ tail ((here-IsAttested m here there x).1 (inl j))
    ]
    | inr c ↦ tail ((here-IsAttested m here there x).1 (inr c))
  ],
)

-- A merge is of two timestamps on one message.
merged-eq-some :
    (a b c : Timestamp)
    → merged a b ≡ some c
    → (m : Bytes) × (here : List Attestation) × (there : List Attestation) × (a ≡ node m here leaf)
      × (b ≡ node m there leaf)
      × (c ≡ node m (here ++ there) leaf)
unfolding merged
merged-eq-some (node m here leaf) (node n there leaf) c e = elim (Bool-cases (text_eq m n)) [
  | inl same ↦
      let equal : some (node m (here ++ there) leaf) ≡ some c = rw same at e in
      (
        m,
        here,
        there,
        refl,
        ap (λ (k : Bytes). node k there leaf) (sym ((text_eq_iff m n).0 same)),
        cc,
      )
  | inr differ ↦ let never : none ≡ some c = rw differ at e in cc
]
merged-eq-some (node m here leaf) (node n there (branch op t ts)) c e = cc
merged-eq-some (node m here (branch op t ts)) (node n there ops) c e = cc

write-decode :
    (t : Timestamp) (blob : Bytes) → write t ≡ some blob → node (message t) (decode blob) leaf ≡ t
unfolding write
write-decode (node m here leaf) blob e =
    ap (λ (xs : List Attestation). node m xs leaf) (decode-encode here blob e)
write-decode (node m here (branch op t ts)) blob e = cc

pub calendar_laws : OtsLaws calendar
calendar_laws = record {
  merge_message = λ a b c e.
      let (m, here, there, f, g, h) = merged-eq-some a b c e in ap message h ∙ sym (ap message f);
  merge_attested = λ a b c e x.
      let (m, here, there, f, g, h) = merged-eq-some a b c e in
      rw (f, g, h) (here-IsAttested m here there x);
  deserialize_message =
      λ blob msg t e. let same : node msg (decode blob) leaf ≡ t = cc in ap message (sym same);
  read_back = λ t blob e.
      (node (message t) (decode blob) leaf, refl, λ x. rw (write-decode t blob e) (λ i. i, λ i. i));
  all_attested = λ t x. (λ i. i, λ i. i);
}
