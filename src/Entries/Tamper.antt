-- ===== src/Entries/Tamper.antt =====
-- Tamper evidence: two chains of the same length that end in the same hash.
use nexuscone.Prelude.{
  ℕ, ◌≡◌, ◌≢◌, refl, sym, ◌∙◌, ap, ◌⊎◌, inl, inr, Bool, true, false, List, [], ◌∷◌, arith, length,
  leb, if◌then◌else◌, Bool-cases, All,
}
use nexuscone.Prelude.Int.{pos}
use nexuscone.Text.{Text, Bytes, codes, text_eq, text_eq_iff, text_ltb}
use nexuscone.Text.Hex.{hex, from_hex, from_hex-hex}
use nexuscone.Text.Utf8.{IsScalarText}
use nexuscone.Json.{str, int, obj, Members, end, member, sort_keys, insert_member}
use nexuscone.Json.Order.{IsValid}
use nexuscone.Canonical.{Sha256}
use nexuscone.Canonical.Laws.{canonical_json-injective}
use nexuscone.Store.{EntryRow, EntryTable, genesis_previous_hash}
use nexuscone.Entries.{entry_fields, event_type_of, format_version_of}
use nexuscone.Entries.Chain.{message_of, hash_of, IsChain, head_hash}

-- The fields that a row's hash covers. The event type is among them from format version 2 on.
pub record SameFields (t : EntryTable) (u : EntryTable) (r : EntryRow) (s : EntryRow) : Type 0 where
  pub entry_id : r.entry_id ≡ s.entry_id
  pub timestamp : r.timestamp ≡ s.timestamp
  pub actor : r.actor ≡ s.actor
  pub action : r.action ≡ s.action
  pub payload : r.payload ≡ s.payload
  pub previous_hash : r.previous_hash ≡ s.previous_hash
  pub versions : leb 2 (format_version_of t r) ≡ leb 2 (format_version_of u s)
  pub event_type : leb 2 (format_version_of t r) ≡ true → event_type_of t r ≡ event_type_of u s

-- The texts of a row are texts that SQLite can store.
abbrev pub IsStorable : EntryTable → EntryRow → Type 0
IsStorable t r =
    IsScalarText r.timestamp
    × IsScalarText r.actor
    × IsScalarText r.action
    × IsScalarText r.payload
    × IsScalarText r.previous_hash
    × IsScalarText (event_type_of t r)

-- The rows' hashed texts differ and have one digest.
abbrev pub Collide : Sha256 → EntryTable → EntryTable → EntryRow → EntryRow → Type 0
Collide h t u r s =
    (message_of t r ≢ message_of u s) × (h.digest (message_of t r) ≡ h.digest (message_of u s))

-- Two rows at the same place of the tables collide.
abbrev pub HasCollision : Sha256 → EntryTable → EntryTable → List EntryRow → List EntryRow → Type 0
HasCollision h t u (r ∷ rs) (s ∷ ss) = Collide h t u r s ⊎ HasCollision h t u rs ss
HasCollision h t u _ _ = ⊥

entry_fields-IsValid :
    (id : ℕ) (timestamp actor action payload previous event : Text) (v : ℕ)
    → IsScalarText timestamp
    → IsScalarText actor
    → IsScalarText action
    → IsScalarText payload
    → IsScalarText previous
    → IsScalarText event
    → IsValid (obj (entry_fields id timestamp actor action payload previous event v))
unfolding entry_fields IsValid text_eq
entry_fields-IsValid id timestamp actor action payload previous event v a b c d e f =
    elim (Bool-cases (leb 2 v)) [ inl k ↦ rw k (ground arith) | inr k ↦ rw k (ground arith) ]

-- The inputs of an entry hash, by whether the event type is among them.
abbrev hashed_fields : ℕ → Text → Text → Text → Text → Text → Text → Bool → Members
hashed_fields id timestamp actor action payload previous event b =
    member (codes "entry_id") (int (pos id)) (
      member (codes "timestamp") (str timestamp) (
        member (codes "actor") (str actor) (
          member (codes "action") (str action) (
            member (codes "payload") (str payload) (
              member (codes "previous_hash") (str previous)
                (if b then member (codes "event_type") (str event) end else end))))))

-- The inputs can be read off the sorted object.
fields_of-sorted :
    (id id' : ℕ)
    (timestamp timestamp' actor actor' action action' payload payload' previous previous' event
      event' : Text)
    (b b' : Bool)
    → sort_keys (obj (hashed_fields id timestamp actor action payload previous event b))
      ≡ sort_keys (obj (hashed_fields id' timestamp' actor' action' payload' previous' event' b'))
    → (id ≡ id')
      × (timestamp ≡ timestamp')
      × (actor ≡ actor')
      × (action ≡ action')
      × (payload ≡ payload')
      × (previous ≡ previous')
      × (b ≡ b')
      × (b ≡ true → event ≡ event')
unfolding sort_keys insert_member text_ltb
fields_of-sorted id id' t t' a a' c c' p p' q q' e e' true true h =
    (cc, cc, cc, cc, cc, cc, refl, λ _. cc)
fields_of-sorted id id' t t' a a' c c' p p' q q' e e' true false h = cc
fields_of-sorted id id' t t' a a' c c' p p' q q' e e' false true h = cc
fields_of-sorted id id' t t' a a' c c' p p' q q' e e' false false h =
    (cc, cc, cc, cc, cc, cc, refl, λ k. cc)

-- Rows with the same message have the same hashed fields.
message_of-injective :
    (t u : EntryTable) (r s : EntryRow)
    → IsStorable t r
    → IsStorable u s
    → message_of t r ≡ message_of u s
    → SameFields t u r s
unfolding message_of entry_fields
message_of-injective t u r s (a, b, c, d, e, f) (a', b', c', d', e', f') m =
    let v = format_version_of t r in
    let w = format_version_of u s in
    let sorted =
      canonical_json-injective _ _
        (entry_fields-IsValid r.entry_id r.timestamp r.actor r.action r.payload r.previous_hash
          (event_type_of t r) v a b c d e f)
        (entry_fields-IsValid s.entry_id s.timestamp s.actor s.action s.payload s.previous_hash
          (event_type_of u s) w a' b' c' d' e' f')
        m in
    let (id, time, actor, action, payload, previous, versions, event) =
      fields_of-sorted _ _ _ _ _ _ _ _ _ _ _ _ _ _ (leb 2 v) (leb 2 w) sorted in
    record {
      entry_id = id;
      timestamp = time;
      actor = actor;
      action = action;
      payload = payload;
      previous_hash = previous;
      versions = versions;
      event_type = event;
    }

digest_of-hex :
    (h : Sha256) (m n : Bytes) → hex (h.digest m) ≡ hex (h.digest n) → h.digest m ≡ h.digest n
digest_of-hex h m n e = cc (
  from_hex-hex (h.digest m) (h.digest_bytes m),
  from_hex-hex (h.digest n) (h.digest_bytes n),
  ap from_hex e,
)

-- Equal hashes come from equal fields, or from a collision.
hash_of-injective :
    (h : Sha256) (t u : EntryTable) (r s : EntryRow)
    → IsStorable t r
    → IsStorable u s
    → hash_of h t r ≡ hash_of h u s
    → SameFields t u r s ⊎ Collide h t u r s
unfolding hash_of
hash_of-injective h t u r s p q e = elim (Bool-cases (text_eq (message_of t r) (message_of u s))) [
  | inl same ↦ inl (message_of-injective t u r s p q ((text_eq_iff _ _).0 same))
  | inr other ↦
      inr (
        λ k. cc (other, (text_eq_iff (message_of t r) (message_of u s)).1 k),
        digest_of-hex h _ _ e,
      )
]

-- Row by row the same hashed fields and the same hash.
abbrev pub SameChain : EntryTable → EntryTable → List EntryRow → List EntryRow → Type 0
SameChain t u [] [] = Unit
SameChain t u (r ∷ rs) (s ∷ ss) =
    SameFields t u r s × (r.entry_hash ≡ s.entry_hash) × SameChain t u rs ss
SameChain t u _ _ = ⊥

same_links :
    (h : Sha256) (t u : EntryTable) (p q : Text) (rows other : List EntryRow)
    → length rows ≡ length other
    → IsChain h t p rows
    → IsChain h u q other
    → All (IsStorable t) rows
    → All (IsStorable u) other
    → head_hash p rows ≡ head_hash q other
    → ((p ≡ q) × SameChain t u rows other) ⊎ HasCollision h t u rows other
same_links h t u p q [] [] n c d a b e = inl (e, tt)
same_links h t u p q [] (s ∷ ss) n c d a b e = absurd (omega arith)
same_links h t u p q (r ∷ rs) [] n c d a b e = absurd (omega arith)
same_links h t u p q (r ∷ rs) (s ∷ ss) n c d a b e =
    elim (same_links h t u r.entry_hash s.entry_hash rs ss (omega arith) c.2 d.2 a.1 b.1 e) [
      | inr found ↦ inr (inr found)
      | inl (hashes, rest) ↦ elim (hash_of-injective h t u r s a.0 b.0 (sym c.1 ∙ hashes ∙ d.1)) [
        | inr found ↦ inr (inl found)
        | inl fields ↦ inl (sym c.0 ∙ fields.previous_hash ∙ d.0, (fields, hashes, rest))
      ]
    ]

-- Two tables of as many rows, whose texts have no surrogates, that both form a chain from the
-- genesis hash and end in the same hash agree, row by row, in every hashed field and in the
-- entry hash, or at some place the texts that the two tables' rows are hashed from differ and have
-- the same SHA-256 digest.
pub tamper_evidence :
    (h : Sha256) (t u : EntryTable)
    → length t.rows ≡ length u.rows
    → IsChain h t genesis_previous_hash t.rows
    → IsChain h u genesis_previous_hash u.rows
    → All (IsStorable t) t.rows
    → All (IsStorable u) u.rows
    → head_hash genesis_previous_hash t.rows ≡ head_hash genesis_previous_hash u.rows
    → SameChain t u t.rows u.rows ⊎ HasCollision h t u t.rows u.rows
tamper_evidence h t u n c d a b e =
    elim (same_links h t u genesis_previous_hash genesis_previous_hash t.rows u.rows n c d a b e) [
      | inl (_, same) ↦ inl same
      | inr found ↦ inr found
    ]
