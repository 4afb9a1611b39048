-- ===== src/Schedule/Rule.antt =====
-- The rule that `should_anchor` decides.
use nexuscone.Prelude.{
  ◌+◌, ◌*◌, ◌≤◌, ◌≡◌, refl, ◌↔◌, ◌⊎◌, inl, inr, Bool, true, false, Option, none, some, arith,
  if◌then◌else◌,
}
use nexuscone.Prelude.Int.{ℤ, pos, negsuc, ◌≤ℤ◌, leb_ℤ, leb_ℤ_iff}
use nexuscone.Time.{DateTime, micros}
use nexuscone.Schedule.{AnchorSchedule, elapsed_at_least, since_last, should_anchor}

-- The minutes have passed since the last anchor, or there is none.
unfoldable pub IsDue : ℤ → Option DateTime → DateTime → Type 0
IsDue minutes none now = Unit
IsDue (pos m) (some last) now = micros last + m * 60000000 ≤ micros now
IsDue (negsuc m) (some last) now = micros last ≤ micros now + (m + 1) * 60000000

elapsed_iff :
    (m : ℤ) (now last : DateTime) → (elapsed_at_least now last m ≡ true) ↔ IsDue m (some last) now
unfolding elapsed_at_least IsDue
elapsed_iff (pos m) now last = ground arith
elapsed_iff (negsuc m) now last = ground arith

rule_iff :
    (enabled enough empty due : Bool)
    → ((if enabled then (if enough then true else if empty then false else due) else false) ≡ true)
      ↔ ((enabled ≡ true) × ((enough ≡ true) ⊎ ((empty ≡ false) × (due ≡ true))))
rule_iff true true empty due = (λ _. (refl, inl refl), λ _. refl)
rule_iff true false true due = ground arith
rule_iff true false false due = ground arith
rule_iff false enough empty due = ground arith

since_last_iff :
    (m : ℤ) (last : Option DateTime) (now : DateTime)
    → (since_last m last now ≡ true) ↔ IsDue m last now
unfolding IsDue
since_last_iff m none now = (λ _. tt, λ _. refl)
since_last_iff m (some last) now = elapsed_iff m now last

some_new : (n : ℤ) → (leb_ℤ n (pos 0) ≡ false) ↔ (pos 1 ≤ℤ n)
some_new n = ground arith

-- `should_anchor` holds exactly on an enabled schedule with enough new entries, or with at least one
-- new entry and enough minutes since the last anchor (or no anchor yet).
pub should_anchor_iff :
    (s : AnchorSchedule) (n : ℤ) (last : Option DateTime) (now : DateTime)
    → (should_anchor s n last now ≡ true) ↔ (
        (s.enabled ≡ true)
        × ((s.every_n_entries ≤ℤ n) ⊎ ((pos 1 ≤ℤ n) × IsDue s.every_m_minutes last now)))
unfolding should_anchor
should_anchor_iff s n last now =
    let due = since_last_iff s.every_m_minutes last now in
    let enough = leb_ℤ_iff s.every_n_entries n in
    let new = some_new n in
    let both =
      rule_iff s.enabled (leb_ℤ s.every_n_entries n) (leb_ℤ n (pos 0))
        (since_last s.every_m_minutes last now) in
    (
      λ e.
          let (on, fires) = both.0 e in
          (on, elim fires [ inl a ↦ inl (enough.0 a) | inr (b, c) ↦ inr (new.0 b, due.0 c) ]),
      λ (on, fires).
          both.1
            (on, elim fires [ inl a ↦ inl (enough.1 a) | inr (b, c) ↦ inr (new.1 b, due.1 c) ]),
    )
