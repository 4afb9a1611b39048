-- ===== src/Rfc3161/Track.antt =====
-- Which authority answers a submission.
use nexuscone.Prelude.{
  ℕ, suc, ◌+◌, arith, Bool-cases, ◌≡◌, refl, sym, ◌∙◌, ap, ◌⊎◌, inl, inr, true, false, Option, none,
  some, List, [], ◌∷◌, ◌++◌, length,
}
use nexuscone.Text.{Text, Bytes}
use nexuscone.Exec.{Error, ok, err}
use nexuscone.Exec.Inversion.{ok-injective, Result-cases}
use nexuscone.Rfc3161.{Tsa, TsaResponse, submit_to_tsa, is_tsa_error, submit_tsa_track}

-- Every URL before the one that answered raised a TSAError, in the order of the list.
abbrev pub AllFail : Tsa → ℕ → Bytes → List Text → Type 0
AllFail tsa n digest [] = Unit
AllFail tsa n digest (url ∷ urls) =
    ((e : Error) × (submit_to_tsa tsa n digest url ≡ err e) × (is_tsa_error e ≡ true))
    × AllFail tsa (n + 1) digest urls

-- The URL that answered, and those before it.
pub record FirstAnswer (tsa : Tsa) (n : ℕ) (digest : Bytes) (urls : List Text) (r : TsaResponse)
    : Type 0 where
  pub before : List Text
  pub url : Text
  pub behind : List Text
  pub split : urls ≡ before ++ url ∷ behind
  pub failed : AllFail tsa n digest before
  pub answered : submit_to_tsa tsa (n + length before) digest url ≡ ok r

module _ (tsa : Tsa) (n : ℕ) (digest : Bytes) (last : Option Error) where
  track_nil :
      (answer : Option TsaResponse) (error : Option Error)
      → submit_tsa_track tsa n digest last [] ≡ ok (answer, error)
      → answer ≡ none
  unfolding submit_tsa_track
  track_nil answer error e =
      let same : (none, last) ≡ (answer, error) = ok-injective _ _ e in sym (ap (λ p. p.0) same)

  track_ok :
      (url : Text) (urls : List Text) (r : TsaResponse)
      → submit_to_tsa tsa n digest url ≡ ok r
      → submit_tsa_track tsa n digest last (url ∷ urls) ≡ ok (some r, none)
  unfolding submit_tsa_track
  track_ok url urls r e = rw (submit_tsa_track, e)

  track_goes_on :
      (url : Text) (urls : List Text) (x : Error)
      → submit_to_tsa tsa n digest url ≡ err x
      → is_tsa_error x ≡ true
      → submit_tsa_track tsa n digest last (url ∷ urls)
        ≡ submit_tsa_track tsa (n + 1) digest (some x) urls
  unfolding submit_tsa_track
  track_goes_on url urls x e caught = rw (submit_tsa_track, e, caught)

  track_raises :
      (url : Text) (urls : List Text) (x : Error)
      → submit_to_tsa tsa n digest url ≡ err x
      → is_tsa_error x ≡ false
      → submit_tsa_track tsa n digest last (url ∷ urls) ≡ err x
  unfolding submit_tsa_track
  track_raises url urls x e other = rw (submit_tsa_track, e, other)

err-not-ok : {A : Type 0} (x : Error) (a : A) → err x ≡ ok a → ⊥
err-not-ok x a e = cc

add_zero : (n : ℕ) → n + 0 ≡ n
add_zero n = omega arith

add_suc : (n m : ℕ) → n + suc m ≡ n + 1 + m
add_suc n m = omega arith

-- Where `_submit_tsa_track` returns a response, it is that of the first URL in the list whose
-- submission raises nothing, and every URL before it raised a TSAError.
-- Where it returns no response, every URL raised a TSAError.
pub submit_tsa_track_lem :
    (tsa : Tsa) (n : ℕ) (digest : Bytes) (last : Option Error) (urls : List Text)
    (answer : Option TsaResponse) (error : Option Error)
    → submit_tsa_track tsa n digest last urls ≡ ok (answer, error)
    → ((r : TsaResponse) × (answer ≡ some r) × FirstAnswer tsa n digest urls r)
      ⊎ ((answer ≡ none) × AllFail tsa n digest urls)
submit_tsa_track_lem tsa n digest last [] answer error e =
    let same = track_nil tsa n digest last answer error e in inr (same, tt)
submit_tsa_track_lem tsa n digest last (url ∷ urls) answer error e =
    elim (Result-cases (submit_to_tsa tsa n digest url)) [
      | inl (r, answered) ↦
          let same = ok-injective _ _ (sym (track_ok tsa n digest last url urls r answered) ∙ e) in
          inl (
            r,
            sym (ap (λ p. p.0) same),
            record {
              before = [];
              url = url;
              behind = urls;
              split = refl;
              failed = tt;
              answered = rw (add_zero n) answered;
            },
          )
      | inr (x, raised) ↦ elim (Bool-cases (is_tsa_error x)) [
        | inr other ↦ absurd (
            err-not-ok x (answer, error)
              (sym (track_raises tsa n digest last url urls x raised other) ∙ e))
        | inl caught ↦
            let failed : (y : Error) × (submit_to_tsa tsa n digest url ≡ err y)
                × (is_tsa_error y ≡ true) =
              (x, raised, caught) in
            let more = sym (track_goes_on tsa n digest last url urls x raised caught) ∙ e in
            elim (submit_tsa_track_lem tsa (n + 1) digest (some x) urls answer error more) [
              | inl (r, same, first) ↦ inl (
                r,
                same,
                record {
                  before = url ∷ first.before;
                  url = first.url;
                  behind = first.behind;
                  split = ap (λ us. url ∷ us) first.split;
                  failed = (failed, first.failed);
                  answered = rw (add_suc n (length first.before)) first.answered;
                },
              )
              | inr (same, all) ↦ inr (same, (failed, all))
            ]
      ]
    ]
