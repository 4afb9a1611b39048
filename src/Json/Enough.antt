-- ===== src/Json/Enough.antt =====
-- The fuel of the decoder.
use nexuscone.Prelude.{
  ℕ, zero, suc, ◌+◌, ◌*◌, ◌≤◌, ◌<◌, ◌≡◌, refl, ap, [], ◌∷◌, arith, ◌==◌, length,
}
use nexuscone.Text.{Text}
use nexuscone.Json.Print.{quote}
use nexuscone.Json.Scan.{scan}
use nexuscone.Json.Parse.{
  skip_space, keyed, parse_value, parse_items, parse_more_items, parse_members, parse_more_members,
  parse_key, finish, loads,
}
use nexuscone.Json.Shrink.{length-skip_space, Agree, Agree-mono, scan-Agree}
use nexuscone.Json.Agree.{AgreeBelow, as_arr-Agree, as_obj-Agree, and_more-Agree, keyed-Agree}
use nexuscone.Json.Tokens.{choose-Agree, parse_scalar-Agree}

-- A member behind its opening quote.
member-Agree :
    (f g : ℕ) (cs : Text)
    → AgreeBelow (length cs) (parse_value f) (parse_value g)
    → AgreeBelow (length cs) (parse_more_members f) (parse_more_members g)
    → length cs ≤ f
    → length cs ≤ g
    → Agree
        (suc (length cs))
        (keyed (parse_value f) (parse_more_members f) (scan (suc f) cs))
        (keyed (parse_value g) (parse_more_members g) (scan (suc g) cs))
member-Agree f g cs values below h k = Agree-mono (length cs) (suc (length cs)) _ _ (omega arith) (
    keyed-Agree (length cs) (parse_value f) (parse_value g) (parse_more_members f)
      (parse_more_members g) (scan (suc f) cs) (scan (suc g) cs) values below
      (scan-Agree (suc f) (suc g) cs (omega (arith, h)) (omega (arith, k))))

mutual
  unfolding parse_value

  value-Agree :
      (f g : ℕ) (s : Text)
      → 2 * length s < f
      → 2 * length s < g
      → Agree (length s) (parse_value f s) (parse_value g s)
  value-Agree zero g s h k = absurd (omega (arith, h))
  value-Agree (suc f) zero s h k = absurd (omega (arith, k))
  value-Agree (suc f) (suc g) [] h k = (refl, tt)
  value-Agree (suc f) (suc g) (c ∷ cs) h k =
      let n = suc (length cs) in
      let t = skip_space cs in
      let short = length-skip_space cs in
      choose-Agree n (c == b'[') _ _ _ _
        (as_arr-Agree n (parse_items f t) (parse_items g t) (
          Agree-mono (length t) n (parse_items f t) (parse_items g t) (omega (arith, short))
            (items-Agree f g t (omega (arith, short, h)) (omega (arith, short, k)))))
        (choose-Agree n (c == b'{') _ _ _ _
          (as_obj-Agree n (parse_members f t) (parse_members g t) (
            Agree-mono (length t) n (parse_members f t) (parse_members g t) (omega (arith, short))
              (members-Agree f g t (omega (arith, short, h)) (omega (arith, short, k)))))
          (parse_scalar-Agree (suc f) (suc g) c cs (omega (arith, h)) (omega (arith, k))))

  items-Agree :
      (f g : ℕ) (s : Text)
      → 2 * length s + 1 < f
      → 2 * length s + 1 < g
      → Agree (length s) (parse_items f s) (parse_items g s)
  items-Agree zero g s h k = absurd (omega (arith, h))
  items-Agree (suc f) zero s h k = absurd (omega (arith, k))
  items-Agree (suc f) (suc g) [] h k = (refl, tt)
  items-Agree (suc f) (suc g) (c ∷ cs) h k =
      let n = suc (length cs) in
      choose-Agree n (c == b']') _ _ _ _ (refl, omega arith)
        (and_more-Agree n (parse_more_items f) (parse_more_items g) (parse_value f (c ∷ cs))
          (parse_value g (c ∷ cs))
          (λ t short. more_items-Agree f g t (omega (arith, short, h)) (omega (arith, short, k)))
          (value-Agree f g (c ∷ cs) (omega (arith, h)) (omega (arith, k))))

  more_items-Agree :
      (f g : ℕ) (s : Text)
      → 2 * length s < f
      → 2 * length s < g
      → Agree (length s) (parse_more_items f s) (parse_more_items g s)
  more_items-Agree zero g s h k = absurd (omega (arith, h))
  more_items-Agree (suc f) zero s h k = absurd (omega (arith, k))
  more_items-Agree (suc f) (suc g) [] h k = (refl, tt)
  more_items-Agree (suc f) (suc g) (c ∷ cs) h k =
      let n = suc (length cs) in
      let t = skip_space cs in
      let short = length-skip_space cs in
      choose-Agree n (c == b']') _ _ _ _ (refl, omega arith)
        (choose-Agree n (c == b',') _ _ _ _
          (Agree-mono (length t) n _ _ (omega (arith, short)) (
            and_more-Agree (length t) (parse_more_items f) (parse_more_items g) (parse_value f t)
              (parse_value g t)
              (λ u less.
                more_items-Agree f g u (omega (arith, short, less, h))
                  (omega (arith, short, less, k)))
              (value-Agree f g t (omega (arith, short, h)) (omega (arith, short, k)))))
          (refl, tt))

  members-Agree :
      (f g : ℕ) (s : Text)
      → 2 * length s < f
      → 2 * length s < g
      → Agree (length s) (parse_members f s) (parse_members g s)
  members-Agree zero g s h k = absurd (omega (arith, h))
  members-Agree (suc f) zero s h k = absurd (omega (arith, k))
  members-Agree (suc f) (suc g) [] h k = (refl, tt)
  members-Agree (suc f) (suc g) (c ∷ cs) h k =
      let n = suc (length cs) in
      choose-Agree n (c == b'}') _ _ _ _ (refl, omega arith)
        (choose-Agree n (c == quote) _ _ _ _
          (member-Agree f g cs
            (λ t less. value-Agree f g t (omega (arith, less, h)) (omega (arith, less, k)))
            (λ t less. more_members-Agree f g t (omega (arith, less, h)) (omega (arith, less, k)))
            (omega (arith, h)) (omega (arith, k)))
          (refl, tt))

  more_members-Agree :
      (f g : ℕ) (s : Text)
      → 2 * length s < f
      → 2 * length s < g
      → Agree (length s) (parse_more_members f s) (parse_more_members g s)
  more_members-Agree zero g s h k = absurd (omega (arith, h))
  more_members-Agree (suc f) zero s h k = absurd (omega (arith, k))
  more_members-Agree (suc f) (suc g) [] h k = (refl, tt)
  more_members-Agree (suc f) (suc g) (c ∷ cs) h k =
      let n = suc (length cs) in
      let t = skip_space cs in
      let short = length-skip_space cs in
      choose-Agree n (c == b'}') _ _ _ _ (refl, omega arith)
        (choose-Agree n (c == b',') _ _ _ _
          (Agree-mono (length t) n (parse_key f t) (parse_key g t) (omega (arith, short))
            (key-Agree f g t (omega (arith, short, h)) (omega (arith, short, k))))
          (refl, tt))

  key-Agree :
      (f g : ℕ) (s : Text)
      → 2 * length s < f
      → 2 * length s < g
      → Agree (length s) (parse_key f s) (parse_key g s)
  key-Agree zero g s h k = absurd (omega (arith, h))
  key-Agree (suc f) zero s h k = absurd (omega (arith, k))
  key-Agree (suc f) (suc g) [] h k = (refl, tt)
  key-Agree (suc f) (suc g) (c ∷ cs) h k =
      choose-Agree (suc (length cs)) (c == quote) _ _ _ _
        (member-Agree f g cs
          (λ t less. value-Agree f g t (omega (arith, less, h)) (omega (arith, less, k)))
          (λ t less. more_members-Agree f g t (omega (arith, less, h)) (omega (arith, less, k)))
          (omega (arith, h)) (omega (arith, k)))
        (refl, tt)

-- `json.loads` needs no more fuel than it is given, on any text: with more it decodes to the same
-- value, or fails as before.
pub loads-enough :
    (s : Text) (fuel : ℕ)
    → 2 * length s + 2 ≤ fuel
    → loads s ≡ finish (parse_value fuel (skip_space s))
unfolding loads
loads-enough s fuel h =
    let short = length-skip_space s in
    ap finish
      (value-Agree (2 * length s + 2) fuel (skip_space s) (omega (arith, short))
        (omega (arith, short, h))).0
