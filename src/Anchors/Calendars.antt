-- ===== src/Anchors/Calendars.antt =====
-- The calendars of an anchor, as `json.dumps` writes them and `json.loads` reads them.
use nexuscone.Prelude.{
  ℕ, zero, suc, ◌+◌, ◌-◌, ◌*◌, ◌≤◌, ◌≡◌, refl, ap, List, [], ◌∷◌, ◌++◌, some, arith, length,
  length-append, All, map,
}
use nexuscone.Text.{Text}
use nexuscone.Text.Utf8.{IsScalarText}
use nexuscone.Json.{str, arr, Items, nil, cons}
use nexuscone.Json.Print.{print, print_string}
use nexuscone.Json.Parse.{skip_space, parse_value, parse_more_items, loads}
use nexuscone.Json.Numbers.{Ends, Starts, print-Starts, skip_space-Starts}
use nexuscone.Json.Steps.{value_arr, items_end, more_items_end, more_items_comma}
use nexuscone.Json.Scalars.{items_first-Starts, read_string}
use nexuscone.Json.Fuel.{length-print_string}
use nexuscone.Anchors.{values}
use nexuscone.Anchors.Submit.{dumps_more, dumps_texts}

abbrev pub items_of : List Text → Items
items_of [] = nil
items_of (s ∷ ss) = cons (str s) (items_of ss)

-- The fuel for reading the texts after the first.
need_more : List Text → ℕ
need_more [] = 1
need_more (s ∷ ss) = length s + 2 + need_more ss

need_more-le : (ss : List Text) → need_more ss ≤ length (dumps_more ss)
unfolding need_more
need_more-le [] = omega arith
need_more-le (s ∷ ss) =
    omega (
      arith,
      length-append (print_string s) (dumps_more ss),
      length-print_string s,
      need_more-le ss,
    )

Ends-dumps_more : (ss : List Text) → Ends (dumps_more ss)
Ends-dumps_more [] = (refl, refl)
Ends-dumps_more (s ∷ ss) = (refl, refl)

skip_space-dumps_more : (ss : List Text) → skip_space (dumps_more ss) ≡ dumps_more ss
unfolding skip_space
skip_space-dumps_more [] = refl
skip_space-dumps_more (s ∷ ss) = refl

print_string-Starts : (s : Text) → Starts (print_string s)
unfolding print
print_string-Starts s = print-Starts (str s)

skip_blank : (s : Text) → skip_space (b' ' ∷ s) ≡ skip_space s
unfolding skip_space
skip_blank s = refl

read_texts :
    (ss : List Text) (f : ℕ)
    → All IsScalarText ss
    → need_more ss ≤ f
    → parse_more_items f (dumps_more ss) ≡ some (items_of ss, [])
unfolding need_more
read_texts [] zero h k = absurd (omega (arith, k))
read_texts [] (suc f) h k = more_items_end f []
read_texts (s ∷ ss) zero h k = absurd (omega (arith, k))
read_texts (s ∷ ss) (suc f) h k =
    let e : f ≡ suc (f - 1) = omega (arith, k) in
    let first : parse_value f (print_string s ++ dumps_more ss) ≡ some (str s, dumps_more ss) =
      rw e (read_string s (dumps_more ss) (f - 1) h.0 (omega (arith, k))) in
    rw
      (
        more_items_comma f (b' ' ∷ print_string s ++ dumps_more ss),
        skip_blank (print_string s ++ dumps_more ss),
        skip_space-Starts (print_string s) (dumps_more ss) (print_string-Starts s),
        first,
        skip_space-dumps_more ss,
        read_texts ss f h.1 (omega (arith, k)),
      )
      refl

bracket_solid : skip_space (b']' ∷ []) ≡ b']' ∷ []
unfolding skip_space
bracket_solid = refl

read_dumped :
    (ss : List Text) (f : ℕ)
    → All IsScalarText ss
    → need_more ss + 2 ≤ f
    → parse_value f (dumps_texts ss) ≡ some (arr (items_of ss), [])
unfolding need_more dumps_texts
read_dumped ss zero h k = absurd (omega (arith, k))
read_dumped ss (suc zero) h k = absurd (omega (arith, k))
read_dumped [] (suc (suc f)) h k =
    rw (value_arr (suc f) (b']' ∷ []), bracket_solid, items_end f []) refl
read_dumped (s ∷ ss) (suc (suc f)) h k =
    let e : f ≡ suc (f - 1) = omega (arith, k) in
    let first : parse_value f (print_string s ++ dumps_more ss) ≡ some (str s, dumps_more ss) =
      rw e (read_string s (dumps_more ss) (f - 1) h.0 (omega (arith, k))) in
    rw
      (
        value_arr (suc f) (print_string s ++ dumps_more ss),
        skip_space-Starts (print_string s) (dumps_more ss) (print_string-Starts s),
        items_first-Starts f (print_string s) (dumps_more ss) (print_string-Starts s),
        first,
        skip_space-dumps_more ss,
        read_texts ss f h.1 (omega (arith, k)),
      )
      refl

dumps-blank : (ss : List Text) → skip_space (dumps_texts ss) ≡ dumps_texts ss
unfolding skip_space dumps_texts
dumps-blank [] = refl
dumps-blank (s ∷ ss) = refl

dumps-length : (ss : List Text) → need_more ss ≤ 2 * length (dumps_texts ss)
unfolding need_more dumps_texts
dumps-length [] = omega arith
dumps-length (s ∷ ss) =
    omega (
      arith,
      length-append (print_string s) (dumps_more ss),
      length-print_string s,
      need_more-le ss,
    )

-- `json.loads` gives back the list that `json.dumps` wrote, if its texts have no surrogates.
pub loads-dumps_texts :
    (ss : List Text) → All IsScalarText ss → loads (dumps_texts ss) ≡ some (arr (items_of ss))
unfolding loads skip_space
loads-dumps_texts ss h =
    let n = 2 * length (dumps_texts ss) + 2 in
    rw (dumps-blank ss, read_dumped ss n h (omega (arith, dumps-length ss))) refl

pub values-items_of : (ss : List Text) → values (items_of ss) ≡ map str ss
values-items_of [] = refl
values-items_of (s ∷ ss) = ap (λ vs. str s ∷ vs) (values-items_of ss)
