-- ===== src/Json/Agree.antt =====
-- Readers of the decoder that agree on short texts.
use nexuscone.Prelude.{ℕ, ◌<◌, refl, ap, sym, [], ◌∷◌, Option, none, some, arith, ◌==◌, length}
use nexuscone.Text.{Text}
use nexuscone.Json.{Value, Items, Members}
use nexuscone.Json.Parse.{
  skip_space, valued, colon, as_arr, as_obj, add_item, add_member, keyed, and_more,
}
use nexuscone.Json.Shrink.{length-skip_space, Agree, Agree-mono}
use nexuscone.Json.Tokens.{choose-Agree}

-- Two readers that agree on every text of fewer than `n` characters, and take something of it.
abbrev pub AgreeBelow :
    {A : Type 0} → ℕ → (Text → Option (A × Text)) → (Text → Option (A × Text)) → Type 0
AgreeBelow n r q = (s : Text) → length s < n → Agree (length s) (r s) (q s)

pub as_arr-Agree :
    (n : ℕ) (o p : Option (Items × Text)) → Agree n o p → Agree n (as_arr o) (as_arr p)
as_arr-Agree n none p (same, w) = (ap as_arr same, tt)
as_arr-Agree n (some (xs, rest)) p (same, w) = (ap as_arr same, w)

pub as_obj-Agree :
    (n : ℕ) (o p : Option (Members × Text)) → Agree n o p → Agree n (as_obj o) (as_obj p)
as_obj-Agree n none p (same, w) = (ap as_obj same, tt)
as_obj-Agree n (some (ms, rest)) p (same, w) = (ap as_obj same, w)

add_item-Agree :
    (n : ℕ) (v : Value) (o p : Option (Items × Text))
    → Agree n o p
    → Agree n (add_item v o) (add_item v p)
add_item-Agree n v none p (same, w) = (ap (add_item v) same, tt)
add_item-Agree n v (some (xs, rest)) p (same, w) = (ap (add_item v) same, w)

add_member-Agree :
    (n : ℕ) (k : Text) (v : Value) (o p : Option (Members × Text))
    → Agree n o p
    → Agree n (add_member k v o) (add_member k v p)
add_member-Agree n k v none p (same, w) = (ap (add_member k v) same, tt)
add_member-Agree n k v (some (ms, rest)) p (same, w) = (ap (add_member k v) same, w)

pub and_more-Agree :
    (n : ℕ) (r q : Text → Option (Items × Text)) (o p : Option (Value × Text))
    → AgreeBelow n r q
    → Agree n o p
    → Agree n (and_more r o) (and_more q p)
and_more-Agree n r q none p below (same, w) = rw (sym same) (refl, tt)
and_more-Agree n r q (some (v, rest)) p below (same, w) =
    let short : length (skip_space rest) < n = omega (arith, length-skip_space rest, w) in
    rw (sym same) (
      add_item-Agree n v (r (skip_space rest)) (q (skip_space rest)) (
        Agree-mono (length (skip_space rest)) n (r (skip_space rest)) (q (skip_space rest))
          (omega (arith, short)) (below (skip_space rest) short)))

valued-Agree :
    (n : ℕ) (k : Text) (r q : Text → Option (Members × Text)) (o p : Option (Value × Text))
    → AgreeBelow n r q
    → Agree n o p
    → Agree n (valued k r o) (valued k q p)
valued-Agree n k r q none p below (same, w) = rw (sym same) (refl, tt)
valued-Agree n k r q (some (v, rest)) p below (same, w) =
    let short : length (skip_space rest) < n = omega (arith, length-skip_space rest, w) in
    rw (sym same) (
      add_member-Agree n k v (r (skip_space rest)) (q (skip_space rest)) (
        Agree-mono (length (skip_space rest)) n (r (skip_space rest)) (q (skip_space rest))
          (omega (arith, short)) (below (skip_space rest) short)))

colon-Agree :
    (n : ℕ) (v w : Text → Option (Value × Text)) (r q : Text → Option (Members × Text)) (k s : Text)
    → AgreeBelow n v w
    → AgreeBelow n r q
    → length s < n
    → Agree n (colon v r k s) (colon w q k s)
colon-Agree n v w r q k [] values below h = (refl, tt)
colon-Agree n v w r q k (c ∷ cs) values below h =
    let t = skip_space cs in
    let short : length t < n = omega (arith, length-skip_space cs, h) in
    choose-Agree n (c == b':') (valued k r (v t)) (valued k q (w t)) none none
      (valued-Agree n k r q (v t) (w t) below
        (Agree-mono (length t) n (v t) (w t) (omega (arith, short)) (values t short)))
      (refl, tt)

pub keyed-Agree :
    (n : ℕ) (v w : Text → Option (Value × Text)) (r q : Text → Option (Members × Text))
    (o p : Option (Text × Text))
    → AgreeBelow n v w
    → AgreeBelow n r q
    → Agree n o p
    → Agree n (keyed v r o) (keyed w q p)
keyed-Agree n v w r q none p values below (same, h) = rw (sym same) (refl, tt)
keyed-Agree n v w r q (some (k, s)) p values below (same, h) =
    rw (sym same)
      (colon-Agree n v w r q k (skip_space s) values below (omega (arith, length-skip_space s, h)))
