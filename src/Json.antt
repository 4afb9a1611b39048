-- ===== src/Json.antt =====
-- JSON values and Python's `json` module, as far as canonical.py and chain.py use it.
-- `Value` has what a payload can hold except floats.
pub mod Print
pub mod Scan
pub mod Parse
pub mod Numbers
pub mod Fuel
pub mod Shrink
pub mod Tokens
pub mod Agree
pub mod Enough
pub mod Order
pub mod Steps
pub mod Scalars
pub mod RoundTrip
pub mod Ascii
use nexuscone.Prelude.{ℕ, suc, ◌+◌, Bool, true, false, if◌then◌else◌, Option, none, some}
use nexuscone.Prelude.Int.{ℤ}
use nexuscone.Text.{Text, text_eq, text_ltb}

-- A dict is its members in the order of insertion.
mutual
  pub data Value : Type 0 where
    null : Value
    boolean : Bool → Value
    int : ℤ → Value
    str : Text → Value
    arr : Items → Value
    obj : Members → Value

  pub data Items : Type 0 where
    nil : Items
    cons : Value → Items → Items

  pub data Members : Type 0 where
    end : Members
    member : Text → Value → Members → Members

-- Insertion by key, before the first key that is not smaller.
unfoldable pub insert_member : Text → Value → Members → Members
insert_member k v end = member k v end
insert_member k v (member j w ms) =
    if text_ltb j k then member j w (insert_member k v ms) else member k v (member j w ms)

-- What `sort_keys=True` does to every dict of a value.
unfoldable mutual
  pub sort_keys : Value → Value
  sort_keys null = null
  sort_keys (boolean b) = boolean b
  sort_keys (int n) = int n
  sort_keys (str s) = str s
  sort_keys (arr xs) = arr (sort_items xs)
  sort_keys (obj ms) = obj (sort_members ms)

  pub sort_items : Items → Items
  sort_items nil = nil
  sort_items (cons x xs) = cons (sort_keys x) (sort_items xs)

  pub sort_members : Members → Members
  sort_members end = end
  sort_members (member k v ms) = insert_member k (sort_keys v) (sort_members ms)

-- The value of a key, and a dict without it.
unfoldable pub member? : Text → Members → Option Value
member? k end = none
member? k (member j w ms) = if text_eq j k then some w else member? k ms

unfoldable pub without : Text → Members → Members
without k end = end
without k (member j w ms) = if text_eq j k then without k ms else member j w (without k ms)

-- `dict(pairs)`: a repeated key keeps its first place and its last value.
abbrev put_first : Text → Value → Option Value → Members → Members
put_first k v none d = member k v d
put_first k v (some w) d = member k w (without k d)

unfoldable pub dict_of : Members → Members
dict_of end = end
dict_of (member k v ms) = put_first k v (member? k (dict_of ms)) (dict_of ms)
