-- ===== src/Ots/Laws.antt =====
-- What is relied on of the library opentimestamps.
use nexuscone.Prelude.{◌≡◌, ◌↔◌, ◌⊎◌, some, List}
use mathlib.Core.List.{Memᴰ}
use nexuscone.Text.{Text, Bytes}
use nexuscone.Ots.{Attestation, Timestamp, message, attested, Ots}

abbrev pub IsAmong : Bytes × Attestation → List (Bytes × Attestation) → Type 0
IsAmong x xs = Memᴰ x xs

-- A commitment with the calendar that is to be asked for it.
abbrev pub IsAsked : Bytes → Text → List (Bytes × Text) → Type 0
IsAsked c uri pairs = Memᴰ (c, uri) pairs

abbrev pub IsAttested : Bytes × Attestation → Timestamp → Type 0
IsAttested x t = Memᴰ x (attested t)

-- `merge` adds the operations and the attestations of the other timestamp; `deserialize` makes a
-- timestamp on the message that it is given, and reads back what `serialize` wrote, in whatever
-- order; `all_attestations` gives every attestation of the tree, in whatever order.
pub record OtsLaws (ots : Ots) : Type 0 where
  pub merge_message : (a b c : Timestamp) → ots.merge a b ≡ some c → message c ≡ message a
  pub merge_attested :
      (a b c : Timestamp)
      → ots.merge a b ≡ some c
      → (x : Bytes × Attestation) → IsAttested x c ↔ (IsAttested x a ⊎ IsAttested x b)
  pub deserialize_message :
      (blob msg : Bytes) (t : Timestamp) → ots.deserialize blob msg ≡ some t → message t ≡ msg
  pub read_back :
      (t : Timestamp) (blob : Bytes)
      → ots.serialize t ≡ some blob
      → (u : Timestamp) × (ots.deserialize blob (message t) ≡ some u)
        × ((x : Bytes × Attestation) → IsAttested x u ↔ IsAttested x t)
  pub all_attested :
      (t : Timestamp) (x : Bytes × Attestation) → Memᴰ x (ots.all_attestations t) ↔ IsAttested x t
