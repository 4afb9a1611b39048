-- ===== src/Ots.antt =====
-- The library opentimestamps, as poller.py, chain.py and verifier.py use it: a timestamp is a tree of
-- operations on a message, with attestations at its nodes. What the library computes is a parameter.
pub mod Laws
use nexuscone.Prelude.{ℕ, Option, List, ◌++◌, [], ◌∷◌, map}
use nexuscone.Text.{Text, Bytes}

-- PendingAttestation, BitcoinBlockHeaderAttestation, and any other kind.
pub data Attestation : Type 0 where
  pending : (uri : Text) → Attestation
  bitcoin : (height : ℕ) → Attestation
  other : (tag : Bytes) → Attestation

-- `node msg attestations ops`; of the operations only the values of the dict `ops` are read, in its
-- order.
mutual
  pub data Timestamp : Type 0 where
    node : Bytes → List Attestation → Children → Timestamp

  pub data Children : Type 0 where
    leaf : Children
    branch : (op : Bytes) → Timestamp → Children → Children

abbrev pub message : Timestamp → Bytes
message (node msg attestations ops) = msg

-- Every attestation of a tree with the message that it is about.
unfoldable mutual
  pub attested : Timestamp → List (Bytes × Attestation)
  attested (node msg attestations ops) = map (λ a. (msg, a)) attestations ++ attested_below ops

  pub attested_below : Children → List (Bytes × Attestation)
  attested_below leaf = []
  attested_below (branch op t ts) = attested t ++ attested_below ts

-- `submit n` is the n-th `RemoteCalendar(url).submit(digest)` of one call of `Ledger.anchor`;
-- `get_timestamp k n` is the n-th `RemoteCalendar(uri).get_timestamp(commitment)` for the k-th anchor
-- of a run of the poller. `none` is an exception. `deserialize` takes the proof and the message of
-- its root.
pub record Ots : Type 0 where
  pub timestamp : Bytes → Timestamp
  pub submit : ℕ → Text → Bytes → Option Timestamp
  pub get_timestamp : ℕ → ℕ → Text → Bytes → Option Timestamp
  pub merge : Timestamp → Timestamp → Option Timestamp
  pub serialize : Timestamp → Option Bytes
  pub deserialize : Bytes → Bytes → Option Timestamp
  pub all_attestations : Timestamp → List (Bytes × Attestation)
