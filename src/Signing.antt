-- ===== src/Signing.antt =====
-- signing.py: Ed25519 signers and verifiers. The library `cryptography` is a parameter.
pub mod Laws
use nexuscone.Prelude.{
  ℕ, Bool, true, false, not, Option, none, some, List, [], ◌∷◌, ◌==◌, length, ◌≡◌, if◌then◌else◌,
  All, ◌<◌,
}
use nexuscone.Text.{Text, Bytes, text_eq}
use nexuscone.Text.Hex.{hex, from_hex}
use nexuscone.Exec.{
  Result, ok, err, hex_error, seed_length_error, key_error, or_raise, raise_if, ◌>>=◌, ◌>>◌,
}
use nexuscone.Entries.{Signer}
use nexuscone.Entries.Verify.{Verifier}

-- Ed25519 of `cryptography`. `from_private_bytes` and `from_public_bytes` raise on bytes that are no
-- key. What is relied on: a raw public key is bytes and is read back, signatures are bytes, and a
-- signature by a key verifies under its public key.
pub record Ed25519 : Type 1 where
  pub PrivateKey : Type 0
  pub PublicKey : Type 0
  pub from_private_bytes : Bytes → Option PrivateKey
  pub public_key : PrivateKey → PublicKey
  pub public_bytes : PublicKey → Bytes
  pub from_public_bytes : Bytes → Option PublicKey
  pub sign : PrivateKey → Bytes → Bytes
  pub verify : PublicKey → Bytes → Bytes → Bool
  pub public_bytes_read : (k : PublicKey) → from_public_bytes (public_bytes k) ≡ some k
  pub public_bytes_bytes : (k : PublicKey) → All (λ b. b < 256) (public_bytes k)
  pub sign_bytes : (k : PrivateKey) (m : Bytes) → All (λ b. b < 256) (sign k m)
  pub verify_sign : (k : PrivateKey) (m : Bytes) → verify (public_key k) (sign k m) m ≡ true

module _ (lib : Ed25519) where
  -- class Ed25519Signer; `Ed25519Signer.generate` takes a key of the library's choice.
  pub record Ed25519Signer : Type 0 where
    pub key_id : Text
    pub private_key : lib.PrivateKey

  -- `Ed25519Signer.from_seed`
  unfoldable pub from_seed : Text → Text → Result Ed25519Signer
  from_seed key_id seed_hex = do
    seed ← or_raise hex_error (from_hex seed_hex)
    raise_if (not (length seed == 32)) seed_length_error
    private_key ← or_raise key_error (lib.from_private_bytes seed)
    ok (record { key_id = key_id; private_key = private_key })

  -- `public_key_hex`
  unfoldable pub public_key_hex : Ed25519Signer → Text
  public_key_hex s = hex (lib.public_bytes (lib.public_key s.private_key))

  -- `Ed25519Signer.sign`, as the protocol `Signer` of chain.py.
  unfoldable pub as_signer : Ed25519Signer → Signer
  as_signer s = record { key_id = s.key_id; sign = λ message. ok (lib.sign s.private_key message) }

  -- One public key of the mapping.
  unfoldable pub read_key : Text → Result lib.PublicKey
  read_key hex_key = do
    bytes ← or_raise hex_error (from_hex hex_key)
    or_raise key_error (lib.from_public_bytes bytes)

  -- `Ed25519Verifier.__init__`: the keys of the mapping in its order; keys differ in a mapping.
  unfoldable pub read_keys : List (Text × Text) → Result (List (Text × lib.PublicKey))
  unfolding read_key
  read_keys [] = ok []
  read_keys ((key_id, hex_key) ∷ rest) = do
    pub_key ← read_key hex_key
    keys ← read_keys rest
    ok ((key_id, pub_key) ∷ keys)

  -- `self._public_keys.get(key_id)`; a NULL key id is in no mapping.
  unfoldable pub find_key : List (Text × lib.PublicKey) → Text → Option lib.PublicKey
  find_key [] key_id = none
  find_key ((j, k) ∷ rest) key_id = if text_eq j key_id then some k else find_key rest key_id

  abbrev pub get_key : List (Text × lib.PublicKey) → Option Text → Option lib.PublicKey
  get_key keys none = none
  get_key keys (some key_id) = find_key keys key_id

  -- `Ed25519Verifier.verify`
  abbrev pub verify_with : Option lib.PublicKey → Bytes → Bytes → Bool
  verify_with none message signature = false
  verify_with (some k) message signature = lib.verify k signature message

  unfoldable pub as_verifier : List (Text × lib.PublicKey) → Verifier
  unfolding find_key
  as_verifier keys = record {
    verify = λ key_id message signature. some (verify_with (get_key keys key_id) message signature);
  }
