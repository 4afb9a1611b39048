-- ===== src/Signing/Laws.antt =====
-- Signers, and verifiers that were given their public keys.
use nexuscone.Prelude.{
  ◌≡◌, refl, sym, ◌∙◌, ap, some, none, List, [], ◌∷◌, inl, inr, Bool-cases, Option, if◌then◌else◌,
}
use nexuscone.Text.{Text, text_eq}
use nexuscone.Text.Hex.{from_hex-hex}
use nexuscone.Exec.{ok}
use nexuscone.Exec.Inversion.{>>=-eq-ok, ok-injective}
use nexuscone.Entries.Signed.{Knows}
use nexuscone.Signing.{
  Ed25519, Ed25519Signer, public_key_hex, as_signer, read_key, read_keys, find_key, as_verifier,
}

-- The value of a key in the mapping.
unfoldable pub mapping_get : List (Text × Text) → Text → Option Text
mapping_get [] key_id = none
mapping_get ((j, hex_key) ∷ rest) key_id =
    if text_eq j key_id then some hex_key else mapping_get rest key_id

module _ (lib : Ed25519) where
  -- Reading the mapping keeps each key under its id.
  read_keys_lem :
      (mapping : List (Text × Text)) (keys : List (Text × lib.PublicKey)) (key_id hex_key : Text)
      → read_keys lib mapping ≡ ok keys
      → mapping_get mapping key_id ≡ some hex_key
      → (k : lib.PublicKey) × (find_key lib keys key_id ≡ some k) × (read_key lib hex_key ≡ ok k)
  unfolding read_keys find_key mapping_get
  read_keys_lem [] keys key_id hex_key e = λ f. cc f
  read_keys_lem ((j, x) ∷ rest) keys key_id hex_key e =
      let (k, read, e₁) = >>=-eq-ok (read_key lib x) _ e in
      let (ks, reads, e₂) = >>=-eq-ok (read_keys lib rest) _ e₁ in
      let same : (j, k) ∷ ks ≡ keys = ok-injective _ _ e₂ in
      elim (Bool-cases (text_eq j key_id)) [
        | inl own ↦ rw own (λ f.
            let here : x ≡ hex_key = cc f in
            (k, rw (sym same) rw own refl, ap (read_key lib) (sym here) ∙ read))
        | inr differs ↦ rw differs (λ f.
            let (found, at, decoded) = read_keys_lem rest ks key_id hex_key reads f in
            (found, rw (sym same) rw differs at, decoded))
      ]

  read_key-public :
      (s : Ed25519Signer lib)
      → read_key lib (public_key_hex lib s) ≡ ok (lib.public_key s.private_key)
  unfolding read_key public_key_hex
  read_key-public s =
      let k = lib.public_key s.private_key in
      rw (from_hex-hex (lib.public_bytes k) (lib.public_bytes_bytes k), lib.public_bytes_read k)

  -- A verifier built from a mapping that holds a signer's public key under the signer's id accepts
  -- what that signer returns for every message, and it is bytes.
  pub as_verifier-Knows :
      (s : Ed25519Signer lib) (mapping : List (Text × Text)) (keys : List (Text × lib.PublicKey))
      → read_keys lib mapping ≡ ok keys
      → mapping_get mapping s.key_id ≡ some (public_key_hex lib s)
      → Knows (as_verifier lib keys) (as_signer lib s)
  unfolding as_verifier as_signer
  as_verifier-Knows s mapping keys e f =
      let (k, found, read) = read_keys_lem mapping keys s.key_id (public_key_hex lib s) e f in
      let same : k ≡ lib.public_key s.private_key =
        ok-injective _ _ (sym read ∙ read_key-public s) in
      record {
        signature = λ m. lib.sign s.private_key m;
        signs = λ m. refl;
        accepts = λ m. rw (found, same, lib.verify_sign s.private_key m);
        bytes = λ m. lib.sign_bytes s.private_key m;
      }
