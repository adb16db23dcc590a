-- ===== src/Crypto/Engine.antt =====
-- crates/crypto/src/lib.rs: `CryptoEngine`. What OsRng draws is an argument, and an error is its text.
use rsmsg.Base.{
  ltb, if◌then◌else◌, ◌==◌, nat_eq, length, take, drop, String, Bool, true, false, Option, none,
  some, ◌++◌,
}
use rsmsg.Base.Text.{Text, codes}
use rsmsg.Base.Utf8.{as_bytes, from_utf8}
use rsmsg.Crypto.Primitives.{Bytes, Primitives}

pub data Result (A : Type 0) : Type 0 where
  good : A → Result A
  anyhow : Text → Result A

infixl 5 ◌>>=◌ ◌>>◌
unfoldable pub ◌>>=◌ : {A B : Type 0} → Result A → (A → Result B) → Result B
good a >>= f = f a
anyhow e >>= f = anyhow e

abbrev pub ◌>>◌ : {B : Type 0} → Result (Unit {0}) → Result B → Result B
m >> k = m >>= λ _. k

-- `ok_or` and `map_err` with a `?`, and an early return.
unfoldable pub or_anyhow : {A : Type 0} → Option A → String → Result A
or_anyhow none e = anyhow (codes e)
or_anyhow (some a) e = good a

unfoldable pub ensure : Bool → String → Result (Unit {0})
ensure true e = good tt
ensure false e = anyhow (codes e)

pub record KeyPair : Type 0 where
  pub private_b64 : Text
  pub public_b64 : Text

unfoldable pub prekey_signature_payload : Bytes → Bytes
prekey_signature_payload prekey = codes "rsmsg-signed-prekey-v1" ++ prekey

module _ ⦃p : Primitives⦄ where
  unfoldable pub decode_key : Text → Result Bytes
  unfolding or_anyhow ensure ◌>>=◌
  decode_key key_b64 = do
    bytes ← or_anyhow (p.decode key_b64) "invalid key base64"
    ensure (length bytes == 32) "key must be 32 bytes"
    good bytes

  -- `random` has 32 bytes.
  unfoldable pub generate_shared_key_b64 : Bytes → Text
  generate_shared_key_b64 random = p.encode random

  unfoldable pub generate_x25519_keypair : Bytes → KeyPair
  generate_x25519_keypair random = record {
    private_b64 = p.encode random;
    public_b64 = p.encode (p.x25519_public random);
  }

  unfoldable pub generate_ed25519_keypair : Bytes → KeyPair
  generate_ed25519_keypair random = record {
    private_b64 = p.encode random;
    public_b64 = p.encode (p.ed25519_public random);
  }

  unfoldable pub sign_prekey_b64 : Text → Text → Result Text
  unfolding decode_key prekey_signature_payload or_anyhow ◌>>=◌
  sign_prekey_b64 signing_private_b64 prekey_public_b64 = do
    private ← decode_key signing_private_b64
    prekey ← or_anyhow (p.decode prekey_public_b64) "invalid prekey base64"
    good (p.encode (p.sign private (prekey_signature_payload prekey)))

  unfoldable pub verify_prekey_signature_b64 : Text → Text → Text → Result (Unit {0})
  unfolding decode_key prekey_signature_payload or_anyhow ensure ◌>>=◌
  verify_prekey_signature_b64 signing_public_b64 prekey_public_b64 signature_b64 = do
    public ← decode_key signing_public_b64
    prekey ← or_anyhow (p.decode prekey_public_b64) "invalid prekey base64"
    signature_bytes ← or_anyhow (p.decode signature_b64) "invalid signature base64"
    verifying ← or_anyhow (p.verifying_key public) "invalid signing public key"
    signature ← or_anyhow (p.signature signature_bytes) "invalid prekey signature"
    ensure (p.verify verifying (prekey_signature_payload prekey) signature)
        "invalid prekey signature"

  unfoldable pub derive_shared_key_b64 : Text → Text → Result Text
  unfolding decode_key or_anyhow ◌>>=◌
  derive_shared_key_b64 own_private_b64 peer_public_b64 = do
    own_private ← decode_key own_private_b64
    peer_public ← decode_key peer_public_b64
    key ←
        or_anyhow (p.expand (p.diffie_hellman own_private peer_public) (codes "rsmsg-chat-key") 32)
          "hkdf expand failed"
    good (p.encode key)

  -- `nonce` is what the generator draws: 24 bytes.
  unfoldable pub encrypt_bytes : Bytes → Text → Bytes → Result Bytes
  unfolding decode_key or_anyhow ◌>>=◌
  encrypt_bytes nonce key_b64 plaintext = do
    key ← decode_key key_b64
    ciphertext ← or_anyhow (p.encrypt key nonce plaintext) "encryption failed"
    good (nonce ++ ciphertext)

  unfoldable pub encrypt_bytes_to_b64 : Bytes → Text → Bytes → Result Text
  unfolding ◌>>=◌
  encrypt_bytes_to_b64 nonce key_b64 plaintext = do
    bytes ← encrypt_bytes nonce key_b64 plaintext
    good (p.encode bytes)

  unfoldable pub decrypt_bytes : Text → Bytes → Result Bytes
  unfolding decode_key or_anyhow ensure ◌>>=◌
  decrypt_bytes key_b64 envelope = do
    key ← decode_key key_b64
    ensure (if ltb (length envelope) 24 then false else true) "invalid envelope length"
    or_anyhow (p.decrypt key (take 24 envelope) (drop 24 envelope)) "decryption failed"

  unfoldable pub decrypt_bytes_from_b64 : Text → Text → Result Bytes
  unfolding or_anyhow ◌>>=◌
  decrypt_bytes_from_b64 key_b64 envelope_b64 = do
    envelope ← or_anyhow (p.decode envelope_b64) "invalid envelope base64"
    decrypt_bytes key_b64 envelope

  unfoldable pub encrypt_text_to_b64 : Bytes → Text → Text → Result Text
  unfolding encrypt_bytes_to_b64
  encrypt_text_to_b64 nonce key_b64 plaintext =
      encrypt_bytes_to_b64 nonce key_b64 (as_bytes plaintext)

  unfoldable pub decrypt_text_from_b64 : Text → Text → Result Text
  unfolding decrypt_bytes_from_b64 or_anyhow ◌>>=◌
  decrypt_text_from_b64 key_b64 envelope_b64 = do
    plaintext ← decrypt_bytes_from_b64 key_b64 envelope_b64
    or_anyhow (from_utf8 plaintext) "invalid utf8 payload"

  -- The message key, and the chain key of the next step.
  unfoldable pub ratchet_step_b64 : Text → Result (Text × Text)
  unfolding decode_key or_anyhow ◌>>=◌
  ratchet_step_b64 chain_key_b64 = do
    chain_key ← decode_key chain_key_b64
    message_key ←
        or_anyhow (p.expand chain_key (codes "rsmsg-message-key-v1") 32) "hkdf expand failed"
    next ← or_anyhow (p.expand chain_key (codes "rsmsg-chain-key-v1") 32) "hkdf expand failed"
    good (p.encode message_key, p.encode next)
