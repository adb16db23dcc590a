-- ===== src/Crypto/Agreement.antt =====
-- What two clients that use crates/crypto agree on.
use rsmsg.Base.{
  ltb, Option-cases, length, take, drop, ℕ, zero, suc, ◌≡◌, refl, ap, ◌∙◌, ◌⊎◌, inl, inr, false,
  some, List, [], ◌∷◌, ◌++◌, arith,
}
use rsmsg.Base.Text.{Text, codes}
use rsmsg.Base.Unique.{length-append}
use rsmsg.Base.Utf8.{IsText, as_bytes, from_utf8-as_bytes}
use rsmsg.Crypto.Primitives.{Bytes, Primitives, PrimitiveLaws}
use rsmsg.Crypto.Engine.{
  prekey_signature_payload, good, anyhow, Result, ◌>>=◌, or_anyhow, ensure, decode_key,
  generate_x25519_keypair, generate_ed25519_keypair, sign_prekey_b64, verify_prekey_signature_b64,
  derive_shared_key_b64, encrypt_bytes, encrypt_bytes_to_b64, decrypt_bytes, decrypt_bytes_from_b64,
  ratchet_step_b64, encrypt_text_to_b64, decrypt_text_from_b64,
}

pub take-length : {A : Type 0} (n : ℕ) (xs ys : List A) → length xs ≡ n → take n (xs ++ ys) ≡ xs
take-length zero [] ys e = refl
take-length zero (x ∷ xs) ys e = absurd (omega arith)
take-length (suc n) [] ys e = absurd (omega arith)
take-length (suc n) (x ∷ xs) ys e = ap (λ l. x ∷ l) (take-length n xs ys (omega arith))

pub drop-length : {A : Type 0} (n : ℕ) (xs ys : List A) → length xs ≡ n → drop n (xs ++ ys) ≡ ys
drop-length zero [] ys e = refl
drop-length zero (x ∷ xs) ys e = absurd (omega arith)
drop-length (suc n) [] ys e = absurd (omega arith)
drop-length (suc n) (x ∷ xs) ys e = drop-length n xs ys (omega arith)

pub Result-cases :
    {A : Type 0} (r : Result A) → ((a : A) × (r ≡ good a)) ⊎ ((e : Text) × (r ≡ anyhow e))
Result-cases (good a) = inl (a, refl)
Result-cases (anyhow e) = inr (e, refl)

module _ ⦃p : Primitives⦄ where
  -- A key of 32 bytes is decoded from its text.
  pub key_decodes : (k : Bytes) → PrimitiveLaws p → length k ≡ 32 → decode_key (p.encode k) ≡ good k
  unfolding decode_key or_anyhow ensure ◌>>=◌
  key_decodes k laws size = let e = laws.decode-encode k in ground (arith, e, size)

  -- The same for bytes that are not encoded.
  pub decrypt-encrypt_bytes :
      (nonce : Bytes) (key_b64 : Text) (plaintext envelope : Bytes)
      → PrimitiveLaws p
      → length nonce ≡ 24
      → encrypt_bytes nonce key_b64 plaintext ≡ good envelope
      → decrypt_bytes key_b64 envelope ≡ good plaintext
  unfolding encrypt_bytes decrypt_bytes or_anyhow ensure ◌>>=◌
  decrypt-encrypt_bytes nonce key_b64 plaintext envelope laws size h =
      elim (Result-cases (decode_key key_b64)) [
        | inr (e, bad) ↦ absurd (ground (arith, bad))
        | inl (k, key) ↦ elim (Option-cases (p.encrypt k nonce plaintext)) [
          | inl none_made ↦ absurd (ground (arith, key, none_made))
          | inr (c, made) ↦
              let text : envelope ≡ nonce ++ c = ground (arith, key, made) in
              let front = take-length 24 nonce c size in
              let back = drop-length 24 nonce c size in
              let joined = length-append nonce c in
              let long : ltb (length (nonce ++ c)) 24 ≡ false = ground (arith, joined) in
              let opened = laws.decrypt-encrypt k nonce plaintext c made in
              ground (arith, key, text, front, back, long, opened)
        ]
      ]

  -- What is encrypted with a nonce of 24 bytes is decrypted again with the same key, whatever the
  -- plaintext is.
  pub decrypt-encrypt_b64 :
      (nonce : Bytes) (key_b64 : Text) (plaintext : Bytes) (envelope_b64 : Text)
      → PrimitiveLaws p
      → length nonce ≡ 24
      → encrypt_bytes_to_b64 nonce key_b64 plaintext ≡ good envelope_b64
      → decrypt_bytes_from_b64 key_b64 envelope_b64 ≡ good plaintext
  unfolding encrypt_bytes_to_b64 decrypt_bytes_from_b64 or_anyhow ◌>>=◌
  decrypt-encrypt_b64 nonce key_b64 plaintext envelope_b64 laws size h =
      elim (Result-cases (encrypt_bytes nonce key_b64 plaintext)) [
        | inr (e, bad) ↦ absurd (ground (arith, bad))
        | inl (envelope, made) ↦
            let text : envelope_b64 ≡ p.encode envelope = ground (arith, made) in
            let read : p.decode envelope_b64 ≡ some envelope =
              ap p.decode text ∙ laws.decode-encode envelope in
            let opened = decrypt-encrypt_bytes nonce key_b64 plaintext envelope laws size made in
            ground (arith, read, opened)
      ]

  -- A text that is encrypted with a nonce of 24 bytes is decrypted again with the same key.
  pub decrypt-encrypt_text :
      (nonce : Bytes) (key_b64 plaintext envelope_b64 : Text)
      → PrimitiveLaws p
      → length nonce ≡ 24
      → IsText plaintext
      → encrypt_text_to_b64 nonce key_b64 plaintext ≡ good envelope_b64
      → decrypt_text_from_b64 key_b64 envelope_b64 ≡ good plaintext
  unfolding encrypt_text_to_b64 decrypt_text_from_b64 or_anyhow ◌>>=◌
  decrypt-encrypt_text nonce key_b64 plaintext envelope_b64 laws size text h =
      let opened =
        decrypt-encrypt_b64 nonce key_b64 (as_bytes plaintext) envelope_b64 laws size h in
      let read = from_utf8-as_bytes plaintext text in ground (arith, opened, read)

  -- Two clients derive the same shared key, or the same error: each from its own X25519 private key and
  -- the public key of the other.
  pub derived_keys_agree :
      (a b : Bytes)
      → PrimitiveLaws p
      → length a ≡ 32
      → length b ≡ 32
      → derive_shared_key_b64
          (generate_x25519_keypair a).private_b64
          (generate_x25519_keypair b).public_b64
        ≡ derive_shared_key_b64
            (generate_x25519_keypair b).private_b64
            (generate_x25519_keypair a).public_b64
  unfolding derive_shared_key_b64 generate_x25519_keypair or_anyhow ◌>>=◌
  derived_keys_agree a b laws la lb =
      let pa = key_decodes a laws la in
      let pb = key_decodes b laws lb in
      let qa = key_decodes (p.x25519_public a) laws (laws.x25519_size a) in
      let qb = key_decodes (p.x25519_public b) laws (laws.x25519_size b) in
      let same = laws.commute a b in ground (arith, pa, pb, qa, qb, same)

  -- A prekey that is signed with a generated Ed25519 key passes the check with its public key.
  pub verify-sign_prekey :
      (random : Bytes) (prekey_b64 signature_b64 : Text)
      → PrimitiveLaws p
      → length random ≡ 32
      → sign_prekey_b64 (generate_ed25519_keypair random).private_b64 prekey_b64
        ≡ good signature_b64
      → verify_prekey_signature_b64
          (generate_ed25519_keypair random).public_b64
          prekey_b64
          signature_b64
        ≡ good tt
  unfolding sign_prekey_b64 verify_prekey_signature_b64 generate_ed25519_keypair or_anyhow ensure
      ◌>>=◌
  verify-sign_prekey random prekey_b64 signature_b64 laws size h =
      let private = key_decodes random laws size in
      let public = key_decodes (p.ed25519_public random) laws (laws.ed25519_size random) in
      elim (Option-cases (p.decode prekey_b64)) [
        | inl bad ↦ absurd (ground (arith, private, bad))
        | inr (prekey, read) ↦
            let m = prekey_signature_payload prekey in
            let text : signature_b64 ≡ p.encode (p.sign random m) = ground (arith, private, read) in
            let bytes : p.decode signature_b64 ≡ some (p.sign random m) =
              ap p.decode text ∙ laws.decode-encode (p.sign random m) in
            let known = laws.known random in
            let shaped = laws.well_formed random m in
            let valid = laws.verify-sign random m in
            ground (arith, public, read, bytes, known, shaped, valid)
      ]

  -- The ratchet goes on: a step that succeeds gives a message key and a chain key that are keys of 32
  -- bytes again.
  pub ratchet_goes_on :
      (chain_key_b64 message_key_b64 next_b64 : Text)
      → PrimitiveLaws p
      → ratchet_step_b64 chain_key_b64 ≡ good (message_key_b64, next_b64)
      → (message_key : Bytes) × (next : Bytes) × (decode_key message_key_b64 ≡ good message_key)
        × (decode_key next_b64 ≡ good next)
        × (length message_key ≡ 32)
        × (length next ≡ 32)
  unfolding ratchet_step_b64 or_anyhow ◌>>=◌
  ratchet_goes_on chain_key_b64 message_key_b64 next_b64 laws h =
      elim (Result-cases (decode_key chain_key_b64)) [
        | inr (e, bad) ↦ absurd (ground (arith, bad))
        | inl (k, key) ↦ elim (Option-cases (p.expand k (codes "rsmsg-message-key-v1") 32)) [
          | inl bad ↦ absurd (ground (arith, key, bad))
          | inr (m, first) ↦ elim (Option-cases (p.expand k (codes "rsmsg-chain-key-v1") 32)) [
            | inl bad ↦ absurd (ground (arith, key, first, bad))
            | inr (n, second) ↦
                let m_size = laws.expand_size k (codes "rsmsg-message-key-v1") m first in
                let n_size = laws.expand_size k (codes "rsmsg-chain-key-v1") n second in
                let m_text : message_key_b64 ≡ p.encode m = ground (arith, key, first, second) in
                let n_text : next_b64 ≡ p.encode n = ground (arith, key, first, second) in
                (
                  m,
                  n,
                  ap decode_key m_text ∙ key_decodes m laws m_size,
                  ap decode_key n_text ∙ key_decodes n laws n_size,
                  m_size,
                  n_size,
                )
          ]
        ]
      ]
