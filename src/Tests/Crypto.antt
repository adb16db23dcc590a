-- ===== src/Tests/Crypto.antt =====
-- Keys, envelopes and signatures at concrete inputs, with stand-ins for the primitives.
use rsmsg.Base.{
  ◌==◌, nat_eq, text_eq, length, drop, ◌≡◌, refl, some, [], ◌∷◌, ◌++◌, arith, ℕ_discrete,
}
use rsmsg.Base.Text.{codes}
use rsmsg.Base.Utf8.{as_bytes}
use rsmsg.Crypto.Primitives.{Bytes, Primitives, PrimitiveLaws}
use rsmsg.Crypto.Engine.{
  good, ◌>>=◌, or_anyhow, ensure, prekey_signature_payload, decode_key, generate_x25519_keypair,
  generate_ed25519_keypair, sign_prekey_b64, verify_prekey_signature_b64, derive_shared_key_b64,
  encrypt_bytes, encrypt_bytes_to_b64, encrypt_text_to_b64, decrypt_text_from_b64,
}
use rsmsg.Tests.Clients.{repeat}
use rsmsg.Crypto.Agreement.{decrypt-encrypt_text, derived_keys_agree, verify-sign_prekey}

instance unfoldable pub toy_primitives : Primitives
toy_primitives = record {
  encode = λ b. b;
  decode = λ s. some s;
  x25519_public = λ k. repeat 32 (length k);
  diffie_hellman = λ a b. [];
  ed25519_public = λ k. repeat 32 7;
  sign = λ k m. m;
  verifying_key = λ k. some k;
  signature = λ s. some s;
  verify = λ k m s. m == s;
  expand = λ k info n. some (repeat 32 (length info));
  encrypt = λ k n m. some (n ++ m);
  decrypt = λ k n c. some (drop (length n) c);
}

drop-prefix : (n m : Bytes) → drop (length n) (n ++ m) ≡ m
drop-prefix [] m = refl
drop-prefix (x ∷ n) m = drop-prefix n m

pub toy_laws : PrimitiveLaws toy_primitives
unfolding toy_primitives text_eq
toy_laws = record {
  decode-encode = λ b. refl;
  x25519_size = λ k. refl;
  commute = λ a b. refl;
  ed25519_size = λ k. refl;
  known = λ k. refl;
  well_formed = λ k m. refl;
  verify-sign = λ k m. ground arith;
  expand_size = λ k info out e. ground arith;
  decrypt-encrypt = λ k n m c e. ground (arith, drop-prefix n m);
}

abbrev pub key : Bytes
key = repeat 32 5

abbrev pub nonce : Bytes
nonce = repeat 24 3

decrypt-encrypt_text_example :
    decrypt_text_from_b64 key (nonce ++ nonce ++ codes "hello") ≡ good (codes "hello")
unfolding encrypt_text_to_b64 encrypt_bytes_to_b64 encrypt_bytes decode_key or_anyhow ensure ◌>>=◌
    toy_primitives as_bytes nat_eq ℕ_discrete
decrypt-encrypt_text_example =
    decrypt-encrypt_text nonce key (codes "hello") (nonce ++ nonce ++ codes "hello") toy_laws refl
      (refl, (refl, (refl, (refl, (refl, tt))))) refl

derived_keys_agree_example :
    derive_shared_key_b64
      (generate_x25519_keypair key).private_b64
      (generate_x25519_keypair (repeat 32 6)).public_b64
    ≡ derive_shared_key_b64
        (generate_x25519_keypair (repeat 32 6)).private_b64
        (generate_x25519_keypair key).public_b64
derived_keys_agree_example = derived_keys_agree key (repeat 32 6) toy_laws refl refl

verify-sign_prekey_example :
    verify_prekey_signature_b64
      (generate_ed25519_keypair key).public_b64
      (codes "prekey")
      (codes "rsmsg-signed-prekey-v1prekey")
    ≡ good tt
unfolding sign_prekey_b64 generate_ed25519_keypair prekey_signature_payload decode_key or_anyhow
    ensure ◌>>=◌ toy_primitives nat_eq ℕ_discrete
verify-sign_prekey_example =
    verify-sign_prekey key (codes "prekey") (codes "rsmsg-signed-prekey-v1prekey") toy_laws refl
      refl
