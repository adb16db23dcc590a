-- ===== src/Crypto/Primitives.antt =====
-- What crates/crypto takes from other packages: base64, chacha20poly1305, ed25519-dalek, x25519-dalek,
-- hkdf and sha2. Keys, nonces and signatures are the lists of their bytes.
use rsmsg.Base.{ℕ, ◌≡◌, length, Bool, true, Option, some, List}
use rsmsg.Base.Text.{Text}

abbrev pub Bytes : Type 0
Bytes = List ℕ

pub record Primitives : Type 0 where
  -- base64's STANDARD engine
  pub encode : Bytes → Text
  pub decode : Text → Option Bytes
  -- `PublicKey::from` and `StaticSecret::diffie_hellman`
  pub x25519_public : Bytes → Bytes
  pub diffie_hellman : Bytes → Bytes → Bytes
  -- `verifying_key`, `sign`, `VerifyingKey::from_bytes`, `Signature::from_slice` and `verify`
  pub ed25519_public : Bytes → Bytes
  pub sign : Bytes → Bytes → Bytes
  pub verifying_key : Bytes → Option Bytes
  pub signature : Bytes → Option Bytes
  pub verify : Bytes → Bytes → Bytes → Bool
  -- `Hkdf::<Sha256>::new(None, key)` and `expand(info, ..)` to a number of bytes
  pub expand : Bytes → Bytes → ℕ → Option Bytes
  -- XChaCha20-Poly1305: a key, a nonce, and what is encrypted or decrypted
  pub encrypt : Bytes → Bytes → Bytes → Option Bytes
  pub decrypt : Bytes → Bytes → Bytes → Option Bytes

-- What is documented of them.
pub record PrimitiveLaws (p : Primitives) : Type 0 where
  pub decode-encode : (b : Bytes) → p.decode (p.encode b) ≡ some b
  pub x25519_size : (k : Bytes) → length (p.x25519_public k) ≡ 32
  pub commute :
      (a b : Bytes)
      → p.diffie_hellman a (p.x25519_public b) ≡ p.diffie_hellman b (p.x25519_public a)
  pub ed25519_size : (k : Bytes) → length (p.ed25519_public k) ≡ 32
  pub known : (k : Bytes) → p.verifying_key (p.ed25519_public k) ≡ some (p.ed25519_public k)
  pub well_formed : (k m : Bytes) → p.signature (p.sign k m) ≡ some (p.sign k m)
  pub verify-sign : (k m : Bytes) → p.verify (p.ed25519_public k) m (p.sign k m) ≡ true
  pub expand_size : (k info out : Bytes) → p.expand k info 32 ≡ some out → length out ≡ 32
  pub decrypt-encrypt : (k n m c : Bytes) → p.encrypt k n m ≡ some c → p.decrypt k n c ≡ some m
