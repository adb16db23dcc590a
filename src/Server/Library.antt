-- ===== src/Server/Library.antt =====
-- What crates/server takes from other packages: uuid, base64, argon2 and sha2, and from PostgreSQL the
-- order of texts and ILIKE. The laws are hypotheses of the theorems that need them.
use rsmsg.Base.{◌==◌, nat_eq, text_eq, any, ◌≡◌, Bool, false, Option, some}
use rsmsg.Base.Text.{Text}
use rsmsg.Server.State.{Uuid, Bytes}

pub record Library : Type 0 where
  -- `Uuid::parse_str`, `Uuid::to_string` and `Uuid::simple`
  pub parse_uuid : Text → Option Uuid
  pub show_uuid : Uuid → Text
  pub simple_uuid : Uuid → Text
  -- base64's STANDARD engine
  pub encode : Bytes → Text
  pub decode : Text → Option Bytes
  -- `format!("{:x}", Sha256::digest(..))`
  pub sha256_hex : Text → Text
  -- Argon2: a salt and a password give the text of a hash; a hash is parsed, then verified.
  pub argon2_hash : Text → Text → Option Text
  pub parse_hash : Text → Option Text
  pub argon2_verify : Text → Text → Bool
  -- The order of the database's collation, and `text ILIKE pattern`.
  pub collate_le : Text → Text → Bool
  pub ilike : Text → Text → Bool

-- A UUID is printed with no colon and parsed back.
pub record UuidLaws (lib : Library) : Type 0 where
  pub parse-show : (u : Uuid) → lib.parse_uuid (lib.show_uuid u) ≡ some u
  pub show_colon : (u : Uuid) → any (λ c. c == b':') (lib.show_uuid u) ≡ false

-- What is encoded is decoded again.
pub record Base64Laws (lib : Library) : Type 0 where
  pub decode-encode : (b : Bytes) → lib.decode (lib.encode b) ≡ some b
