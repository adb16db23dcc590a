-- ===== src/Client/Library.antt =====
-- What crates/client-core takes from other packages beside those of crates/crypto: serde_json, argon2,
-- uuid and the headers of http. Random bytes are numbered by the order in which they are drawn.
use rsmsg.Base.{ℕ, Bool, ◌≡◌, some, Option}
use rsmsg.Base.Text.{Text}
use rsmsg.Base.Utf8.{as_bytes, IsText}
use rsmsg.Crypto.Primitives.{Bytes}

-- serde_json for a type: `to_string` and `to_vec`, which are the same bytes, the pretty forms of the
-- two, and `from_slice`, which `from_str` calls with the bytes of its text.
pub record Json (T : Type 0) : Type 0 where
  pub to_string : T → Text
  pub to_string_pretty : T → Text
  pub from_slice : Bytes → Option T

-- What is written of a value is read back as the value, from both forms.
pub record Reads {T : Type 0} (j : Json T) (v : T) : Type 0 where
  pub from-to : j.from_slice (as_bytes (j.to_string v)) ≡ some v
  pub from-to_pretty : j.from_slice (as_bytes (j.to_string_pretty v)) ≡ some v
  pub pretty_text : IsText (j.to_string_pretty v)

pub record ClientLibrary : Type 0 where
  -- `Argon2::default().hash_password_into` to 32 bytes, from the password's bytes and the salt
  pub derive_key : Bytes → Bytes → Option Bytes
  -- `OsRng.fill_bytes` and `Uuid::new_v4`
  pub random : ℕ → ℕ → Bytes
  pub new_v4 : ℕ → Text
  -- the text of a `base64::DecodeError`
  pub decode_error : Text
  -- `std::env::consts::OS` and `ARCH`
  pub os : Text
  pub arch : Text
  -- `HeaderValue::from_str` succeeds
  pub is_header_value : Text → Bool
  -- the field "error" of a JSON object, where it is a string
  pub error_field : Bytes → Option Text
  -- the error of `Response::json`
  pub json_error : Text
  -- `Response::text`, which replaces what is no UTF-8
  pub lossy_text : Bytes → Text
