-- ===== src/Client/Vault.antt =====
-- crates/client-core/src/local_vault.rs: JSON files, encrypted under a password where there is one.
pub mod RoundTrip
use rsmsg.Base.{ℕ, Bool, true, false, Option, none, some, List, length, ◌==◌, nat_eq, is_some, not}
use rsmsg.Base.Text.{Text, codes}
use rsmsg.Base.Utf8.{as_bytes, from_utf8}
use rsmsg.Base.Dict.{insert}
use rsmsg.Crypto.Primitives.{Bytes, Primitives}
use rsmsg.Crypto.Engine.{Result, good, anyhow, ◌>>=◌, ◌>>◌, or_anyhow, ensure}
use rsmsg.Client.Library.{Json, ClientLibrary}
use rsmsg.Client.Storage.{Files, Host, read_file, exists}

pub record VaultFile : Type 0 where
  pub version : ℕ
  pub salt_b64 : Text
  pub nonce_b64 : Text
  pub ciphertext_b64 : Text

-- `Result::ok`
abbrev pub to_option : {A : Type 0} → Result A → Option A
to_option (good a) = some a
to_option (anyhow e) = none

-- An error that is a text of another package.
unfoldable pub or_error : {A : Type 0} → Option A → Text → Result A
or_error none e = anyhow e
or_error (some a) e = good a

-- `fs::write`
unfoldable pub write_file : Host → Text → Bytes → Files → Result Files
write_file host path bytes files = elim (host.refusal path) [
  | none ↦ good (insert path bytes files)
  | some e ↦ anyhow e
]

module _ ⦃p : Primitives⦄ ⦃lib : ClientLibrary⦄ where
  unfoldable pub derive_key : Text → Bytes → Result Bytes
  unfolding or_anyhow
  derive_key password salt =
      or_anyhow (lib.derive_key (as_bytes password) salt) "local vault key derivation failed"

  -- The salt has 16 bytes and the nonce 24, as they are drawn.
  unfoldable pub encrypt_vault_file : Bytes → Bytes → Text → Bytes → Result VaultFile
  unfolding derive_key or_anyhow ◌>>=◌
  encrypt_vault_file salt nonce password plaintext = do
    key ← derive_key password salt
    ciphertext ← or_anyhow (p.encrypt key nonce plaintext) "local vault encryption failed"
    good (record {
      version = 1;
      salt_b64 = p.encode salt;
      nonce_b64 = p.encode nonce;
      ciphertext_b64 = p.encode ciphertext;
    })

  unfoldable pub decrypt_vault_file : Text → VaultFile → Result Bytes
  unfolding derive_key or_anyhow or_error ensure ◌>>=◌
  decrypt_vault_file password vault = do
    ensure (vault.version == 1) "unsupported local vault version"
    salt ← or_error (p.decode vault.salt_b64) lib.decode_error
    nonce ← or_error (p.decode vault.nonce_b64) lib.decode_error
    ciphertext ← or_error (p.decode vault.ciphertext_b64) lib.decode_error
    ensure (length nonce == 24) "invalid local vault nonce"
    key ← derive_key password salt
    or_anyhow (p.decrypt key nonce ciphertext) "local vault decryption failed"

  -- The plaintext of a vault, under a password if there is one.
  unfoldable pub open_vault : Option Text → VaultFile → Option Bytes
  unfolding decrypt_vault_file
  open_vault none vault = none
  open_vault (some password) vault = to_option (decrypt_vault_file password vault)

  -- What a file holds: of a vault, or plain JSON.
  unfoldable pub parse_contents :
      {T : Type 0} → Json VaultFile → Json T → Option Text → Text → Option T
  unfolding open_vault
  parse_contents vaults j password raw = elim (vaults.from_slice (as_bytes raw)) [
    | some vault ↦ elim (open_vault password vault) [
      | none ↦ none
      | some plaintext ↦ j.from_slice plaintext
    ]
    | none ↦ j.from_slice (as_bytes raw)
  ]

  unfoldable pub load_json :
      {T : Type 0} → Json VaultFile → Json T → Host → Text → Option Text → Files → Option T
  unfolding read_file parse_contents
  load_json vaults j host path password files = elim (read_file host path files) [
    | none ↦ none
    | some bytes ↦ elim (from_utf8 bytes) [
      | none ↦ none
      | some raw ↦ parse_contents vaults j password raw
    ]
  ]

  -- What is written: the bytes of a vault, or of plain JSON.
  unfoldable pub contents :
      {T : Type 0} → Json VaultFile → Json T → Bytes → Bytes → T → Option Text → Result Bytes
  unfolding encrypt_vault_file ◌>>=◌
  contents vaults j salt nonce value none = good (as_bytes (j.to_string_pretty value))
  contents vaults j salt nonce value (some password) = do
    vault ← encrypt_vault_file salt nonce password (as_bytes (j.to_string_pretty value))
    good (as_bytes (vaults.to_string_pretty vault))

  -- The files that it leaves, or an error, which leaves them as they are.
  unfoldable pub save_json :
      {T : Type 0}
      → Json VaultFile
      → Json T
      → Host
      → Bytes
      → Bytes
      → Text
      → T
      → Option Text
      → Files
      → Result Files
  unfolding contents write_file ◌>>=◌
  save_json vaults j host salt nonce path value password files = do
    bytes ← contents vaults j salt nonce value password
    write_file host path bytes files
