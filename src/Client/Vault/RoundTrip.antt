-- ===== src/Client/Vault/RoundTrip.antt =====
-- crates/client-core/src/local_vault.rs: what is saved is loaded again, and nothing without the password.
use rsmsg.Base.{
  ◌≡◌, subst, inl, inr, false, Option, none, some, nat_eq, text_eq, length, Option-cases, arith,
}
use rsmsg.Base.Text.{Text}
use rsmsg.Base.Utf8.{as_bytes, from_utf8-as_bytes}
use rsmsg.Base.Dict.{insert, get-insert}
use rsmsg.Crypto.Primitives.{Bytes, Primitives, PrimitiveLaws}
use rsmsg.Crypto.Engine.{good, ◌>>=◌, or_anyhow, ensure}
use rsmsg.Crypto.Agreement.{Result-cases}
use rsmsg.Client.Library.{Json, Reads, ClientLibrary}
use rsmsg.Client.Storage.{Files, Host, read_file}
use rsmsg.Client.Vault.{
  VaultFile, or_error, derive_key, encrypt_vault_file, decrypt_vault_file, open_vault,
  parse_contents, load_json, contents, write_file, save_json,
}

-- A file that is written is what is read next.
read-write_file :
    (host : Host) (path : Text) (bytes : Bytes) (files files' : Files)
    → host.unreadable path ≡ false
    → write_file host path bytes files ≡ good files'
    → read_file host path files' ≡ some bytes
unfolding write_file read_file
read-write_file host path bytes files files' readable h = elim (Option-cases (host.refusal path)) [
  | inr (e, refused) ↦ absurd (ground (arith, refused))
  | inl fine ↦
      let new : insert path bytes files ≡ files' = ground (arith, fine) in
      subst (λ m. read_file host path m ≡ some bytes) new
        (ground (arith, readable, get-insert path path bytes files))
]

module _ ⦃p : Primitives⦄ ⦃lib : ClientLibrary⦄ where
  -- A vault is opened with the password it was made with.
  pub decrypt-encrypt_vault :
      (salt nonce : Bytes) (password : Text) (plaintext : Bytes) (vault : VaultFile)
      → PrimitiveLaws p
      → length nonce ≡ 24
      → encrypt_vault_file salt nonce password plaintext ≡ good vault
      → decrypt_vault_file password vault ≡ good plaintext
  unfolding encrypt_vault_file decrypt_vault_file or_anyhow or_error ensure ◌>>=◌
  decrypt-encrypt_vault salt nonce password plaintext vault laws size h =
      elim (Result-cases (derive_key password salt)) [
        | inr (m, e) ↦ absurd (ground (arith, e))
        | inl (key, e) ↦ elim (Option-cases (p.encrypt key nonce plaintext)) [
          | inl bad ↦ absurd (ground (arith, e, bad))
          | inr (c, made) ↦
              let new : record {
                version = 1;
                salt_b64 = p.encode salt;
                nonce_b64 = p.encode nonce;
                ciphertext_b64 = p.encode c;
              }
                  ≡ vault =
                ground (arith, e, made) in
              let opened = laws.decrypt-encrypt key nonce plaintext c made in
              let one = laws.decode-encode salt in
              let two = laws.decode-encode nonce in
              let three = laws.decode-encode c in
              subst (λ v. decrypt_vault_file password v ≡ good plaintext) new
                (ground (arith, e, opened, one, two, three, size))
        ]
      ]

  module _ {T : Type 0} (vaults : Json VaultFile) (j : Json T) (host : Host) (salt nonce : Bytes)
      (path : Text) (value : T) (files files' : Files) (laws : PrimitiveLaws p)
      (size : length nonce ≡ 24) (readable : host.unreadable path ≡ false)
      (reads : Reads j value) where
    -- A value that is saved under a password is loaded with the same password, and without one nothing
    -- is loaded.
    pub load-save_locked :
        (password : Text)
        → ((vault : VaultFile) → Reads vaults vault)
        → save_json vaults j host salt nonce path value (some password) files ≡ good files'
        → (load_json vaults j host path (some password) files' ≡ some value)
          × (load_json vaults j host path none files' ≡ none)
    unfolding save_json load_json contents parse_contents open_vault ◌>>=◌
    load-save_locked password reads_vault h =
        let plaintext = as_bytes (j.to_string_pretty value) in
        elim (Result-cases (encrypt_vault_file salt nonce password plaintext)) [
          | inr (m, e) ↦ absurd (ground (arith, e))
          | inl (vault, e) ↦
              let written = as_bytes (vaults.to_string_pretty vault) in
              let stored : write_file host path written files ≡ good files' = ground (arith, e) in
              let back = read-write_file host path written files files' readable stored in
              let pretty = (reads_vault vault).pretty_text in
              let text = from_utf8-as_bytes (vaults.to_string_pretty vault) pretty in
              let parsed = (reads_vault vault).from-to_pretty in
              let opened = decrypt-encrypt_vault salt nonce password plaintext vault laws size e in
              let value_read = reads.from-to_pretty in
              (
                ground (arith, back, text, parsed, opened, value_read),
                ground (arith, back, text, parsed),
              )
        ]

    -- A value that is saved without a password is loaded again with any or none, if its JSON is no
    -- vault.
    pub load-save_plain :
        (password : Option Text)
        → vaults.from_slice (as_bytes (j.to_string_pretty value)) ≡ none
        → save_json vaults j host salt nonce path value none files ≡ good files'
        → load_json vaults j host path password files' ≡ some value
    unfolding save_json load_json contents parse_contents ◌>>=◌
    load-save_plain password no_vault h =
        let back = read-write_file host path _ files files' readable h in
        let text = from_utf8-as_bytes (j.to_string_pretty value) reads.pretty_text in
        let value_read = reads.from-to_pretty in ground (arith, back, text, no_vault, value_read)
