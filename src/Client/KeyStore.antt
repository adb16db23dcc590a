-- ===== src/Client/KeyStore.antt =====
-- crates/client-core/src/key_store.rs: the keys of the device, in their file.
use rsmsg.Base.{Option}
use rsmsg.Base.Text.{Text}
use rsmsg.Crypto.Primitives.{Bytes, Primitives}
use rsmsg.Crypto.Engine.{Result}
use rsmsg.Client.Library.{Json, ClientLibrary}
use rsmsg.Client.Storage.{Files, Host}
use rsmsg.Client.Types.{LocalDeviceKeys}
use rsmsg.Client.Vault.{VaultFile, load_json, save_json}

module _ ⦃p : Primitives⦄ ⦃lib : ClientLibrary⦄ (vaults : Json VaultFile) (j : Json LocalDeviceKeys)
    (host : Host) where
  unfoldable pub load : Text → Option Text → Files → Option LocalDeviceKeys
  unfolding load_json
  load path password files = load_json vaults j host path password files

  unfoldable pub save : Bytes → Bytes → Text → LocalDeviceKeys → Option Text → Files → Result Files
  unfolding save_json
  save salt nonce path keys password files =
      save_json vaults j host salt nonce path keys password files
