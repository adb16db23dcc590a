-- ===== src/Ui/Updater.antt =====
-- crates/client-ui/src/updater.rs: whether there is an update. Its `parse_version` and `version_gt` are
-- those of the server, word for word. Fetching the manifest and opening an address are I/O.
use rsmsg.Base.{Bool, Option, none, some, List, ◌++◌, not, ◌&&◌, ◌||◌, ◌==◌, text_eq, if◌then◌else◌}
use rsmsg.Base.Text.{Text, codes}
use rsmsg.Base.Dict.{get}
use rsmsg.Server.VersionGate.{version_gt}
use rsmsg.Crypto.Engine.{Result, good, anyhow}

pub record UpdateInfo : Type 0 where
  pub version : Text
  pub current_version : Text
  pub minimum_supported_version : Text
  pub mandatory : Bool
  pub url : Text
  pub sha256 : Text
  pub notes_url : Option Text

pub record ManifestPlatform : Type 0 where
  pub url : Text
  pub sha256 : Text

pub record Manifest : Type 0 where
  pub version : Text
  pub minimum_supported_version : Text
  pub mandatory : Bool
  pub notes_url : Option Text
  pub platforms : List (Text × ManifestPlatform)

-- From `std::env::consts::OS` and `ARCH`.
unfoldable pub platform_key : Text → Text → Text
platform_key os arch =
    if os == codes "windows" && arch == codes "x86_64"
    then codes "windows-x86_64"
    else if os == codes "macos" && arch == codes "aarch64"
    then codes "macos-aarch64"
    else if os == codes "macos" && arch == codes "x86_64"
    then codes "macos-x86_64"
    else if os == codes "linux" && arch == codes "x86_64"
    then codes "linux-x86_64"
    else codes "unknown"

-- `check_for_update`, from the manifest that was fetched on.
unfoldable pub check_for_update : Text → Text → Manifest → Text → Result (Option UpdateInfo)
check_for_update os arch manifest current_version =
    let key = platform_key os arch in
    elim (get key manifest.platforms) [
      | none ↦ anyhow (codes "update manifest has no package for " ++ key)
      | some platform ↦
          let update_available = version_gt manifest.version current_version in
          let unsupported = version_gt manifest.minimum_supported_version current_version in
          if not update_available && not unsupported
          then good none
          else good (
              some (record {
                version = manifest.version;
                current_version = current_version;
                minimum_supported_version = manifest.minimum_supported_version;
                mandatory = manifest.mandatory || unsupported;
                url = platform.url;
                sha256 = platform.sha256;
                notes_url = manifest.notes_url;
              }))
    ]
