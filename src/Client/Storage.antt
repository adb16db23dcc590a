-- ===== src/Client/Storage.antt =====
-- crates/client-core/src/storage.rs, and the files that the client reads and writes. Directories are
-- not modelled: `create_dir_all` shows only in which writes succeed.
use rsmsg.Base.{
  Bool, true, Option, none, some, List, [], ◌∷◌, ◌++◌, ◌||◌, ◌==◌, nat_eq, is_some, if◌then◌else◌,
  unwrap_or,
}
use rsmsg.Base.Text.{Text, codes}
use rsmsg.Base.Dict.{get, insert}
use rsmsg.Crypto.Primitives.{Bytes}
use rsmsg.Client.Types.{ClientConfig}

abbrev pub Files : Type 0
Files = List (Text × Bytes)

pub data TargetOs : Type 0 where
  windows macos other_unix other_os : TargetOs

-- The system: `std::env::var`, the target of the build, the files that it does not let the client
-- read, and the error with which it refuses to write a file.
pub record Host : Type 0 where
  pub var : Text → Option Text
  pub target_os : TargetOs
  pub unreadable : Text → Bool
  pub refusal : Text → Option Text

abbrev pub last_is_separator : TargetOs → Text → Bool
last_is_separator os [] = true
last_is_separator windows (c ∷ []) = c == b'/' || c == b'\\'
last_is_separator os (c ∷ []) = c == b'/'
last_is_separator os (c ∷ d ∷ s) = last_is_separator os (d ∷ s)

abbrev pub separator : TargetOs → Text
separator windows = codes "\\"
separator os = codes "/"

-- `PathBuf::join` with a relative path.
unfoldable pub join : TargetOs → Text → Text → Text
join os base path =
    if last_is_separator os base then base ++ path else base ++ (separator os ++ path)

unfoldable pub profile : Host → Text
profile host = unwrap_or (host.var (codes "RSMSG_PROFILE")) (codes "default")

unfoldable pub system_data_dir : Host → TargetOs → Text
unfolding join
system_data_dir host windows = elim (host.var (codes "APPDATA")) [
  | some dir ↦ join windows dir (codes "rsmsg")
  | none ↦ codes "."
]
system_data_dir host macos = elim (host.var (codes "HOME")) [
  | some home ↦
      join macos (join macos (join macos home (codes "Library")) (codes "Application Support"))
        (codes "rsmsg")
  | none ↦ codes "."
]
system_data_dir host other_unix = elim (host.var (codes "XDG_DATA_HOME")) [
  | some dir ↦ join other_unix dir (codes "rsmsg")
  | none ↦ elim (host.var (codes "HOME")) [
    | some home ↦
        join other_unix (join other_unix (join other_unix home (codes ".local")) (codes "share"))
          (codes "rsmsg")
    | none ↦ codes "."
  ]
]
system_data_dir host other_os = codes "."

unfoldable pub data_dir : Host → Text
unfolding system_data_dir
data_dir host = elim (host.var (codes "RSMSG_DATA_DIR")) [
  | some dir ↦ dir
  | none ↦ system_data_dir host host.target_os
]

-- `format!("{name}.{profile}.json")`
abbrev pub file_name : Text → Text → Text
file_name name profile_name = name ++ (codes "." ++ (profile_name ++ codes ".json"))

unfoldable pub profile_file : Host → Text → Text
unfolding data_dir profile join
profile_file host name = join host.target_os (data_dir host) (file_name name (profile host))

unfoldable pub legacy_profile_file : Host → Text → Text
unfolding profile
legacy_profile_file host name = codes "." ++ file_name name (profile host)

abbrev pub exists : Text → Files → Bool
exists path files = is_some (get path files)

-- `fs::read`, of a file that is there.
unfoldable pub read_file : Host → Text → Files → Option Bytes
read_file host path files = if host.unreadable path then none else get path files

-- `fs::copy` with its error dropped.
unfoldable pub copy_file : Host → Text → Text → Files → Files
unfolding read_file
copy_file host from to files = elim (read_file host from files) [
  | none ↦ files
  | some bytes ↦ elim (host.refusal to) [ none ↦ insert to bytes files | some e ↦ files ]
]

-- The path, and the files once the old file has been copied where the new one is missing.
unfoldable pub migrated_profile_file : Host → Text → Files → Text × Files
unfolding profile_file legacy_profile_file copy_file
migrated_profile_file host name files =
    let current = profile_file host name in
    let legacy = legacy_profile_file host name in
    (
      current,
      if exists current files
          then files
          else if exists legacy files
          then copy_file host legacy current files
          else files,
    )

-- `ClientConfig::local_default` of types.rs.
unfoldable pub local_default : Host → Files → ClientConfig × Files
unfolding migrated_profile_file
local_default host files =
    let sessions = migrated_profile_file host (codes "rsmsg_peer_sessions") files in
    let keys = migrated_profile_file host (codes "rsmsg_local_keys") sessions.1 in
    (
      record {
        http_base = codes "http://127.0.0.1:3000";
        ws_base = codes "ws://127.0.0.1:3000";
        session_store_path = sessions.0;
        key_store_path = keys.0;
      },
      keys.1,
    )
