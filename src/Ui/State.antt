-- ===== src/Ui/State.antt =====
-- crates/client-ui/src/app.rs: what the application keeps, as far as the operations on chats read or
-- change it. What they start (threads, notifications, sounds, the saving of the history) is a list of
-- effects, the latest first. A receiver of a worker's result is there or not; what `try_recv` gives is
-- an argument of the operation that calls it.
use rsmsg.Base.{ℕ, Bool, Option, none, some, List, ◌∷◌, not, ◌&&◌, is_some, is_empty, if◌then◌else◌}
use rsmsg.Base.Text.{Text, codes}
use rsmsg.Client.Types.{DeviceAuth, LocalDeviceKeys}
use rsmsg.Ui.Localization.{Localization, text, fill, replace}
use rsmsg.Ui.History.{ChatHistory, Chats}

-- The fields of `CallState`; a time is that of its `Instant`.
pub record CallState : Type 0 where
  pub peer : Text
  pub peer_device_uuid : Text
  pub call_id : Text
  pub video : Bool
  pub microphone_muted : Bool
  pub camera_disabled : Bool
  pub incoming : Bool
  pub accepted : Bool
  pub signaling_status : Text
  pub started_at : ℕ
  pub last_signal_poll_at : ℕ

-- The maps of the history that a synchronization is given: the peers by device, and the pinned keys.
pub record PeerMaps : Type 0 where
  pub peer_by_device_uuid : List (Text × Text)
  pub peer_identity_key_by_peer : List (Text × Text)
  pub peer_signing_identity_key_by_peer : List (Text × Text)

pub data Effect : Type 0 where
  save : Option Text → ChatHistory → Effect
  ack_messages : DeviceAuth → Text → List Text → Effect
  send_call_signal : DeviceAuth → Text → Text → Text → Text → Effect
  refresh_peer_shared_key : LocalDeviceKeys → Text → Text → Effect
  run_open_chat_flow : DeviceAuth → LocalDeviceKeys → Text → Effect
  run_sync_flow : LocalDeviceKeys → DeviceAuth → PeerMaps → List Text → List Text → Effect
  reset_peer_session : Text → Effect
  notify : Text → Text → Effect
  play_call_tone : Effect

pub data Received (T : Type 0) : Type 0 where
  received : T → Received T
  empty disconnected : Received T

-- What a worker ends with: `Result<T, String>`.
pub data Outcome (T : Type 0) : Type 0 where
  done : T → Outcome T
  error : Text → Outcome T

pub record MessengerApp : Type 0 where
  pub history : ChatHistory
  pub localization : Localization
  pub selected_chat : Text
  pub peer_nickname_input : Text
  pub status : Text
  pub password : Text
  pub auth : Option DeviceAuth
  pub local_keys : Option LocalDeviceKeys
  pub key_change_peer : Option Text
  pub delete_chat_confirm : Option Text
  pub active_call : Option CallState
  pub open_chat_rx : Bool
  pub sync_rx : Bool
  pub read_ack_rx : Bool
  pub trust_rx : Bool
  pub effects : List Effect

-- The `t` and `tf` of the application.
abbrev pub t : MessengerApp → Text → Text
t app key = text app.localization key

abbrev pub tf : MessengerApp → Text → List (Text × Text) → Text
tf app key values = fill values (t app key)

-- The errors of the server in the language of the user.
unfoldable pub localize_status_error : MessengerApp → Text → Text
localize_status_error app err =
    let e1 =
      replace err (codes "invalid credentials") (t app (codes "error.invalid_credentials")) in
    let e2 =
      replace e1 (codes "client version is no longer supported")
        (t app (codes "update.client_unsupported")) in
    let e3 = replace e2 (codes "invite code already used") (t app (codes "error.invite_used")) in
    let e4 = replace e3 (codes "nickname already exists") (t app (codes "error.nickname_exists")) in
    let e5 =
      replace e4 (codes "recipient blocked you") (t app (codes "error.recipient_blocked_you")) in
    let e6 =
      replace e5 (codes "you blocked recipient") (t app (codes "error.you_blocked_recipient")) in
    replace e6 (codes "user is not online") (t app (codes "call.user_offline"))

abbrev pub set_status : Text → MessengerApp → MessengerApp
set_status status app = record app { status = status }

abbrev pub set_chats : Chats → MessengerApp → MessengerApp
set_chats chats app = record app { history = record app.history { chats = chats } }

abbrev pub start : Effect → MessengerApp → MessengerApp
start effect app = record app { effects = effect ∷ app.effects }

unfoldable pub password_for_local_storage : MessengerApp → Option Text
password_for_local_storage app =
    if is_some app.auth && not (is_empty app.password) then some app.password else none

unfoldable pub save_history : MessengerApp → MessengerApp
save_history app = start (save (password_for_local_storage app) app.history) app
