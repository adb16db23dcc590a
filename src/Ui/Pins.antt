-- ===== src/Ui/Pins.antt =====
-- crates/client-ui/src/app.rs: the keys of a peer stay pinned until the user trusts new ones.
use rsmsg.Base.{
  ℕ, Bool, false, some, List, [], ◌∷◌, ◌≡◌, refl, ap, ◌∙◌, inl, inr, not, ◌||◌, text_eq, is_empty,
  Option-cases, arith, if◌then◌else◌,
}
use rsmsg.Base.Text.{Text}
use rsmsg.Base.Utf8.{as_bytes}
use rsmsg.Base.Dict.{get, contains_key, get-insert}
use rsmsg.Shared.Messaging.{FetchPrekeyBundleResponse}
use rsmsg.Shared.Call.{CallSignalItem}
use rsmsg.Client.Types.{DeviceAuth, DecryptedMessage, EncryptedMessagePayload}
use rsmsg.Client.Library.{Json}
use rsmsg.Ui.History.{or_insert}
use rsmsg.Ui.State.{MessengerApp, Received, Outcome, done, error, save_history}
use rsmsg.Ui.Identity.{pin, changed, verify_or_pin_peer_identity, trust_new_peer_identity}
use rsmsg.Ui.Messages.{
  send_done, update_message_status, clear_unread, mark_selected_chat_read, poll_read_ack_result,
  read_ack_failed, apply_outgoing_statuses,
}
use rsmsg.Ui.Incoming.{
  Shown, ring, count_unread, notified, shown, show_message, push_incoming,
  apply_incoming_call_signals,
}
use rsmsg.Ui.Sync.{
  OpenChatSuccess, PeerMapping, SyncSuccess, map_peer, read_if_logged_in, select,
  apply_open_chat_success, apply_mapping, apply_mappings, push_all, none_decrypted,
  apply_sync_success,
}

-- The pins: the identity keys and the signing keys, by peer.
abbrev pub Pins : Type 0
Pins = List (Text × Text) × List (Text × Text)

abbrev pub pins : MessengerApp → Pins
pins app = (app.history.peer_identity_key_by_peer, app.history.peer_signing_identity_key_by_peer)

abbrev pub Pinned : Text → Text → Text → Pins → Type 0
Pinned peer key signing p = (get peer p.0 ≡ some key) × (get peer p.1 ≡ some signing)

mark-pins :
    (auth : DeviceAuth) (app : MessengerApp) → pins (mark_selected_chat_read auth app).1 ≡ pins app
unfolding mark_selected_chat_read clear_unread
mark-pins auth app = ground arith

read-pins : (app : MessengerApp) → pins (read_if_logged_in app).1 ≡ pins app
unfolding read_if_logged_in
read-pins app = elim (Option-cases app.auth) [
  | inl e ↦ ground (arith, e)
  | inr (auth, e) ↦ ground (arith, e, mark-pins auth app)
]

show-pins :
    (now : ℕ) (msg : DecryptedMessage) (content : Shown) (app : MessengerApp)
    → pins (show_message now msg content app) ≡ pins app
unfolding show_message count_unread ring notified
show-pins now msg content app = ground arith

push-pins :
    (payloads : Json EncryptedMessagePayload) (now : ℕ) (msg : DecryptedMessage)
    (app : MessengerApp)
    → pins (push_incoming payloads now msg app) ≡ pins app
unfolding push_incoming
push-pins payloads now msg app =
    elim (Option-cases (shown app msg.plaintext (payloads.from_slice (as_bytes msg.plaintext)))) [
      | inl e ↦ ground (arith, e)
      | inr (content, e) ↦ ground (arith, e, show-pins now msg content app)
    ]

pub signals-pins :
    (now : ℕ) (signals : List CallSignalItem) (app : MessengerApp)
    → pins (apply_incoming_call_signals now signals app) ≡ pins app
unfolding apply_incoming_call_signals
signals-pins now [] app = refl
signals-pins now (signal ∷ signals) app = ground (arith, signals-pins now signals app)

get-or_insert :
    (key peer v w : Text) (m : List (Text × Text))
    → get peer m ≡ some w
    → get peer (or_insert key v m) ≡ some w
unfolding or_insert contains_key
get-or_insert key peer v w m h = ground (arith, get-insert key peer v m)

pub get-or_insert_same :
    (key v : Text) (m : List (Text × Text))
    → changed (get key m) v ≡ false
    → get key (or_insert key v m) ≡ some v
unfolding or_insert contains_key
get-or_insert_same key v m h = ground (arith, get-insert key key v m)

module _ (peer key signing : Text) where
  verify-Pinned :
      (other : Text) (bundle : FetchPrekeyBundleResponse) (app : MessengerApp)
      → Pinned peer key signing (pins app)
      → Pinned peer key signing (pins (verify_or_pin_peer_identity other bundle app).1)
  unfolding verify_or_pin_peer_identity pin
  verify-Pinned other bundle app (h, k) =
      let a =
        get-or_insert other peer bundle.identity_key_b64 key app.history.peer_identity_key_by_peer
          h in
      let b =
        get-or_insert other peer bundle.signing_identity_key_b64 signing
          app.history.peer_signing_identity_key_by_peer k in
      (ground (arith, a), ground (arith, b))

  pub open-Pinned :
      (success : OpenChatSuccess) (app : MessengerApp)
      → Pinned peer key signing (pins app)
      → Pinned peer key signing (pins (apply_open_chat_success success app))
  unfolding apply_open_chat_success select map_peer save_history
  open-Pinned success app h =
      let pinned = (verify_or_pin_peer_identity success.peer success.bundle app).1 in
      let p = verify-Pinned success.peer success.bundle app h in
      let e = read-pins (select success pinned) in
      (ground (arith, h.0, p.0, ap (λ q. q.0) e), ground (arith, h.1, p.1, ap (λ q. q.1) e))

  mapping-Pinned :
      (mapping : PeerMapping) (app : MessengerApp)
      → Pinned peer key signing (pins app)
      → Pinned peer key signing (pins (apply_mapping mapping app).1)
  unfolding apply_mapping map_peer
  mapping-Pinned mapping app h =
      let p = verify-Pinned mapping.peer mapping.bundle app h in
      (ground (arith, p.0), ground (arith, p.1))

  pub mappings-Pinned :
      (mappings : List PeerMapping) (app : MessengerApp)
      → Pinned peer key signing (pins app)
      → Pinned peer key signing (pins (apply_mappings mappings app).1)
  unfolding apply_mappings
  mappings-Pinned [] app h = h
  mappings-Pinned (mapping ∷ mappings) app h =
      mappings-Pinned mappings (apply_mapping mapping app).1 (mapping-Pinned mapping app h)

push_all-pins :
    (payloads : Json EncryptedMessagePayload) (now : ℕ) (msgs : List DecryptedMessage)
    (app : MessengerApp)
    → pins (push_all payloads now msgs app) ≡ pins app
unfolding push_all
push_all-pins payloads now [] app = refl
push_all-pins payloads now (msg ∷ msgs) app =
    push_all-pins payloads now msgs (push_incoming payloads now msg app)
    ∙ push-pins payloads now msg app

saved-pins : (b : Bool) (app : MessengerApp) → pins (if b then save_history app else app) ≡ pins app
unfolding save_history
saved-pins b app = ground arith

none-pins :
    (count : Text) (success : SyncSuccess) (app : MessengerApp)
    → pins (none_decrypted count success app) ≡ pins app
unfolding none_decrypted
none-pins count success app = ground arith

-- All that a synchronization does after its mappings.
pub sync-pins :
    (payloads : Json EncryptedMessagePayload) (now : ℕ) (count : Text) (success : SyncSuccess)
    (app : MessengerApp)
    → pins (apply_sync_success payloads now count success app)
      ≡ pins (apply_mappings success.peer_mappings app).1
unfolding apply_sync_success apply_outgoing_statuses
sync-pins payloads now count success app =
    let mapped = apply_mappings success.peer_mappings app in
    let pushed = push_all payloads now success.decrypted mapped.1 in
    let statuses = apply_outgoing_statuses success.statuses (none_decrypted count success pushed) in
    let marked = read_if_logged_in statuses.1 in
    saved-pins (mapped.0 || not (is_empty success.decrypted) || statuses.0 || marked.0) marked.1
    ∙ read-pins statuses.1
    ∙ none-pins count success pushed
    ∙ push_all-pins payloads now success.decrypted mapped.1

pub send-pins :
    (chat : Text) (index : ℕ) (outcome : Outcome (Unit {0})) (app : MessengerApp)
    → pins (send_done chat index outcome app) ≡ pins app
unfolding send_done update_message_status save_history
send-pins chat index (done r) app = refl
send-pins chat index (error err) app = refl

pub ack-pins :
    (message : Received (Text × List Text × Outcome (Unit {0}))) (app : MessengerApp)
    → pins (poll_read_ack_result message app) ≡ pins app
unfolding poll_read_ack_result read_ack_failed
ack-pins message app = ground arith

pub ask-pins : (app : MessengerApp) → pins (trust_new_peer_identity app) ≡ pins app
unfolding trust_new_peer_identity
ask-pins app = ground arith
