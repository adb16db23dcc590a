-- ===== src/Ui/Trust.antt =====
-- crates/client-ui/src/app.rs: whose keys are accepted, between one trust and the next.
use rsmsg.Base.{ℕ, true, List, ◌≡◌, ap, ◌∙◌, inl, inr, text_eq, Bool-cases, arith}
use rsmsg.Base.Text.{Text}
use rsmsg.Base.Dict.{get, get-insert}
use rsmsg.Shared.Messaging.{FetchPrekeyBundleResponse}
use rsmsg.Shared.Call.{CallSignalItem}
use rsmsg.Client.Types.{EncryptedMessagePayload}
use rsmsg.Client.Library.{Json}
use rsmsg.Ui.State.{
  MessengerApp, Received, received, empty, disconnected, Outcome, done, error, save_history,
}
use rsmsg.Ui.Identity.{
  pin, repin, changed, verify_or_pin_peer_identity, trust_new_peer_identity, poll_trust_result,
}
use rsmsg.Ui.Messages.{send_done, poll_read_ack_result}
use rsmsg.Ui.Incoming.{apply_incoming_call_signals}
use rsmsg.Ui.Sync.{
  OpenChatSuccess, SyncSuccess, apply_open_chat_success, delete_chat_locally, apply_mappings,
  apply_sync_success,
}
use rsmsg.Ui.Pins.{
  Pins, pins, Pinned, signals-pins, send-pins, ack-pins, ask-pins, sync-pins, get-or_insert_same,
  open-Pinned, mappings-Pinned,
}

-- The user trusts new keys of the peer.
abbrev pub Trusts : Text → Received (Text × Outcome FetchPrekeyBundleResponse) → Type 0
Trusts peer (received (other, done bundle)) = other ≡ peer
Trusts peer message = ⊥

-- A change of the application that trusts no new keys of the peer.
pub data Change (payloads : Json EncryptedMessagePayload) (peer : Text)
    : MessengerApp → MessengerApp → Type 0 where
  opened :
      (success : OpenChatSuccess) (app : MessengerApp)
      → Change payloads peer app (apply_open_chat_success success app)
  synced :
      (now : ℕ) (count : Text) (success : SyncSuccess) (app : MessengerApp)
      → Change payloads peer app (apply_sync_success payloads now count success app)
  signalled :
      (now : ℕ) (signals : List CallSignalItem) (app : MessengerApp)
      → Change payloads peer app (apply_incoming_call_signals now signals app)
  sent :
      (chat : Text) (index : ℕ) (outcome : Outcome (Unit {0})) (app : MessengerApp)
      → Change payloads peer app (send_done chat index outcome app)
  acknowledged :
      (message : Received (Text × List Text × Outcome (Unit {0}))) (app : MessengerApp)
      → Change payloads peer app (poll_read_ack_result message app)
  deleted :
      (chat : Text) (app : MessengerApp) → Change payloads peer app (delete_chat_locally chat app)
  asked : (app : MessengerApp) → Change payloads peer app (trust_new_peer_identity app)
  trusted :
      (message : Received (Text × Outcome FetchPrekeyBundleResponse)) (app : MessengerApp)
      → ¬ Trusts peer message
      → Change payloads peer app (poll_trust_result message app)

pub data Changes (payloads : Json EncryptedMessagePayload) (peer : Text)
    : MessengerApp → MessengerApp → Type 0 where
  none_yet : (app : MessengerApp) → Changes payloads peer app app
  then_one :
      (app app' app'' : MessengerApp)
      → Changes payloads peer app app'
      → Change payloads peer app' app''
      → Changes payloads peer app app''

module _ (payloads : Json EncryptedMessagePayload) (peer key signing : Text) where
  same_pins : (p q : Pins) → p ≡ q → Pinned peer key signing q → Pinned peer key signing p
  same_pins p q e h = (ap (λ r. get peer r.0) e ∙ h.0, ap (λ r. get peer r.1) e ∙ h.1)

  trust-Pinned :
      (message : Received (Text × Outcome FetchPrekeyBundleResponse)) (app : MessengerApp)
      → ¬ Trusts peer message
      → Pinned peer key signing (pins app)
      → Pinned peer key signing (pins (poll_trust_result message app))
  unfolding poll_trust_result repin save_history
  trust-Pinned (received (other, done bundle)) app other_peer h =
      let a = get-insert other peer bundle.identity_key_b64 app.history.peer_identity_key_by_peer in
      let b =
        get-insert other peer bundle.signing_identity_key_b64
          app.history.peer_signing_identity_key_by_peer in
      (ground (arith, other_peer, a, h.0), ground (arith, other_peer, b, h.1))
  trust-Pinned (received (other, error err)) app other_peer h =
      (ground (arith, h.0), ground (arith, h.1))
  trust-Pinned empty app other_peer h = (ground (arith, h.0), ground (arith, h.1))
  trust-Pinned disconnected app other_peer h = (ground (arith, h.0), ground (arith, h.1))

  Change-Pinned :
      (app app' : MessengerApp)
      → Change payloads peer app app'
      → Pinned peer key signing (pins app)
      → Pinned peer key signing (pins app')
  unfolding delete_chat_locally save_history
  Change-Pinned app app' (opened success _) h = open-Pinned peer key signing success app h
  Change-Pinned app app' (synced now count success _) h =
      same_pins (pins app') (pins (apply_mappings success.peer_mappings app).1)
        (sync-pins payloads now count success app)
        (mappings-Pinned peer key signing success.peer_mappings app h)
  Change-Pinned app app' (signalled now signals _) h =
      same_pins (pins app') (pins app) (signals-pins now signals app) h
  Change-Pinned app app' (sent chat index outcome _) h =
      same_pins (pins app') (pins app) (send-pins chat index outcome app) h
  Change-Pinned app app' (acknowledged message _) h =
      same_pins (pins app') (pins app) (ack-pins message app) h
  Change-Pinned app app' (deleted chat _) h = h
  Change-Pinned app app' (asked _) h = same_pins (pins app') (pins app) (ask-pins app) h
  Change-Pinned app app' (trusted message _ other_peer) h = trust-Pinned message app other_peer h

  Changes-Pinned :
      (app app' : MessengerApp)
      → Changes payloads peer app app'
      → Pinned peer key signing (pins app)
      → Pinned peer key signing (pins app')
  Changes-Pinned app app' (none_yet _) h = h
  Changes-Pinned app app'' (then_one _ app' _ before change) h =
      Change-Pinned app' app'' change (Changes-Pinned app app' before h)

-- What is accepted is pinned.
accepted-Pinned :
    (peer : Text) (bundle : FetchPrekeyBundleResponse) (app app' : MessengerApp)
    → verify_or_pin_peer_identity peer bundle app ≡ (true, app')
    → Pinned peer bundle.identity_key_b64 bundle.signing_identity_key_b64 (pins app')
unfolding verify_or_pin_peer_identity pin
accepted-Pinned peer bundle app app' h =
    let identities = app.history.peer_identity_key_by_peer in
    let signings = app.history.peer_signing_identity_key_by_peer in
    let accepted = ap (λ r. r.0) h in
    let identity = ap (λ r. get peer r.1.history.peer_identity_key_by_peer) h in
    let signing = ap (λ r. get peer r.1.history.peer_signing_identity_key_by_peer) h in
    elim (Bool-cases (changed (get peer identities) bundle.identity_key_b64)) [
      | inl e ↦ absurd (ground (arith, e, accepted))
      | inr a ↦ elim (Bool-cases (changed (get peer signings) bundle.signing_identity_key_b64)) [
        | inl e ↦ absurd (ground (arith, e, accepted))
        | inr b ↦ (
          ground
              (arith, a, b, identity, get-or_insert_same peer bundle.identity_key_b64 identities a),
          ground (
            arith,
            a,
            b,
            signing,
            get-or_insert_same peer bundle.signing_identity_key_b64 signings b,
          ),
        )
      ]
    ]

Pinned-same :
    (peer key signing : Text) (bundle : FetchPrekeyBundleResponse) (app app' : MessengerApp)
    → verify_or_pin_peer_identity peer bundle app ≡ (true, app')
    → Pinned peer key signing (pins app)
    → (key ≡ bundle.identity_key_b64) × (signing ≡ bundle.signing_identity_key_b64)
unfolding verify_or_pin_peer_identity
Pinned-same peer key signing bundle app app' h (a, b) =
    let accepted = ap (λ r. r.0) h in
    (ground (arith, a, b, accepted), ground (arith, a, b, accepted))

-- One identity for each peer: if the keys of a peer are accepted, from a bundle, and the keys of the
-- peer are accepted again later, then they are the same keys, whatever chats are opened or deleted,
-- whatever is synchronized and which keys of other peers are trusted in between, unless the user
-- trusts new keys of the peer.
pub accepted_same :
    (payloads : Json EncryptedMessagePayload) (peer : Text)
    (first second : FetchPrekeyBundleResponse) (app s s' app' : MessengerApp)
    → verify_or_pin_peer_identity peer first app ≡ (true, s)
    → Changes payloads peer s s'
    → verify_or_pin_peer_identity peer second s' ≡ (true, app')
    → (first.identity_key_b64 ≡ second.identity_key_b64)
      × (first.signing_identity_key_b64 ≡ second.signing_identity_key_b64)
accepted_same payloads peer first second app s s' app' h changes k =
    Pinned-same peer first.identity_key_b64 first.signing_identity_key_b64 second s' app' k (
      Changes-Pinned payloads peer first.identity_key_b64 first.signing_identity_key_b64 s s'
        changes (accepted-Pinned peer first app s h))
