-- ===== src/Ui/Identity.antt =====
-- crates/client-ui/src/app.rs: the keys that are pinned for a peer, and the trust in new ones.
use rsmsg.Base.{
  Bool, true, false, Option, none, some, ◌++◌, not, ◌||◌, ◌==◌, text_eq, if◌then◌else◌,
}
use rsmsg.Base.Text.{Text, codes}
use rsmsg.Base.Dict.{get, insert}
use rsmsg.Shared.Messaging.{FetchPrekeyBundleResponse}
use rsmsg.Ui.History.{ChatHistory, or_insert}
use rsmsg.Ui.State.{
  MessengerApp, Received, received, empty, disconnected, Outcome, done, error, set_status, t, start,
  refresh_peer_shared_key, save_history,
}

-- A key is pinned, and it is another one.
abbrev pub changed : Option Text → Text → Bool
changed none key = false
changed (some pinned) key = not (pinned == key)

-- The two entries of a peer, where they are vacant.
unfoldable pub pin : Text → FetchPrekeyBundleResponse → ChatHistory → ChatHistory
pin peer bundle history = record history {
  peer_identity_key_by_peer =
      or_insert peer bundle.identity_key_b64 history.peer_identity_key_by_peer;
  peer_signing_identity_key_by_peer =
      or_insert peer bundle.signing_identity_key_b64 history.peer_signing_identity_key_by_peer;
}

unfoldable pub verify_or_pin_peer_identity :
    Text → FetchPrekeyBundleResponse → MessengerApp → Bool × MessengerApp
unfolding pin
verify_or_pin_peer_identity peer bundle app =
    let identity_changed =
      changed (get peer app.history.peer_identity_key_by_peer) bundle.identity_key_b64 in
    let signing_changed =
      changed (get peer app.history.peer_signing_identity_key_by_peer)
        bundle.signing_identity_key_b64 in
    if identity_changed || signing_changed
    then (
      false,
      record app {
        key_change_peer = some peer;
        status = codes "Security warning: @" ++ (peer ++ codes " changed identity key");
      },
    )
    else (true, record app { history = pin peer bundle app.history })

unfoldable pub trust_new_peer_identity : MessengerApp → MessengerApp
trust_new_peer_identity app = if app.trust_rx then app else elim app.key_change_peer [
  | none ↦ app
  | some peer ↦ elim app.local_keys [
    | none ↦ set_status (t app (codes "error.log_in_first")) app
    | some local_keys ↦ start (refresh_peer_shared_key local_keys peer (codes "main")) (record app {
      trust_rx = true;
      status = codes "Refreshing @" ++ (peer ++ codes " identity...");
    })
  ]
]

-- The keys of a bundle that the user trusts, in the place of the pinned ones.
unfoldable pub repin : Text → FetchPrekeyBundleResponse → ChatHistory → ChatHistory
repin peer bundle history = record history {
  peer_identity_key_by_peer = insert peer bundle.identity_key_b64 history.peer_identity_key_by_peer;
  peer_signing_identity_key_by_peer =
      insert peer bundle.signing_identity_key_b64 history.peer_signing_identity_key_by_peer;
}

unfoldable pub poll_trust_result :
    Received (Text × Outcome FetchPrekeyBundleResponse) → MessengerApp → MessengerApp
unfolding repin
poll_trust_result message app =
    if app.trust_rx
    then elim message [
      | received (peer, done bundle) ↦ set_status (codes "Trusted new identity for @" ++ peer) (
          save_history (record app {
            trust_rx = false;
            key_change_peer = none;
            history = repin peer bundle app.history;
          }))
      | received (peer, error err) ↦ record app { trust_rx = false; status = err }
      | empty ↦ app
      | disconnected ↦ record app { trust_rx = false; status = codes "Trust worker stopped" }
    ]
    else app
