-- ===== src/Client/Core/Peers.antt =====
-- crates/client-core/src/core.rs: the sessions with peers.
use rsmsg.Base.{◌||◌, Bool, true, false, if◌then◌else◌, not}
use rsmsg.Base.Text.{Text}
use rsmsg.Base.Dict.{insert, remove, contains_key}
use rsmsg.Crypto.Primitives.{Primitives}
use rsmsg.Crypto.Engine.{good, verify_prekey_signature_b64, derive_shared_key_b64}
use rsmsg.Shared.Messaging.{FetchPrekeyBundleResponse}
use rsmsg.Client.Types.{LocalDeviceKeys, PeerSession}
use rsmsg.Client.Library.{ClientLibrary}
use rsmsg.Client.SessionStore.{Sessions}
use rsmsg.Client.Network.{Network}
use rsmsg.Client.Act.{Act, give, lift, modify, ignore_error, ◌>>=◌, ◌>>◌}
use rsmsg.Client.Core.{Setup, ClientCore, remote, persist_sessions}
use rsmsg.Client.Transport.Devices

-- A session from its shared key.
abbrev pub new_session : Text → PeerSession
new_session key_b64 = record {
  shared_key_b64 = key_b64;
  send_chain_key_b64 = key_b64;
  recv_chain_key_b64 = key_b64;
  send_counter = 0;
  recv_counter = 0;
}

-- The sessions once the key of a peer is derived.
unfoldable pub with_session : Bool → Text → Text → Sessions → Sessions
with_session replace_existing device_uuid key_b64 sessions =
    if replace_existing || not (contains_key device_uuid sessions)
    then insert device_uuid (new_session key_b64) sessions
    else sessions

module _ ⦃p : Primitives⦄ ⦃lib : ClientLibrary⦄ ⦃net : Network⦄ (setup : Setup) where
  unfoldable pub has_peer_session : Text → ClientCore net.World → Bool
  has_peer_session peer_device_uuid s = contains_key peer_device_uuid s.peer_sessions

  unfoldable pub reset_peer_session : Text → Act (ClientCore net.World) Bool
  unfolding ignore_error
  reset_peer_session peer_device_uuid s = (
    good (contains_key peer_device_uuid s.peer_sessions),
    (ignore_error (persist_sessions setup)
        (record s { peer_sessions = remove peer_device_uuid s.peer_sessions })).1,
  )

  unfoldable pub fetch_peer_bundle :
      Text → Text → Act (ClientCore net.World) FetchPrekeyBundleResponse
  unfolding remote ◌>>=◌
  fetch_peer_bundle peer_user_id peer_device_id = do
    bundle ← remote (Devices.fetch_prekey_bundle setup.config peer_user_id peer_device_id)
    lift (
        verify_prekey_signature_b64 bundle.signing_identity_key_b64 bundle.signed_prekey_b64
          bundle.signed_prekey_signature_b64)
    give bundle

  unfoldable pub derive_peer_shared_key_inner :
      LocalDeviceKeys
      → Text
      → Text
      → Bool
      → Act (ClientCore net.World) (Text × FetchPrekeyBundleResponse)
  unfolding modify ignore_error ◌>>=◌
  derive_peer_shared_key_inner local_keys peer_user_id peer_device_id replace_existing = do
    bundle ← fetch_peer_bundle peer_user_id peer_device_id
    key_b64 ← lift (derive_shared_key_b64 local_keys.identity_private_b64 bundle.identity_key_b64)
    modify (λ s. record s {
      peer_sessions = with_session replace_existing bundle.device_uuid key_b64 s.peer_sessions;
    })
    ignore_error (persist_sessions setup)
    give (key_b64, bundle)

  unfoldable pub derive_peer_shared_key :
      LocalDeviceKeys → Text → Text → Act (ClientCore net.World) (Text × FetchPrekeyBundleResponse)
  unfolding derive_peer_shared_key_inner
  derive_peer_shared_key local_keys peer_user_id peer_device_id =
      derive_peer_shared_key_inner local_keys peer_user_id peer_device_id false

  unfoldable pub refresh_peer_shared_key :
      LocalDeviceKeys → Text → Text → Act (ClientCore net.World) (Text × FetchPrekeyBundleResponse)
  unfolding derive_peer_shared_key_inner
  refresh_peer_shared_key local_keys peer_user_id peer_device_id =
      derive_peer_shared_key_inner local_keys peer_user_id peer_device_id true
