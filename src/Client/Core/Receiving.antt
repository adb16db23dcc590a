-- ===== src/Client/Core/Receiving.antt =====
-- crates/client-core/src/core.rs: what fetches, decrypts and acknowledges messages.
use rsmsg.Base.{Option, none, some, List, [], ◌∷◌, ◌++◌, map}
use rsmsg.Base.Text.{Text}
use rsmsg.Base.Int.{ℤ}
use rsmsg.Base.Dict.{get, insert}
use rsmsg.Crypto.Primitives.{Primitives}
use rsmsg.Crypto.Engine.{good, anyhow, decrypt_text_from_b64}
use rsmsg.Shared.Messaging.{MessageStatusItem}
use rsmsg.Client.Types.{DeviceAuth, PendingEnvelope, DecryptedMessage, OutgoingMessageStatus}
use rsmsg.Client.Library.{Json, ClientLibrary}
use rsmsg.Client.SessionStore.{Sessions}
use rsmsg.Client.Ratchet.{RatchetEnvelope, decrypt_with_session}
use rsmsg.Client.Network.{Network}
use rsmsg.Client.Act.{Act, give, ignore_error, ◌>>=◌}
use rsmsg.Client.Core.{Setup, ClientCore, remote, persist_sessions}
use rsmsg.Client.Transport.Messages
use rsmsg.Client.Transport.Socket

unfoldable pub to_status : MessageStatusItem → OutgoingMessageStatus
to_status item = record {
  message_id = item.message_id;
  delivered = item.delivered;
  read = item.read;
}

abbrev pub decrypted : PendingEnvelope → Text → DecryptedMessage
decrypted item plaintext = record {
  message_id = item.message_id;
  from_device_uuid = item.from_device_uuid;
  plaintext = plaintext;
  created_at_unix_ms = item.created_at_unix_ms;
}

module _ ⦃p : Primitives⦄ where
  -- What is decrypted with one key, without a session.
  unfoldable pub decrypt_pending : List PendingEnvelope → Text → List DecryptedMessage
  decrypt_pending [] shared_key_b64 = []
  decrypt_pending (item ∷ pending) shared_key_b64 =
      let rest = decrypt_pending pending shared_key_b64 in
      elim (decrypt_text_from_b64 shared_key_b64 item.envelope_b64) [
        | good plaintext ↦ decrypted item plaintext ∷ rest
        | anyhow e ↦ rest
      ]

-- The messages that are read, with their ids, and the sessions.
pub record Unsealed : Type 0 where
  pub out : List DecryptedMessage
  pub ack_ids : List Text
  pub sessions : Sessions

module _ ⦃p : Primitives⦄ ⦃lib : ClientLibrary⦄ (envelopes : Json RatchetEnvelope) where
  -- One round of the loop of `decrypt_pending_with_sessions`.
  unfoldable pub unseal : PendingEnvelope → Unsealed → Unsealed
  unseal item u = elim (get item.from_device_uuid u.sessions) [
    | none ↦ u
    | some session ↦ elim (decrypt_with_session envelopes item.envelope_b64 session) [
      | anyhow e ↦ u
      | good read ↦ record {
        out = u.out ++ decrypted item (read.0) ∷ [];
        ack_ids = u.ack_ids ++ item.message_id ∷ [];
        sessions = insert item.from_device_uuid (read.1) u.sessions;
      }
    ]
  ]

  unfoldable pub unseal_all : List PendingEnvelope → Unsealed → Unsealed
  unfolding unseal
  unseal_all [] u = u
  unseal_all (item ∷ pending) u = unseal_all pending (unseal item u)

module _ ⦃p : Primitives⦄ ⦃lib : ClientLibrary⦄ ⦃net : Network⦄ (setup : Setup) where
  unfoldable pub decrypt_pending_with_sessions :
      List PendingEnvelope → Act (ClientCore net.World) (List DecryptedMessage × List Text)
  unfolding unseal_all ignore_error
  decrypt_pending_with_sessions pending s =
      let u =
        unseal_all setup.envelopes pending
          (record { out = []; ack_ids = []; sessions = s.peer_sessions }) in
      (
        good (u.out, u.ack_ids),
        (ignore_error (persist_sessions setup) (record s { peer_sessions = u.sessions })).1,
      )

  unfoldable pub fetch_pending :
      DeviceAuth → Option ℤ → Act (ClientCore net.World) (List PendingEnvelope)
  unfolding remote
  fetch_pending auth limit = remote (Messages.fetch_pending setup.config auth limit)

  unfoldable pub ack_messages : DeviceAuth → List Text → Act (ClientCore net.World) (Unit {0})
  unfolding remote
  ack_messages auth message_ids = remote (Messages.ack_messages setup.config auth message_ids)

  unfoldable pub message_statuses :
      DeviceAuth → List Text → Act (ClientCore net.World) (List OutgoingMessageStatus)
  unfolding remote to_status ◌>>=◌
  message_statuses auth message_ids = do
    response ← remote (Messages.message_status setup.config auth message_ids)
    give (map to_status response.messages)

  unfoldable pub ws_drain_once : DeviceAuth → Act (ClientCore net.World) (List PendingEnvelope)
  unfolding remote
  ws_drain_once auth = remote (Socket.ws_once setup.config auth)
