-- ===== src/Client/Transport/Messages.antt =====
-- crates/client-core/src/transport.rs: the methods about messages.
use rsmsg.Base.{Option, List, map, text_eq}
use rsmsg.Base.Text.{Text}
use rsmsg.Base.Int.{ℤ}
use rsmsg.Server.Handlers.Router.{Route}
use rsmsg.Shared.Messaging.{
  SendMessageRequest, SendMessageResponse, MessageStatusResponse, PendingMessageItem,
}
use rsmsg.Client.Types.{ClientConfig, DeviceAuth, PendingEnvelope}
use rsmsg.Client.Library.{ClientLibrary}
use rsmsg.Client.Network.{Network}
use rsmsg.Client.Act.{Act, give, ◌>>=◌, ◌>>◌}
use rsmsg.Client.Transport.{Wire, json, check_api, check_named, post_as}

unfoldable pub to_envelope : PendingMessageItem → PendingEnvelope
to_envelope m = record {
  message_id = m.message_id;
  from_device_uuid = m.from_device_uuid;
  envelope_b64 = m.envelope_b64;
  created_at_unix_ms = m.created_at_unix_ms;
}

module _ ⦃lib : ClientLibrary⦄ ⦃net : Network⦄ (cfg : ClientConfig) where
  unfoldable pub send_message :
      DeviceAuth → SendMessageRequest → Act (Wire net.World) SendMessageResponse
  unfolding post_as check_api json ◌>>=◌
  send_message auth req = do
    r ← post_as cfg auth "/v1/send_message" (Route.send_message req)
    check_api r
    json net.send_message r

  unfoldable pub fetch_pending : DeviceAuth → Option ℤ → Act (Wire net.World) (List PendingEnvelope)
  unfolding post_as check_named json to_envelope ◌>>=◌
  fetch_pending auth limit = do
    r ←
        post_as cfg auth "/v1/fetch_pending"
          (Route.fetch_pending (record { device_uuid = auth.device_uuid; limit = limit }))
    check_named "fetch_pending" r
    payload ← json net.fetch_pending r
    give (map to_envelope payload.messages)

  unfoldable pub ack_messages : DeviceAuth → List Text → Act (Wire net.World) (Unit {0})
  unfolding post_as check_named ◌>>=◌
  ack_messages auth message_ids = do
    r ←
        post_as cfg auth "/v1/ack_message"
          (Route.ack_message (record { device_uuid = auth.device_uuid; message_ids = message_ids }))
    check_named "ack_message" r

  unfoldable pub message_status :
      DeviceAuth → List Text → Act (Wire net.World) MessageStatusResponse
  unfolding post_as check_named json ◌>>=◌
  message_status auth message_ids = do
    r ←
        post_as cfg auth "/v1/message_status"
          (Route.message_status (record { message_ids = message_ids }))
    check_named "message_status" r
    json net.message_status r
