-- ===== src/Client/Core/Sending.antt =====
-- crates/client-core/src/core.rs: what sends messages.
use rsmsg.Base.{Bool, false, none, some, length}
use rsmsg.Base.Text.{Text}
use rsmsg.Base.Dict.{get, insert}
use rsmsg.Crypto.Primitives.{Bytes, Primitives}
use rsmsg.Crypto.Engine.{encrypt_text_to_b64}
use rsmsg.Shared.Messaging.{SendMessageRequest}
use rsmsg.Client.Types.{DeviceAuth, EncryptedMessagePayload, contact, file, call, PeerSession}
use rsmsg.Client.Library.{ClientLibrary}
use rsmsg.Client.Ratchet.{seal}
use rsmsg.Client.Network.{Network}
use rsmsg.Client.Act.{Act, give, lift, modify, ignore_error, ◌>>=◌, ◌>>◌}
use rsmsg.Client.Core.{Setup, ClientCore, remote, draw, draw_uuid, persist_sessions}
use rsmsg.Client.Transport.Messages

module _ ⦃p : Primitives⦄ ⦃lib : ClientLibrary⦄ ⦃net : Network⦄ (setup : Setup) where
  unfoldable pub send_message : DeviceAuth → SendMessageRequest → Act (ClientCore net.World) Bool
  unfolding remote ◌>>=◌
  send_message auth req = do
    response ← remote (Messages.send_message setup.config auth req)
    give response.accepted

  abbrev pub message_to : DeviceAuth → Text → Text → Text → SendMessageRequest
  message_to auth to_device_uuid message_id envelope_b64 = record {
    message_id = message_id;
    from_device_uuid = auth.device_uuid;
    to_device_uuid = to_device_uuid;
    envelope_b64 = envelope_b64;
  }

  unfoldable pub send_text_message_with_id :
      DeviceAuth → Text → Text → Text → Text → Act (ClientCore net.World) Bool
  unfolding draw send_message ◌>>=◌
  send_text_message_with_id auth to_device_uuid plaintext shared_key_b64 message_id = do
    nonce ← draw 24
    envelope_b64 ← lift (encrypt_text_to_b64 nonce shared_key_b64 plaintext)
    send_message auth (message_to auth to_device_uuid message_id envelope_b64)

  unfoldable pub send_text_message :
      DeviceAuth → Text → Text → Text → Act (ClientCore net.World) Bool
  unfolding draw_uuid send_text_message_with_id ◌>>=◌
  send_text_message auth to_device_uuid plaintext shared_key_b64 = do
    message_id ← draw_uuid
    send_text_message_with_id auth to_device_uuid plaintext shared_key_b64 message_id

  -- `Ok(false)` where there is no session.
  unfoldable pub send_text_to_peer : DeviceAuth → Text → Text → Act (ClientCore net.World) Bool
  unfolding send_text_message give
  send_text_to_peer auth peer_device_uuid plaintext s =
      elim (get peer_device_uuid s.peer_sessions) [
        | none ↦ give false s
        | some key ↦ send_text_message auth peer_device_uuid plaintext key.shared_key_b64 s
      ]

  -- The text is sealed for the peer, and the session of the peer moves on.
  unfoldable pub seal_for : Text → Text → PeerSession → Act (ClientCore net.World) Text
  unfolding draw modify ◌>>=◌
  seal_for peer_device_uuid plaintext session = do
    nonce ← draw 24
    sealed ← lift (seal setup.envelopes nonce plaintext session)
    modify (λ s. record s { peer_sessions = insert peer_device_uuid (sealed.1) s.peer_sessions })
    give (sealed.0)

  -- What is sent is remembered as sent, also where the request fails.
  unfoldable pub send_and_persist :
      DeviceAuth → SendMessageRequest → Act (ClientCore net.World) Bool
  unfolding send_message ignore_error
  send_and_persist auth req s =
      let sent = send_message auth req s in
      (sent.0, (ignore_error (persist_sessions setup) (sent.1)).1)

  unfoldable pub send_text_to_peer_with_id :
      DeviceAuth → Text → Text → Text → Act (ClientCore net.World) Bool
  unfolding seal_for send_and_persist ◌>>=◌
  send_text_to_peer_with_id auth peer_device_uuid plaintext message_id s =
      elim (get peer_device_uuid s.peer_sessions) [
        | none ↦ give false s
        | some session ↦
            (seal_for peer_device_uuid plaintext session >>= λ envelope_b64.
            send_and_persist auth (message_to auth peer_device_uuid message_id envelope_b64))
              s
      ]

  -- A payload is sent as the text of its JSON.
  unfoldable pub send_payload :
      DeviceAuth → Text → EncryptedMessagePayload → Text → Act (ClientCore net.World) Bool
  unfolding send_text_to_peer_with_id
  send_payload auth peer_device_uuid payload message_id =
      send_text_to_peer_with_id auth peer_device_uuid (setup.payloads.to_string payload) message_id

  unfoldable pub send_contact_to_peer_with_id :
      DeviceAuth → Text → Text → Act (ClientCore net.World) Bool
  unfolding send_payload
  send_contact_to_peer_with_id auth peer_device_uuid message_id =
      send_payload auth peer_device_uuid (contact 1) message_id

  unfoldable pub send_file_to_peer_with_id :
      DeviceAuth → Text → Text → Bytes → Text → Act (ClientCore net.World) Bool
  unfolding send_payload
  send_file_to_peer_with_id auth peer_device_uuid file_name bytes message_id =
      send_payload auth peer_device_uuid
        (file (record {
          v = 1;
          file_name = file_name;
          file_size = length bytes;
          data_b64 = some (p.encode bytes);
          blob_id = none;
          file_key_b64 = none;
        }))
        message_id

  unfoldable pub send_call_invite_to_peer_with_id :
      DeviceAuth → Text → Text → Bool → Text → Act (ClientCore net.World) Bool
  unfolding send_payload
  send_call_invite_to_peer_with_id auth peer_device_uuid call_id video message_id =
      send_payload auth peer_device_uuid (call 1 call_id video) message_id
