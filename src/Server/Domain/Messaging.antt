-- ===== src/Server/Domain/Messaging.antt =====
-- crates/server/src/domain/messaging.rs
use rsmsg.Base.{
  if◌then◌else◌, ◌==◌, nat_eq, text_eq, unwrap_or, is_empty, Bool, Option, none, some, [], map,
}
use rsmsg.Base.Text.{Text}
use rsmsg.Base.Int.{ℤ, pos, clamp, int_eq}
use rsmsg.Server.State.{Uuid, Bytes}
use rsmsg.Server.Monad.{
  bad_request, forbidden, not_found, M, pure, ◌>>=◌, ◌>>◌, guard, ok_or, query, transaction,
}
use rsmsg.Server.Library.{Library}
use rsmsg.Shared.Messaging.{
  FetchPrekeyBundleRequest, FetchPrekeyBundleResponse, SendMessageRequest, SendMessageResponse,
  FetchPendingRequest, FetchPendingResponse, AckMessageRequest, AckMessageResponse,
  MessageStatusRequest, MessageStatusItem, MessageStatusResponse,
}
use rsmsg.Server.Repository.Devices.{
  Bundle, find_device_bundle, device_exists, find_user_id_by_device_uuid,
}
use rsmsg.Server.Repository.Messages.{insert_message, fetch_statuses}
use rsmsg.Server.Repository.Messages
use rsmsg.Server.Repository.Prekeys.{consume_one_time_prekey}
use rsmsg.Server.Repository.UserBlocks.{block_direction}
use rsmsg.Server.Services.Messages.{drain_pending_messages}
use rsmsg.Server.Domain.Blocking.{refuse_blocked}

module _ ⦃lib : Library⦄ where
  unfoldable pub bundle_response : Bundle → Option (ℤ × Bytes) → FetchPrekeyBundleResponse
  bundle_response device one_time = record {
    device_uuid = lib.show_uuid device.0;
    identity_key_b64 = lib.encode device.1;
    signing_identity_key_b64 = lib.encode device.2;
    signed_prekey_b64 = lib.encode device.3;
    signed_prekey_signature_b64 = lib.encode device.4;
    one_time_prekey = elim one_time [
      | none ↦ none
      | some (key_id, pubkey) ↦ some (record { key_id = key_id; pubkey_b64 = lib.encode pubkey })
    ];
  }

  unfoldable pub fetch_prekey_bundle : FetchPrekeyBundleRequest → M FetchPrekeyBundleResponse
  unfolding bundle_response
  fetch_prekey_bundle payload = transaction do
    found ← query (find_device_bundle payload.user_id payload.device_id)
    device ← ok_or found not_found "device not found"
    one_time ← query (consume_one_time_prekey device.0)
    pure (bundle_response device one_time)

  -- The block rules, between the users of two devices.
  unfoldable pub check_blocks : Uuid → Uuid → M (Unit {0})
  unfolding refuse_blocked
  check_blocks from_device to_device = do
    sender ← query (find_user_id_by_device_uuid from_device)
    from_user ← ok_or sender forbidden "device mismatch"
    recipient ← query (find_user_id_by_device_uuid to_device)
    to_user ← ok_or recipient not_found "recipient device not found"
    blocker ← query (block_direction from_user to_user)
    refuse_blocked blocker to_user

  unfoldable pub send_message : Uuid → SendMessageRequest → M SendMessageResponse
  unfolding check_blocks
  send_message auth_device payload = do
    from_device ← ok_or (lib.parse_uuid payload.from_device_uuid) bad_request "invalid from device"
    to_device ← ok_or (lib.parse_uuid payload.to_device_uuid) bad_request "invalid to device"
    envelope ← ok_or (lib.decode payload.envelope_b64) bad_request "invalid envelope"
    guard (auth_device == from_device) forbidden "device mismatch"
    exists ← query (device_exists to_device)
    guard exists not_found "recipient device not found"
    check_blocks from_device to_device
    rows ← query (insert_message payload.message_id from_device to_device envelope)
    pure (record { accepted = rows == 1 })

  unfoldable pub fetch_pending : Uuid → FetchPendingRequest → M FetchPendingResponse
  fetch_pending auth_device payload = do
    to_device ← ok_or (lib.parse_uuid payload.device_uuid) bad_request "invalid device uuid"
    guard (auth_device == to_device) forbidden "device mismatch"
    messages ← drain_pending_messages to_device (clamp 1 500 (unwrap_or payload.limit (pos 100)))
    pure (record { messages = messages })

  unfoldable pub ack_message : Uuid → AckMessageRequest → M AckMessageResponse
  ack_message auth_device payload = do
    device ← ok_or (lib.parse_uuid payload.device_uuid) bad_request "invalid device uuid"
    guard (auth_device == device) forbidden "device mismatch"
    if is_empty payload.message_ids then pure (record { acked = 0 }) else do
      acked ← query (Messages.ack_messages device payload.message_ids)
      pure (record { acked = acked })

unfoldable pub status_item : Text × Bool × Bool → MessageStatusItem
status_item (message_id, delivered, read) = record {
  message_id = message_id;
  delivered = delivered;
  read = read;
}

unfoldable pub message_status : Uuid → MessageStatusRequest → M MessageStatusResponse
unfolding status_item
message_status auth_device payload =
    if is_empty payload.message_ids then pure (record { messages = [] }) else do
      rows ← query (fetch_statuses auth_device payload.message_ids)
      pure (record { messages = map status_item rows })
