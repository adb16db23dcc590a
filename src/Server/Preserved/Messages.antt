-- ===== src/Server/Preserved/Messages.antt =====
-- Invariants of the handlers of domain/messaging.rs and domain/call_signaling.rs.
use rsmsg.Base.{ℕ, ◌≡◌, Option, none, some, List, [], ◌∷◌}
use rsmsg.Base.Text.{Text}
use rsmsg.Server.State.{Uuid, Database, QueuedCallSignal}
use rsmsg.Server.Library.{Library}
use rsmsg.Server.Keeps.{Maintains, Keeps, Keeps-bind, Keeps-bind-ok_or, On, keeps_rules}
use rsmsg.Server.Statements.{reads, Statements}
use rsmsg.Shared.Messaging.{
  FetchPrekeyBundleRequest, SendMessageRequest, FetchPendingRequest, AckMessageRequest,
  MessageStatusRequest,
}
use rsmsg.Shared.Call.{SendCallSignalRequest, FetchCallSignalsRequest}
use rsmsg.Server.Repository.Messages.{PendingRow}
use rsmsg.Server.Repository.Messages
use rsmsg.Server.Services.Messages.{mark_all_delivered, drain_pending_messages}
use rsmsg.Server.Domain.Blocking.{refuse_blocked}
use rsmsg.Server.Domain.Messaging.{
  fetch_prekey_bundle, check_blocks, send_message, fetch_pending, ack_message, message_status,
}
use rsmsg.Server.Domain.CallSignaling.{
  push_signal, call_item, send_call_signal, take_signals, fetch_call_signals,
}
use rsmsg.Server.Preserved.Users.{is_online-Keeps}

module _ {P : Database → Type 0} where
  refuse_blocked-Keeps :
      (blocker : Option Text) (to_user : Text) → Keeps (On P) (refuse_blocked blocker to_user)
  unfolding refuse_blocked
  refuse_blocked-Keeps none to_user = search keeps_rules
  refuse_blocked-Keeps (some blocker) to_user = search keeps_rules

  push_signal-Keeps : (signal : QueuedCallSignal) → Keeps (On P) (push_signal signal)
  unfolding push_signal
  push_signal-Keeps signal = record { at = λ t s h. record { get = h.get } }

  take_signals-Keeps :
      (device : Uuid) (call_id : Option Text) (limit : ℕ)
      → Keeps (On P) (take_signals device call_id limit)
  unfolding take_signals
  take_signals-Keeps device call_id limit = record { at = λ t s h. record { get = h.get } }

  pub message_status-Keeps :
      (device : Uuid) (payload : MessageStatusRequest)
      → Keeps (On P) (message_status device payload)
  unfolding message_status
  message_status-Keeps device payload = search (keeps_rules, reads) depth 12

module _ ⦃lib : Library⦄ {P : Database → Type 0} where
  pub check_blocks-Keeps : (from to : Uuid) → Keeps (On P) (check_blocks from to)
  unfolding check_blocks
  check_blocks-Keeps from to = search (keeps_rules, reads, refuse_blocked-Keeps) depth 16

  call_item-Keeps :
      (payload : SendCallSignalRequest) (from : Uuid) → Keeps (On P) (call_item payload from)
  unfolding call_item
  call_item-Keeps payload from = record { at = λ t s h. h }

  pub send_call_signal-Keeps :
      (device : Uuid) (payload : SendCallSignalRequest)
      → Keeps (On P) (send_call_signal device payload)
  unfolding send_call_signal
  send_call_signal-Keeps device payload =
      search (keeps_rules, check_blocks-Keeps, is_online-Keeps, call_item-Keeps, push_signal-Keeps)
        depth 20

  pub fetch_call_signals-Keeps :
      (device : Uuid) (payload : FetchCallSignalsRequest)
      → Keeps (On P) (fetch_call_signals device payload)
  unfolding fetch_call_signals
  fetch_call_signals-Keeps device payload = search (keeps_rules, take_signals-Keeps) depth 12

module _ ⦃lib : Library⦄ {P : Database → Type 0} (S : Statements P) where
  pub fetch_prekey_bundle-Keeps :
      (payload : FetchPrekeyBundleRequest) → Keeps (On P) (fetch_prekey_bundle payload)
  unfolding fetch_prekey_bundle
  fetch_prekey_bundle-Keeps payload =
      search (keeps_rules, reads, S.consume_one_time_prekey_keeps) depth 16

  pub send_message-Keeps :
      (device : Uuid) (payload : SendMessageRequest) → Keeps (On P) (send_message device payload)
  unfolding send_message
  send_message-Keeps device payload =
      search (keeps_rules, reads, check_blocks-Keeps, S.insert_message_keeps) depth 20

  mark_all_delivered-Keeps : (rows : List PendingRow) → Keeps (On P) (mark_all_delivered rows)
  unfolding mark_all_delivered
  mark_all_delivered-Keeps [] = search keeps_rules
  mark_all_delivered-Keeps (row ∷ rows) =
      Keeps-bind _ _ (search (keeps_rules, S.mark_delivered_keeps))
        λ _. mark_all_delivered-Keeps rows

  pub drain_pending_messages-Keeps :
      (to : Uuid) (limit : ℕ) → Keeps (On P) (drain_pending_messages to limit)
  unfolding drain_pending_messages
  drain_pending_messages-Keeps to limit =
      search (keeps_rules, reads, mark_all_delivered-Keeps) depth 12

  pub fetch_pending-Keeps :
      (device : Uuid) (payload : FetchPendingRequest) → Keeps (On P) (fetch_pending device payload)
  unfolding fetch_pending
  fetch_pending-Keeps device payload = search (keeps_rules, drain_pending_messages-Keeps) depth 12

module _ ⦃lib : Library⦄ {P : Database → Type 0} where
  -- Of the acknowledgements, the one that the request asks for must keep the predicate.
  pub ack_message-Keeps :
      (device : Uuid) (payload : AckMessageRequest)
      → ((to : Uuid)
          → lib.parse_uuid payload.device_uuid ≡ some to
          → Maintains P (Messages.ack_messages to payload.message_ids))
      → Keeps (On P) (ack_message device payload)
  unfolding ack_message
  ack_message-Keeps device payload acks = Keeps-bind-ok_or _ _ _ _ λ to e.
      let acked : Maintains P (Messages.ack_messages to payload.message_ids) = acks to e in
      search (keeps_rules, acked) depth 12
