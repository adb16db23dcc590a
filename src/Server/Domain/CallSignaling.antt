-- ===== src/Server/Domain/CallSignaling.antt =====
-- crates/server/src/domain/call_signaling.rs
use rsmsg.Base.{
  ltb, leb, if◌then◌else◌, ◌==◌, nat_eq, text_eq, unwrap_or, length, is_empty, drop, ℕ, Bool, true,
  not, ◌&&◌, ◌||◌, Option, none, some, List, [], ◌∷◌, ◌++◌,
}
use rsmsg.Base.Text.{Text, trim}
use rsmsg.Base.Int.{pos, clamp, int_eq}
use rsmsg.Server.State.{Uuid, QueuedCallSignal}
use rsmsg.Server.Monad.{bad_request, forbidden, conflict, done, M, pure, ◌>>=◌, ◌>>◌, guard, ok_or}
use rsmsg.Server.Library.{Library}
use rsmsg.Shared.Call.{
  SendCallSignalRequest, SendCallSignalResponse, FetchCallSignalsRequest, CallSignalItem,
  FetchCallSignalsResponse,
}
use rsmsg.Server.Realtime.{is_online}
use rsmsg.Server.Domain.Messaging.{check_blocks}

abbrev pub max_signal_queue : ℕ
max_signal_queue = 2048

-- `pop_front` where the queue is full, then `push_back`.
unfoldable pub enqueue_signal : QueuedCallSignal → List QueuedCallSignal → List QueuedCallSignal
enqueue_signal signal queue =
    (if leb max_signal_queue (length queue) then drop 1 queue else queue) ++ signal ∷ []

unfoldable pub push_signal : QueuedCallSignal → M (Unit {0})
unfolding enqueue_signal
push_signal signal t s = done tt (record s { call_signals = enqueue_signal signal s.call_signals })

module _ ⦃lib : Library⦄ where
  -- `SystemTime::now()` is the time of the request.
  unfoldable pub call_item : SendCallSignalRequest → Uuid → M CallSignalItem
  call_item payload from_device t s =
      done
        (record {
          call_id = payload.call_id;
          from_device_uuid = lib.show_uuid from_device;
          kind = payload.kind;
          payload = payload.payload;
          created_at_unix_ms = pos t.now;
        })
        s

  unfoldable pub send_call_signal : Uuid → SendCallSignalRequest → M SendCallSignalResponse
  unfolding check_blocks is_online call_item push_signal
  send_call_signal auth_device payload = do
    from_device ← ok_or (lib.parse_uuid payload.from_device_uuid) bad_request "invalid from device"
    to_device ← ok_or (lib.parse_uuid payload.to_device_uuid) bad_request "invalid to device"
    guard (auth_device == from_device) forbidden "device mismatch"
    guard (not (is_empty (trim payload.call_id) || is_empty (trim payload.kind))) bad_request
        "invalid call signal"
    check_blocks from_device to_device
    online ← is_online to_device
    guard online conflict "recipient is offline"
    item ← call_item payload from_device
    push_signal (record { to_device_uuid = to_device; item = item })
    pure (record { accepted = true })

abbrev pub call_matches : Option Text → QueuedCallSignal → Bool
call_matches none signal = true
call_matches (some call_id) signal = call_id == signal.item.call_id

-- The loop that empties the queue: `signals` and `retained` are what was pushed so far.
unfoldable pub drain_signals :
    Uuid
    → Option Text
    → ℕ
    → List QueuedCallSignal
    → List CallSignalItem
    → List QueuedCallSignal
    → List CallSignalItem × List QueuedCallSignal
drain_signals device call_id limit [] signals retained = (signals, retained)
drain_signals device call_id limit (signal ∷ queue) signals retained =
    let taken = drain_signals device call_id limit queue (signals ++ signal.item ∷ []) retained in
    let kept = drain_signals device call_id limit queue signals (retained ++ signal ∷ []) in
    if signal.to_device_uuid == device && call_matches call_id signal && ltb (length signals) limit
    then taken
    else kept

unfoldable pub take_signals : Uuid → Option Text → ℕ → M (List CallSignalItem)
unfolding drain_signals
take_signals device call_id limit t s =
    let (signals, retained) = drain_signals device call_id limit s.call_signals [] [] in
    done signals (record s { call_signals = retained })

module _ ⦃lib : Library⦄ where
  unfoldable pub fetch_call_signals : Uuid → FetchCallSignalsRequest → M FetchCallSignalsResponse
  unfolding take_signals
  fetch_call_signals auth_device payload = do
    device ← ok_or (lib.parse_uuid payload.device_uuid) bad_request "invalid device uuid"
    guard (auth_device == device) forbidden "device mismatch"
    signals ← take_signals device payload.call_id (clamp 1 500 (pos (unwrap_or payload.limit 100)))
    pure (record { signals = signals })
