-- ===== src/Server/Handlers/CallSignaling.antt =====
-- crates/server/src/handlers/call_signaling.rs

use rsmsg.Server.Monad.{M, ◌>>=◌}
use rsmsg.Server.Library.{Library}
use rsmsg.Server.Auth.{Headers, authorize_device}
use rsmsg.Shared.Call.{
  SendCallSignalRequest, SendCallSignalResponse, FetchCallSignalsRequest, FetchCallSignalsResponse,
}
use rsmsg.Server.Domain.CallSignaling

module _ ⦃lib : Library⦄ where
  unfoldable pub send_call_signal : Headers → SendCallSignalRequest → M SendCallSignalResponse
  send_call_signal headers payload = do
    auth_device ← authorize_device headers
    CallSignaling.send_call_signal auth_device payload

  unfoldable pub fetch_call_signals : Headers → FetchCallSignalsRequest → M FetchCallSignalsResponse
  fetch_call_signals headers payload = do
    auth_device ← authorize_device headers
    CallSignaling.fetch_call_signals auth_device payload
