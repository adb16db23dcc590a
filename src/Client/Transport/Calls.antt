-- ===== src/Client/Transport/Calls.antt =====
-- crates/client-core/src/transport.rs: the methods about call signals.
use rsmsg.Base.{ℕ, Option, text_eq}
use rsmsg.Base.Text.{Text}
use rsmsg.Server.Handlers.Router.{Route}
use rsmsg.Shared.Call.{SendCallSignalRequest, SendCallSignalResponse, FetchCallSignalsResponse}
use rsmsg.Client.Types.{ClientConfig, DeviceAuth}
use rsmsg.Client.Library.{ClientLibrary}
use rsmsg.Client.Network.{Network}
use rsmsg.Client.Act.{Act, ◌>>=◌, ◌>>◌}
use rsmsg.Client.Transport.{Wire, json, check_api, post_as}

module _ ⦃lib : ClientLibrary⦄ ⦃net : Network⦄ (cfg : ClientConfig) where
  unfoldable pub send_call_signal :
      DeviceAuth → SendCallSignalRequest → Act (Wire net.World) SendCallSignalResponse
  unfolding post_as check_api json ◌>>=◌
  send_call_signal auth req = do
    r ← post_as cfg auth "/v1/send_call_signal" (Route.send_call_signal req)
    check_api r
    json net.send_call_signal r

  unfoldable pub fetch_call_signals :
      DeviceAuth → Option Text → Option ℕ → Act (Wire net.World) FetchCallSignalsResponse
  unfolding post_as check_api json ◌>>=◌
  fetch_call_signals auth call_id limit = do
    r ← post_as cfg auth "/v1/fetch_call_signals" (
        Route.fetch_call_signals
          (record { device_uuid = auth.device_uuid; call_id = call_id; limit = limit }))
    check_api r
    json net.fetch_call_signals r
