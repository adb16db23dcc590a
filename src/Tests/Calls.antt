-- ===== src/Tests/Calls.antt =====
-- Calls at concrete inputs.
use rsmsg.Base.{nat_eq, text_eq, find?, any, ◌≡◌, refl, true, [], ◌∷◌, ℕ_discrete}
use rsmsg.Base.Text.{codes, is_whitespace, trim_start, trim}
use rsmsg.Server.State.{Server}
use rsmsg.Server.Monad.{done, ◌>>=◌, query, after}
use rsmsg.Server.Domain.CallSignaling.{enqueue_signal, push_signal, call_item, send_call_signal}
use rsmsg.Server.Realtime.{is_online_at, is_online}
use rsmsg.Server.Repository.Devices.{find_user_id_by_device_uuid}
use rsmsg.Shared.Call.{SendCallSignalRequest}
use rsmsg.Server.Domain.Messaging.{check_blocks}
use rsmsg.Server.Domain.Blocking.{refuse_blocked}
use rsmsg.Server.Repository.UserBlocks.{block_direction}
use rsmsg.Tests.World.{toy_library, moment, server}

abbrev awake : Server
awake = record server { online_devices = 22 ∷ [] }

abbrev offer : SendCallSignalRequest
offer = record {
  call_id = codes "call-1";
  from_device_uuid = 1011 ∷ [];
  to_device_uuid = 1022 ∷ [];
  kind = codes "offer";
  payload = codes "sdp";
}

abbrev called : Server
called = after (send_call_signal 11 offer moment awake)

phone_calls : send_call_signal 11 offer moment awake ≡ done (record { accepted = true }) called
unfolding send_call_signal check_blocks find_user_id_by_device_uuid block_direction refuse_blocked
    is_online is_online_at call_item push_signal enqueue_signal trim trim_start is_whitespace query
    ◌>>=◌ toy_library nat_eq ℕ_discrete text_eq find? any
phone_calls = refl
