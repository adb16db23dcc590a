-- ===== src/Tests/Sessions.antt =====
-- Sessions at concrete inputs.
use rsmsg.Base.{any, ◌≡◌, refl, false, none, map, List, [], ◌∷◌}
use rsmsg.Server.State.{Server}
use rsmsg.Server.Monad.{Moment}
use rsmsg.Server.Domain.Session.{SessionEvent, tick, ping_frame, close_frame, run_session}
use rsmsg.Server.Presence.{is_listed, session_ends_offline}
use rsmsg.Base.Text.{codes}
use rsmsg.Crypto.Engine.{good}
use rsmsg.Client.Transport.Socket.{read_messages}
use rsmsg.Client.Transport.Drained.{frame_message, ws_once-run_session}
use rsmsg.Tests.World.{toy_library, moment, server}

abbrev events : List (Moment × SessionEvent)
events = (moment, tick none) ∷ (moment, ping_frame (1 ∷ [])) ∷ (moment, close_frame) ∷ []

-- Another session of the device is open already.
abbrev two_sessions : Server
two_sessions = record server { online_devices = 11 ∷ [] }

session_ends_offline_example : is_listed 11 (run_session 11 moment events two_sessions).1 ≡ false
unfolding toy_library any
session_ends_offline_example = session_ends_offline 11 moment events two_sessions refl

ws_once-run_session_example :
    read_messages
      (λ bytes. none)
      []
      (map (frame_message (λ m. codes "{}")) (run_session 11 moment events server).0)
    ≡ good []
unfolding toy_library
ws_once-run_session_example =
    ws_once-run_session (λ bytes. none) (λ m. codes "{}") 11 moment events server
