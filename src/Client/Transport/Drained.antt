-- ===== src/Client/Transport/Drained.antt =====
-- crates/client-core/src/transport.rs with crates/server/src/domain/realtime.rs: what `ws_once` reads of
-- a session of the server.
use rsmsg.Base.{◌≡◌, refl, Option, List, [], map, text_eq, ℕ_discrete}
use rsmsg.Base.Text.{Text, codes}
use rsmsg.Crypto.Primitives.{Bytes}
use rsmsg.Crypto.Engine.{good}
use rsmsg.Shared.Messaging.{PendingMessageItem}
use rsmsg.Server.State.{Uuid, Server}
use rsmsg.Server.Monad.{Moment, ◌>>=◌}
use rsmsg.Server.Library.{Library}
use rsmsg.Server.Realtime.{mark_online}
use rsmsg.Server.Domain.Session.{
  SessionEvent, Frame, ready, pending_message, pong, set_online, run_session,
}
use rsmsg.Client.Network.{SocketMessage, text, other}
use rsmsg.Client.Transport.Socket.{read_messages}

-- A frame of the server as the socket yields it, with the server's JSON of a message.
abbrev pub frame_message : (PendingMessageItem → Text) → Frame → SocketMessage
frame_message print ready = text (codes "ready")
frame_message print (pending_message item) = text (print item)
frame_message print (pong payload) = other

module _ ⦃lib : Library⦄ where
  -- Whatever messages wait for the device and whatever the session sends of them, `ws_once` returns
  -- none: the session says "ready" first, and the client stops there.
  pub ws_once-run_session :
      (read : Bytes → Option PendingMessageItem) (print : PendingMessageItem → Text) (device : Uuid)
      (t : Moment) (events : List (Moment × SessionEvent)) (s : Server)
      → read_messages read [] (map (frame_message print) (run_session device t events s).0)
        ≡ good []
  unfolding read_messages run_session set_online mark_online text_eq ◌>>=◌ ℕ_discrete
  ws_once-run_session read print device t events s = refl
