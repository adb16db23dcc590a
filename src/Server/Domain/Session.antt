-- ===== src/Server/Domain/Session.antt =====
-- crates/server/src/domain/realtime.rs: a WebSocket session, driven by the events that the select
-- loop waits for.
use rsmsg.Base.{
  if◌then◌else◌, ◌==◌, nat_eq, text_eq, any, filter, ℕ, zero, suc, Bool, true, false, not, Option,
  none, some, List, [], ◌∷◌, ◌++◌, map,
}
use rsmsg.Base.Int.{int_eq}
use rsmsg.Server.State.{Uuid, Bytes, Server}
use rsmsg.Server.Monad.{Moment, done, failed, M, pure, ◌>>=◌, ◌>>◌}
use rsmsg.Server.Library.{Library}
use rsmsg.Shared.Messaging.{PendingMessageItem}
use rsmsg.Server.Realtime.{mark_online}
use rsmsg.Server.Services.Messages.{drain_pending_messages}

-- `tick n`: the timer fires, and the socket takes n frames more before a send fails, or any number.
-- The other events are what `recv` gives; `ignored` is any frame that is ignored.
pub data SessionEvent : Type 0 where
  tick : Option ℕ → SessionEvent
  ping_frame : Bytes → SessionEvent
  close_frame end_of_stream receive_error ignored : SessionEvent

pub data Frame : Type 0 where
  ready : Frame
  pending_message : PendingMessageItem → Frame
  pong : Bytes → Frame

-- The frames that are sent, and whether every one was.
unfoldable pub send_frames : Option ℕ → List PendingMessageItem → List Frame × Bool
send_frames none items = (map pending_message items, true)
send_frames (some budget) [] = ([], true)
send_frames (some zero) (item ∷ items) = ([], false)
send_frames (some (suc budget)) (item ∷ items) =
    let (frames, sent) = send_frames (some budget) items in (pending_message item ∷ frames, sent)

unfoldable pub set_online : Uuid → M (Unit {0})
set_online device t s = done tt (record s {
  online_devices =
      if any (λ u. u == device) s.online_devices
      then s.online_devices
      else device ∷ s.online_devices;
})

unfoldable pub set_offline : Uuid → M (Unit {0})
set_offline device t s =
    done tt (record s { online_devices = filter (λ u. not (u == device)) s.online_devices })

-- An error of the drain is skipped.
abbrev pub or_nothing : M (List PendingMessageItem) → M (List PendingMessageItem)
or_nothing m t s = elim (m t s) [ done items s' ↦ done items s' | failed e s' ↦ done [] s' ]

module _ ⦃lib : Library⦄ where
  -- A branch of the select: the frames that it sends, and whether the loop goes on.
  unfoldable pub session_step : Uuid → SessionEvent → M (List Frame × Bool)
  unfolding mark_online send_frames
  session_step device (tick budget) = do
    mark_online device
    items ← or_nothing (drain_pending_messages device 200)
    pure (send_frames budget items)
  session_step device (ping_frame payload) = pure (pong payload ∷ [], true)
  session_step device close_frame = pure ([], false)
  session_step device end_of_stream = pure ([], false)
  session_step device receive_error = pure ([], false)
  session_step device ignored = pure ([], true)

  -- The loop, each event with its own moment. A session that ends takes its device offline.
  unfoldable pub session_loop : Uuid → List (Moment × SessionEvent) → Server → List Frame × Server
  unfolding session_step set_offline
  session_loop device [] s = ([], s)
  session_loop device ((t, event) ∷ events) s = elim (session_step device event t s) [
    | failed e s' ↦ ([], s')
    | done (frames, true) s' ↦
        let (more, s'') = session_loop device events s' in (frames ++ more, s'')
    | done (frames, false) s' ↦
        (frames, record s' { online_devices = filter (λ u. not (u == device)) s'.online_devices })
  ]

  unfoldable pub run_session :
      Uuid → Moment → List (Moment × SessionEvent) → Server → List Frame × Server
  unfolding set_online mark_online session_loop
  run_session device t events s = elim ((do set_online device; mark_online device) t s) [
    | failed e s' ↦ ([], s')
    | done _ s' ↦ let (frames, s'') = session_loop device events s' in (ready ∷ frames, s'')
  ]
