-- ===== src/Server/Presence.antt =====
-- Which devices are online: domain/realtime.rs.
use rsmsg.Base.{
  leb, ◌==◌, nat_eq, text_eq, Bool-cases, any, ℕ, ◌+◌, ◌≤◌, ◌≡◌, refl, ◌≢◌, inl, inr, Bool, true,
  false, some, List, [], ◌∷◌, arith,
}
use rsmsg.Base.Int.{int_eq}
use rsmsg.Base.Unique.{any-filter-not}
use rsmsg.Server.State.{Uuid, Server}
use rsmsg.Server.Monad.{Moment, done, ◌>>=◌, after}
use rsmsg.Server.Monad.Done.{Outcome-cases}
use rsmsg.Server.Library.{Library}
use rsmsg.Server.Realtime.{online_ttl, last_seen, mark_seen, mark_online, is_online_at}
use rsmsg.Server.Domain.Session.{
  SessionEvent, tick, ping_frame, close_frame, end_of_stream, receive_error, ignored, Frame, pong,
  send_frames, set_online, session_step, session_loop, run_session,
}
use rsmsg.Server.Services.Messages.{drain_pending_messages}

-- Whether the device is one of ONLINE_DEVICES.
abbrev pub is_listed : Uuid → Server → Bool
is_listed device s = any (λ u. u == device) s.online_devices

seen_same :
    (device : Uuid) (now : ℕ) (m : List (Uuid × ℕ))
    → last_seen device (mark_seen device now m) ≡ some now
unfolding last_seen mark_seen
seen_same device now [] = ground arith
seen_same device now ((u, at) ∷ m) = ground (arith, seen_same device now m)

seen_other :
    (device other : Uuid) (now : ℕ) (m : List (Uuid × ℕ))
    → other ≢ device
    → last_seen other (mark_seen device now m) ≡ last_seen other m
unfolding last_seen mark_seen
seen_other device other now [] differs = ground arith
seen_other device other now ((u, at) ∷ m) differs =
    ground (arith, seen_other device other now m differs)

-- A device that was just seen, and is not listed, is online for twenty seconds and no longer. Another
-- device is online or not as before.
pub seen_online :
    (device other : Uuid) (t : Moment) (s : Server) (later : ℕ)
    → is_listed device s ≡ false
    → t.now ≤ later
    → other ≢ device
    → (is_online_at later device (after (mark_online device t s)) ≡ leb later (t.now + online_ttl))
      × (is_online_at later other (after (mark_online device t s)) ≡ is_online_at later other s)
unfolding is_online_at mark_online
seen_online device other t s later closed order differs =
    let seen = seen_same device t.now s.device_last_seen in
    let o = seen_other device other t.now s.device_last_seen differs in
    (ground (arith, closed, seen), ground (arith, o))

module _ ⦃lib : Library⦄ where
  -- A close frame, the end of the stream and a receive error end a session.
  abbrev pub ends : SessionEvent → Bool
  ends close_frame = true
  ends end_of_stream = true
  ends receive_error = true
  ends _ = false

  -- A branch of the loop never fails, and says to stop at an event that ends the session.
  step_done :
      (device : Uuid) (event : SessionEvent) (t : Moment) (s : Server)
      → (frames : List Frame) × (on : Bool) × (s' : Server) × (session_step device event t s
          ≡ done (frames, on) s')
        × (ends event ≡ true → on ≡ false)
  unfolding session_step mark_online ◌>>=◌
  step_done device (tick budget) t s =
      elim (Outcome-cases (drain_pending_messages device 200 t (after (mark_online device t s)))) [
        | inl (items, s', e) ↦ (
          (send_frames budget items).0,
          (send_frames budget items).1,
          s',
          ground (arith, e),
          ground arith,
        )
        | inr (err_2, s', e) ↦ (
          (send_frames budget []).0,
          (send_frames budget []).1,
          s',
          ground (arith, e),
          ground arith,
        )
      ]
  step_done device (ping_frame payload) t s = (pong payload ∷ [], true, s, refl, ground arith)
  step_done device close_frame t s = ([], false, s, refl, λ _. refl)
  step_done device end_of_stream t s = ([], false, s, refl, λ _. refl)
  step_done device receive_error t s = ([], false, s, refl, λ _. refl)
  step_done device ignored t s = ([], true, s, refl, ground arith)

  session_closed :
      (device : Uuid) (events : List (Moment × SessionEvent)) (s : Server)
      → any (λ e. ends e.1) events ≡ true
      → is_listed device (session_loop device events s).1 ≡ false
  unfolding session_loop any
  session_closed device [] s h = cc
  session_closed device ((t, event) ∷ events) s h =
      let (frames, on, s', e, stop) = step_done device event t s in
      elim (Bool-cases on) [
        | inl goes ↦ ground (arith, e, goes, stop, session_closed device events s')
        | inr stops ↦ ground (arith, e, stops, any-filter-not (λ u. u == device) s'.online_devices)
      ]

  -- A session whose events include a close frame, the end of the stream or a receive error leaves its
  -- device off ONLINE_DEVICES, whatever the events before were: timers, batches of pending messages,
  -- database failures, pings, frames that cannot be sent. That holds as well where another session of
  -- the device is still open, since the set has a device once.
  pub session_ends_offline :
      (device : Uuid) (t : Moment) (events : List (Moment × SessionEvent)) (s : Server)
      → any (λ e. ends e.1) events ≡ true
      → is_listed device (run_session device t events s).1 ≡ false
  unfolding run_session set_online mark_online ◌>>=◌
  session_ends_offline device t events s h = session_closed device events _ h
