-- ===== src/Server/Calls.antt =====
-- Sending call signals: domain/call_signaling.rs.
use rsmsg.Base.{
  leb, Bool-cases, Option-cases, length, is_empty, drop, ◌-◌, ◌≤◌, ◌<◌, ◌≡◌, refl, sym, ap, subst,
  ◌∙◌, inl, inr, true, false, some, List, [], ◌∷◌, arith,
}
use rsmsg.Base.Text.{trim}
use rsmsg.Base.Unique.{length-append}
use rsmsg.Server.State.{Uuid, QueuedCallSignal, Server}
use rsmsg.Server.Monad.{Moment, done, pure, ◌>>=◌, query}
use rsmsg.Server.Monad.Done.{guard_then, ok_or_then, bind_then}
use rsmsg.Server.Library.{Library}
use rsmsg.Server.Domain.CallSignaling.{
  max_signal_queue, enqueue_signal, push_signal, call_item, send_call_signal,
}
use rsmsg.Server.Delivery.{MayWrite, check_blocks_done}
use rsmsg.Server.Realtime.{is_online_at, is_online}
use rsmsg.Server.Repository.Devices.{owner_of, find_user_id_by_device_uuid}
use rsmsg.Shared.Call.{SendCallSignalRequest, SendCallSignalResponse}
use rsmsg.Server.Domain.Messaging.{check_blocks}
use rsmsg.Server.Domain.Blocking.{refuse_blocked}
use rsmsg.Server.Repository.UserBlocks.{block_direction}

length-drop_one : {A : Type 0} (xs : List A) → length (drop 1 xs) ≡ length xs - 1
length-drop_one [] = omega arith
length-drop_one (x ∷ xs) = omega arith

enqueue-bounded :
    (signal : QueuedCallSignal) (queue : List QueuedCallSignal)
    → length queue ≤ max_signal_queue
    → length (enqueue_signal signal queue) ≤ max_signal_queue
unfolding enqueue_signal
enqueue-bounded signal queue fits = elim (Bool-cases (leb max_signal_queue (length queue))) [
  | inl full ↦
      let joined = length-append (drop 1 queue) (signal ∷ []) in
      let dropped = length-drop_one queue in rw full (omega arith)
  | inr room ↦
      let joined = length-append queue (signal ∷ []) in
      let less : length queue < max_signal_queue = ground arith in rw room (omega arith)
]

module _ ⦃lib : Library⦄ where
  check_blocks_quiet :
      (from to : Uuid) (t : Moment) (s : Server) (s' : Server)
      → check_blocks from to t s ≡ done tt s'
      → (s'.call_signals ≡ s.call_signals)
        × ((device : Uuid) → is_online_at t.now device s' ≡ is_online_at t.now device s)
  unfolding check_blocks ◌>>=◌ query find_user_id_by_device_uuid block_direction refuse_blocked
      is_online_at
  check_blocks_quiet from to t s s' h = elim (Option-cases (owner_of from s.db)) [
    | inl a ↦ absurd (ground (arith, a))
    | inr (from_user, a) ↦ elim (Option-cases (owner_of to s.db)) [
      | inl b ↦ absurd (ground (arith, a, b))
      | inr (to_user, b) ↦ (ground (arith, a, b), λ device. ground (arith, a, b))
    ]
  ]

  -- A call signal that is accepted comes from the authorized device, names a call and a kind, and goes to
  -- a device that is online, of a user such that neither blocks the other. It is the last of the queue,
  -- which has 2048 signals at most: where it was full, the oldest is dropped. The tables do not change.
  pub send_call_signal_done :
      (auth : Uuid) (payload : SendCallSignalRequest) (t : Moment) (s : Server)
      (r : SendCallSignalResponse) (s' : Server)
      → length s.call_signals ≤ max_signal_queue
      → send_call_signal auth payload t s ≡ done r s'
      → (to : Uuid) × (signal : QueuedCallSignal) × (lib.parse_uuid payload.from_device_uuid
          ≡ some auth)
        × (lib.parse_uuid payload.to_device_uuid ≡ some to)
        × (is_empty (trim payload.call_id) ≡ false)
        × (is_empty (trim payload.kind) ≡ false)
        × MayWrite auth to s.db
        × (is_online_at t.now to s ≡ true)
        × (signal.to_device_uuid ≡ to)
        × (signal.item.call_id ≡ payload.call_id)
        × (signal.item.payload ≡ payload.payload)
        × (s'.call_signals ≡ enqueue_signal signal s.call_signals)
        × (length s'.call_signals ≤ max_signal_queue)
        × (s'.db ≡ s.db)
  unfolding send_call_signal is_online call_item push_signal pure
  send_call_signal_done auth payload t s r s' fits h = ok_or_then _ _ _ _ h λ from a h1.
      ok_or_then _ _ _ _ h1 λ to b h2. guard_then _ _ _ _ h2 λ same h3.
        guard_then _ _ _ _ h3 λ named h4. bind_then _ _ h4 λ _ s1 rules h5.
          bind_then _ _ h5 λ online s2 q2 h6. guard_then _ _ _ _ h6 λ on h7.
            bind_then _ _ h7 λ item s3 q3 h8. bind_then _ _ h8 λ _ s4 q4 h9.
              let (allowed, kept) = check_blocks_done from to t s s1 rules in
              let (queue, presence) = check_blocks_quiet from to t s s1 rules in
              let sender : from ≡ auth = ground arith in
              let signal : QueuedCallSignal = record { to_device_uuid = to; item = item } in
              let pushed : s'.call_signals ≡ enqueue_signal signal s.call_signals =
                ground (arith, queue) in
              (
                to,
                signal,
                a ∙ ap some sender,
                b,
                ground arith,
                ground arith,
                subst (λ u. MayWrite u to s.db) sender allowed,
                ground (arith, presence to),
                refl,
                ground arith,
                ground arith,
                pushed,
                subst (λ q. length q ≤ max_signal_queue) (sym pushed)
                    (enqueue-bounded signal s.call_signals fits),
                ground (arith, kept),
              )
