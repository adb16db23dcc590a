-- ===== src/Tests/Signals.antt =====
-- Call signals at concrete inputs.
use rsmsg.Base.{nat_eq, take, drop, filter, ℕ, ◌≡◌, refl, not, none, List, [], ◌∷◌, map, ℕ_discrete}
use rsmsg.Base.Text.{codes}
use rsmsg.Base.Int.{pos}
use rsmsg.Server.State.{Uuid, QueuedCallSignal, Server}
use rsmsg.Server.Monad.{done}
use rsmsg.Server.Domain.CallSignaling.{drain_signals, take_signals}
use rsmsg.Server.Signals.{wanted, item_of, take_signals_lem}
use rsmsg.Tests.World.{moment, server}

abbrev signal : ℕ → Uuid → QueuedCallSignal
signal n to = record {
  to_device_uuid = to;
  item = record {
    call_id = codes "call";
    from_device_uuid = 1011 ∷ [];
    kind = codes "offer";
    payload = n ∷ [];
    created_at_unix_ms = pos n;
  };
}

abbrev ringing : Server
ringing = record server { call_signals = signal 1 22 ∷ signal 2 33 ∷ signal 3 22 ∷ [] }

take_signals_lem_example :
    (left : List QueuedCallSignal) × (take_signals 22 none 1 moment ringing
      ≡ done
          (map item_of (take 1 (filter (wanted 22 none) ringing.call_signals)))
          (record ringing { call_signals = left }))
    × (filter (wanted 22 none) left ≡ drop 1 (filter (wanted 22 none) ringing.call_signals))
    × (filter (λ x. not (wanted 22 none x)) left
        ≡ filter (λ x. not (wanted 22 none x)) ringing.call_signals)
take_signals_lem_example = take_signals_lem 22 none 1 moment ringing

-- One signal is given out, and the other two are left in their order.
one_taken :
    take_signals 22 none 1 moment ringing
    ≡ done
        ((signal 1 22).item ∷ [])
        (record ringing { call_signals = signal 2 33 ∷ signal 3 22 ∷ [] })
unfolding take_signals drain_signals nat_eq ℕ_discrete
one_taken = refl
