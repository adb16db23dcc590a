-- ===== src/Server/Realtime.antt =====
-- crates/server/src/domain/realtime.rs: which devices are online. The sessions are in Session.
use rsmsg.Base.{
  leb, if◌then◌else◌, ◌==◌, nat_eq, text_eq, any, ℕ, ◌-◌, Bool, true, false, Option, none, some,
  List, [], ◌∷◌,
}
use rsmsg.Base.Int.{int_eq}
use rsmsg.Server.State.{Uuid, Server}
use rsmsg.Server.Monad.{done, M}

abbrev pub online_ttl : ℕ
online_ttl = 20_000

unfoldable pub last_seen : Uuid → List (Uuid × ℕ) → Option ℕ
last_seen device [] = none
last_seen device ((u, at) ∷ m) = if u == device then some at else last_seen device m

unfoldable pub mark_seen : Uuid → ℕ → List (Uuid × ℕ) → List (Uuid × ℕ)
mark_seen device now [] = (device, now) ∷ []
mark_seen device now ((u, at) ∷ m) =
    if u == device then (u, now) ∷ m else (u, at) ∷ mark_seen device now m

unfoldable pub mark_online : Uuid → M (Unit {0})
mark_online device t s =
    done tt (record s { device_last_seen = mark_seen device t.now s.device_last_seen })

unfoldable pub is_online_at : ℕ → Uuid → Server → Bool
unfolding last_seen
is_online_at now device s =
    if any (λ u. u == device) s.online_devices
    then true
    else elim (last_seen device s.device_last_seen) [
      | none ↦ false
      | some at ↦ leb (now - at) online_ttl
    ]

unfoldable pub is_online : Uuid → M Bool
unfolding is_online_at
is_online device t s = done (is_online_at t.now device s) s
