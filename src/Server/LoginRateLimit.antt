-- ===== src/Server/LoginRateLimit.antt =====
-- crates/server/src/login_rate_limit.rs, over the map that the lock guards.
use rsmsg.Base.{
  ltb, leb, if◌then◌else◌, ◌==◌, nat_eq, text_eq, unwrap_or, ℕ, suc, ◌+◌, ◌-◌, Bool, true, false,
  Option, none, some, List, [], ◌∷◌,
}
use rsmsg.Base.Text.{Text}
use rsmsg.Base.Int.{int_eq}
use rsmsg.Server.State.{Entry}

abbrev pub Limiter : Type 0
Limiter = List (Text × Entry)

unfoldable pub get_entry : Text → Limiter → Option Entry
get_entry key [] = none
get_entry key ((k, e) ∷ m) = if k == key then some e else get_entry key m

unfoldable pub set_entry : Text → Entry → Limiter → Limiter
set_entry key e [] = (key, e) ∷ []
set_entry key e ((k, old) ∷ m) = if k == key then (k, e) ∷ m else (k, old) ∷ set_entry key e m

unfoldable pub remove_entry : Text → Limiter → Limiter
remove_entry key [] = []
remove_entry key ((k, e) ∷ m) =
    let rest = remove_entry key m in if k == key then rest else (k, e) ∷ rest

abbrev pub window : ℕ
window = 60_000

abbrev pub block_time : ℕ
block_time = 300_000

abbrev pub new_entry : ℕ → Entry
new_entry now = record { attempts = 0; window_started = now; blocked_until = none }

-- `entry(key).or_insert(..)`
abbrev pub entry_or_new : Text → ℕ → Limiter → Entry
entry_or_new key now m = unwrap_or (get_entry key m) (new_entry now)

-- The last test of `allow` and the first of `record_failure`.
unfoldable pub restart_window : ℕ → Entry → Entry
restart_window now e =
    if ltb window (now - e.window_started)
    then record e { attempts = 0; window_started = now }
    else e

-- The entry that `allow` leaves, and its answer.
unfoldable pub allow_entry : ℕ → Entry → Entry × Bool
unfolding restart_window
allow_entry now e = elim e.blocked_until [
  | none ↦ (restart_window now e, true)
  | some until ↦ if ltb now until then (e, false) else (
    restart_window now (record { attempts = 0; window_started = now; blocked_until = none }),
    true,
  )
]

unfoldable pub allow : ℕ → Text → Limiter → Limiter × Bool
unfolding allow_entry
allow now key m =
    let (e, allowed) = allow_entry now (entry_or_new key now m) in (set_entry key e m, allowed)

unfoldable pub fail_entry : ℕ → Entry → Entry
unfolding restart_window
fail_entry now e =
    let r = restart_window now e in
    if leb 8 (suc r.attempts)
    then record r { attempts = suc r.attempts; blocked_until = some (now + block_time) }
    else record r { attempts = suc r.attempts }

unfoldable pub record_failure : ℕ → Text → Limiter → Limiter
unfolding fail_entry
record_failure now key m = set_entry key (fail_entry now (entry_or_new key now m)) m

unfoldable pub record_success : Text → Limiter → Limiter
record_success key m = remove_entry key m
