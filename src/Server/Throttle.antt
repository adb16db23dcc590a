-- ===== src/Server/Throttle.antt =====
-- The login rate limiter of login_rate_limit.rs, and handlers/user.rs which asks it.
use rsmsg.Base.{
  Option-cases, All, ℕ, ◌+◌, ◌≤◌, ◌≡◌, refl, sym, ◌∙◌, ◌≢◌, inl, inr, false, none, some, List, [],
  ◌∷◌, arith,
}
use rsmsg.Base.Text.{Text}
use rsmsg.Server.State.{Entry, Server}
use rsmsg.Server.Monad.{too_many_requests, api_error, ApiError, Moment, failed}
use rsmsg.Server.Library.{Library}
use rsmsg.Server.LoginRateLimit.{
  Limiter, get_entry, set_entry, remove_entry, window, block_time, restart_window, allow_entry,
  allow, record_failure, record_success,
}
use rsmsg.Server.Handlers.User.{user_login}
use rsmsg.Shared.User.{UserLoginRequest}

get-set : (key : Text) (e : Entry) (m : Limiter) → get_entry key (set_entry key e m) ≡ some e
unfolding get_entry set_entry
get-set key e [] = ground arith
get-set key e ((k, old) ∷ m) = ground (arith, get-set key e m)

get-set_other :
    (key other : Text) (e : Entry) (m : Limiter)
    → other ≢ key
    → get_entry other (set_entry key e m) ≡ get_entry other m
unfolding get_entry set_entry
get-set_other key other e [] differs = ground arith
get-set_other key other e ((k, old) ∷ m) differs =
    ground (arith, get-set_other key other e m differs)

abbrev pub InWindow : ℕ → List ℕ → Type 0
InWindow first ts = All (λ now. now ≤ first + window) ts

-- The entry of a user who is not blocked.
abbrev pub counting : ℕ → ℕ → Entry
counting n first = record { attempts = n; window_started = first; blocked_until = none }

abbrev blocked : ℕ → ℕ → Entry
blocked first last = record {
  attempts = 8;
  window_started = first;
  blocked_until = some (last + block_time);
}

get-remove_other :
    (key other : Text) (m : Limiter)
    → other ≢ key
    → get_entry other (remove_entry key m) ≡ get_entry other m
unfolding get_entry remove_entry
get-remove_other key other [] differs = refl
get-remove_other key other ((k, old) ∷ m) differs =
    ground (arith, get-remove_other key other m differs)

-- What one user does leaves the others alone.
pub others_unaffected :
    (key other : Text) (now : ℕ) (m : Limiter)
    → other ≢ key
    → (get_entry other (record_failure now key m) ≡ get_entry other m)
      × (get_entry other (allow now key m).0 ≡ get_entry other m)
      × (get_entry other (record_success key m) ≡ get_entry other m)
unfolding record_failure allow record_success
others_unaffected key other now m differs = (
  get-set_other key other _ m differs,
  get-set_other key other _ m differs,
  get-remove_other key other m differs,
)

module _ ⦃lib : Library⦄ where
  -- A login of a blocked user is refused before the database is asked, whatever its password, and the
  -- tables stay as they are.
  pub blocked_refused :
      (payload : UserLoginRequest) (t : Moment) (s : Server)
      → (allow t.now payload.user_id s.login_rate_limiter).1 ≡ false
      → (s' : Server) × (user_login payload t s
          ≡ failed (api_error too_many_requests "too many attempts") s')
        × (s'.db ≡ s.db)
        × (s'.calls ≡ s.calls)
        × (get_entry payload.user_id s'.login_rate_limiter
            ≡ get_entry payload.user_id s.login_rate_limiter)
  unfolding user_login allow allow_entry restart_window
  blocked_refused payload t s blocked =
      elim (Option-cases (get_entry payload.user_id s.login_rate_limiter)) [
        | inl new ↦ absurd (ground (arith, new))
        | inr (e, found) ↦
            let limiter = set_entry payload.user_id e s.login_rate_limiter in
            (
              record s { login_rate_limiter = limiter },
              ground (arith, found),
              refl,
              refl,
              get-set payload.user_id e s.login_rate_limiter ∙ sym found,
            )
      ]

  -- Logins under a name that are answered by an error, at the times of a list, one after the other.
  pub data Failures (key : Text) : Server → List ℕ → Server → Type 0 where
    no_more : (s : Server) → Failures key s [] s
    one_more :
        (payload : UserLoginRequest) (t : Moment) (err : ApiError) (s s' s'' : Server)
        (later : List ℕ)
        → payload.user_id ≡ key
        → user_login payload t s ≡ failed err s'
        → Failures key s' later s''
        → Failures key s (t.now ∷ later) s''
