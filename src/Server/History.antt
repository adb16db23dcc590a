-- ===== src/Server/History.antt =====
-- A history of the server: requests to the router of crates/server/src/router.rs, one after the other,
-- each with what it meets.
use rsmsg.Base.{List, [], ◌∷◌}
use rsmsg.Base.Text.{Text}
use rsmsg.Server.State.{Database, Server}
use rsmsg.Server.Monad.{Moment}
use rsmsg.Server.Library.{Library}
use rsmsg.Server.Auth.{Headers}
use rsmsg.Server.Handlers.Router.{Route, serve}

pub record Call : Type 0 where
  pub moment : Moment
  pub headers : Headers
  pub route : Route

module _ ⦃lib : Library⦄ where
  abbrev pub step : Server → Call → Server
  step s c = (serve c.moment c.headers c.route s).1

  unfoldable pub run : Server → List Call → Server
  run s [] = s
  run s (c ∷ cs) = run (step s c) cs

  -- What every request keeps, every history keeps.
  pub run_induction :
      (P : Server → Type 0)
      → ((s : Server) (c : Call) → P s → P (step s c))
      → (s : Server) (cs : List Call) → P s
      → P (run s cs)
  unfolding run
  run_induction P keep s [] h = h
  run_induction P keep s (c ∷ cs) h = run_induction P keep (step s c) cs (keep s c h)

-- The tables after the migrations, and a server that starts on them.
abbrev pub empty_database : Database
empty_database = record {
  users = [];
  next_user = 1;
  devices = [];
  prekeys = [];
  next_prekey = 1;
  messages = [];
  tokens = [];
  blobs = [];
  invites = [];
  blocks = [];
}

abbrev pub start : Database → Text → Server
start d min_client_version = record {
  db = d;
  online_devices = [];
  device_last_seen = [];
  call_signals = [];
  login_rate_limiter = [];
  min_client_version = min_client_version;
  calls = 0;
}
