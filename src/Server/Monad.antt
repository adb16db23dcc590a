-- ===== src/Server/Monad.antt =====
-- crates/server/src/api_error.rs, and the shape of a handler: what it returns and the state that it
-- leaves, from the conditions that it meets.
pub mod Done
use rsmsg.Base.{if◌then◌else◌, ℕ, suc, String, Bool, true, false, Option, none, some}
use rsmsg.Base.Text.{Text}
use rsmsg.Server.State.{Uuid, Database, Server}

pub data StatusCode : Type 0 where
  bad_request unauthorized forbidden not_found conflict payload_too_large : StatusCode
  upgrade_required too_many_requests internal_server_error service_unavailable : StatusCode
  ok_status : StatusCode

pub record ApiError : Type 0 where
  pub status : StatusCode
  pub message : String

pub data ApiResult (A : Type 0) : Type 0 where
  ok : A → ApiResult A
  err : ApiError → ApiResult A

-- `ApiError::new`
abbrev pub api_error : StatusCode → String → ApiError
api_error status message = record { status = status; message = message }

-- `ApiError::database`, which logs its arguments and drops them.
abbrev pub database_error : ApiError
database_error = api_error internal_server_error "database error"

-- What one request meets: the time, which calls of the database fail, the random values that are
-- drawn, and the rows that other transactions hold locked.
pub record Moment : Type 0 where
  pub now : ℕ
  pub outage : ℕ → Bool
  pub fresh : ℕ → Uuid
  pub salt : Text
  pub locked_message : Uuid → Bool
  pub locked_prekey : ℕ → Bool

pub data Outcome (A : Type 0) : Type 0 where
  done : A → Server → Outcome A
  failed : ApiError → Server → Outcome A

abbrev pub M : Type 0 → Type 0
M A = Moment → Server → Outcome A

unfoldable pub pure : {A : Type 0} → A → M A
pure a t s = done a s

unfoldable pub fail : {A : Type 0} → StatusCode → String → M A
fail code message t s = failed (api_error code message) s

-- An early return with an error.
unfoldable pub guard : Bool → StatusCode → String → M (Unit {0})
guard true code message t s = done tt s
guard false code message t s = failed (api_error code message) s

-- `Option::ok_or(..)?`
unfoldable pub ok_or : {A : Type 0} → Option A → StatusCode → String → M A
ok_or none code message t s = failed (api_error code message) s
ok_or (some a) code message t s = done a s

unfoldable pub lift : {A : Type 0} → ApiResult A → M A
lift (ok a) t s = done a s
lift (err e) t s = failed e s

-- What follows an action: `?` returns its error.
unfoldable pub resume : {A B : Type 0} → Outcome A → (A → M B) → Moment → Outcome B
resume (done a s) f t = f a t s
resume (failed e s) f t = failed e s

infixl 5 ◌>>=◌ ◌>>◌
-- Opening this opens `pure`, `fail`, `guard`, `ok_or` and `lift` too.
unfoldable pub ◌>>=◌ : {A B : Type 0} → M A → (A → M B) → M B
unfolding resume pure fail guard ok_or lift
◌>>=◌ m f t s = resume (m t s) f t

abbrev pub ◌>>◌ : {B : Type 0} → M (Unit {0}) → M B → M B
m >> k = m >>= λ _. k

-- A statement of the repository: `none` where the database reports an error, such as a violated
-- constraint. The number is that of the call.
abbrev pub Query : Type 0 → Type 0
Query A = Moment → ℕ → Database → Option (A × Database)

unfoldable pub answer : {A : Type 0} → Server → Option (A × Database) → Outcome A
answer s none = failed database_error s
answer s (some (a, d)) = done a (record s { db = d })

-- A call of the repository with its `map_err(ApiError::database)?`. A statement that fails has no
-- effect.
unfoldable pub query : {A : Type 0} → Query A → M A
unfolding answer
query q t s =
    let s' = record s { calls = suc s.calls } in
    if t.outage s.calls then failed database_error s' else answer s' (q t s.calls s.db)

-- The state that a call leaves.
abbrev pub after : {A : Type 0} → Outcome A → Server
after (done a s) = s
after (failed e s) = s

-- `begin` and `commit`
abbrev pub ping : Query (Unit {0})
ping t n d = some (tt, d)

unfoldable pub commit : {A : Type 0} → Database → Moment → Outcome A → Outcome A
unfolding query
commit saved t (failed e s) = failed e (record s { db = saved })
commit saved t (done a s) = elim (query ping t s) [
  | done _ s' ↦ done a s'
  | failed e s' ↦ failed e (record s' { db = saved })
]

-- `begin`, the body, and `commit`: a body that returns early drops the transaction, which rolls back.
unfoldable pub transaction : {A : Type 0} → M A → M A
unfolding query commit
transaction body t s = elim (query ping t s) [
  | done _ s' ↦ commit s'.db t (body t s')
  | failed e s' ↦ failed e s'
]

-- A random UUID.
unfoldable pub new_v4 : M Uuid
new_v4 t s = done (t.fresh s.calls) (record s { calls = suc s.calls })
