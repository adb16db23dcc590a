-- ===== src/Server/Handlers/Health.antt =====
-- crates/server/src/handlers: health.rs, and ws.rs as far as the upgrade.

use rsmsg.Server.State.{Uuid}
use rsmsg.Server.Monad.{StatusCode, service_unavailable, ok_status, done, failed, M, query, ping}
use rsmsg.Server.Library.{Library}
use rsmsg.Server.Auth.{Headers, authorize_device}

-- `SELECT 1::BIGINT`; the answer is a status whether or not the database replies.
unfoldable pub health : M StatusCode
health t s = elim (query ping t s) [
  | done _ s' ↦ done ok_status s'
  | failed e s' ↦ done service_unavailable s'
]

module _ ⦃lib : Library⦄ where
  -- The device whose session runs on the upgraded connection.
  unfoldable pub ws_realtime : Headers → M Uuid
  ws_realtime headers = authorize_device headers
