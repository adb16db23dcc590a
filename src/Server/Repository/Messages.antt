-- ===== src/Server/Repository/Messages.antt =====
-- crates/server/src/repository/messages.rs
use rsmsg.Base.{
  leb, if◌then◌else◌, ◌==◌, nat_eq, text_eq, is_some, is_none, unwrap_or, take, any, filter, count,
  update_where, sort_by, ℕ, ◌+◌, ◌*◌, ◌/◌, Bool, not, ◌&&◌, none, some, List, ◌∷◌, map,
}
use rsmsg.Base.Text.{Text}
use rsmsg.Base.Int.{ℤ, pos, int_eq}
use rsmsg.Server.State.{Uuid, Bytes, StoredMessage}
use rsmsg.Server.Monad.{Moment, Query}
use rsmsg.Server.Repository.Devices.{has_device}

-- Nothing is inserted where the message id is known. Both devices must exist, and the row gets a new
-- id.
unfoldable pub insert_message : Text → Uuid → Uuid → Bytes → Query ℕ
insert_message message_id from to envelope t n d =
    if any (λ m. m.message_id == message_id) d.messages
    then some (0, d)
    else if has_device from d && has_device to d && not (any (λ m. m.id == t.fresh n) d.messages)
    then some (
      1,
      record d {
        messages =
            record {
              id = t.fresh n;
              message_id = message_id;
              from_device = from;
              to_device = to;
              envelope_bytes = envelope;
              created_at = t.now;
              delivered_at = none;
              acked_at = none;
            }
            ∷ d.messages;
      },
    )
    else none

abbrev pub is_pending : Uuid → StoredMessage → Bool
is_pending to m = m.to_device == to && is_none m.acked_at

-- `EXTRACT(EPOCH FROM created_at)::BIGINT * 1000`: the cast rounds to the nearest second.
unfoldable pub epoch_ms : ℕ → ℤ
epoch_ms created_at = pos ((created_at + 500) / 1000 * 1000)

-- The columns of a row that a client is sent, with the row's id.
abbrev pub PendingRow : Type 0
PendingRow = Uuid × Text × Uuid × Bytes × ℤ

abbrev pub pending_row : StoredMessage → PendingRow
pending_row m = (m.id, m.message_id, m.from_device, m.envelope_bytes, epoch_ms m.created_at)

unfoldable pub pending : Moment → Uuid → List StoredMessage → List StoredMessage
pending t to ms =
    sort_by (λ m k. leb m.created_at k.created_at)
      (filter (λ m. is_pending to m && not (t.locked_message m.id)) ms)

unfoldable pub fetch_pending_locked : Uuid → ℕ → Query (List PendingRow)
unfolding pending
fetch_pending_locked to limit t n d =
    some (map pending_row (take limit (pending t to d.messages)), d)

-- `COALESCE(delivered_at, NOW())`
abbrev pub deliver : ℕ → StoredMessage → StoredMessage
deliver now m = record m { delivered_at = some (unwrap_or m.delivered_at now) }

unfoldable pub mark_delivered : Uuid → Query (Unit {0})
mark_delivered id t n d =
    some (tt, record d { messages = update_where (λ m. m.id == id) (deliver t.now) d.messages })

-- `message_id = ANY($2)`
abbrev pub listed : List Text → StoredMessage → Bool
listed message_ids m = any (λ i. i == m.message_id) message_ids

abbrev pub is_ackable : Uuid → List Text → StoredMessage → Bool
is_ackable to message_ids m = is_pending to m && listed message_ids m

abbrev pub ack : ℕ → StoredMessage → StoredMessage
ack now m = record m { acked_at = some now }

unfoldable pub ack_messages : Uuid → List Text → Query ℕ
ack_messages to message_ids t n d = some (
  count (is_ackable to message_ids) d.messages,
  record d { messages = update_where (is_ackable to message_ids) (ack t.now) d.messages },
)

unfoldable pub fetch_statuses : Uuid → List Text → Query (List (Text × Bool × Bool))
fetch_statuses from message_ids t n d = some (
  map (λ m. (m.message_id, is_some m.delivered_at, is_some m.acked_at))
      (filter (λ m. m.from_device == from && listed message_ids m) d.messages),
  d,
)
