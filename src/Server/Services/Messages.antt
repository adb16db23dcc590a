-- ===== src/Server/Services/Messages.antt =====
-- crates/server/src/services/messages.rs
use rsmsg.Base.{ℕ, List, [], ◌∷◌, map}
use rsmsg.Server.State.{Uuid}
use rsmsg.Server.Monad.{M, pure, ◌>>=◌, ◌>>◌, query, transaction}
use rsmsg.Server.Library.{Library}
use rsmsg.Shared.Messaging.{PendingMessageItem}
use rsmsg.Server.Repository.Messages.{PendingRow, fetch_pending_locked, mark_delivered}

-- The loop over the rows.
unfoldable pub mark_all_delivered : List PendingRow → M (Unit {0})
mark_all_delivered [] = pure tt
mark_all_delivered (row ∷ rows) = do query (mark_delivered row.0); mark_all_delivered rows

module _ ⦃lib : Library⦄ where
  unfoldable pub pending_item : PendingRow → PendingMessageItem
  pending_item row = record {
    message_id = row.1;
    from_device_uuid = lib.show_uuid row.2;
    envelope_b64 = lib.encode row.3;
    created_at_unix_ms = row.4;
  }

  unfoldable pub drain_pending_messages : Uuid → ℕ → M (List PendingMessageItem)
  unfolding mark_all_delivered
  drain_pending_messages to limit = transaction do
    rows ← query (fetch_pending_locked to limit)
    mark_all_delivered rows
    pure (map pending_item rows)
