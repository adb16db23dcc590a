-- ===== src/Tests/Receipts.antt =====
-- Deliveries and acknowledgements at concrete inputs.
use rsmsg.Base.{
  ◌==◌, nat_eq, text_eq, any, filter, count, update_where, insert_by, sort_by, All, ◌≡◌, refl, true,
  some, List, [], ◌∷◌, map, ℕ_discrete,
}
use rsmsg.Base.Text.{codes}
use rsmsg.Base.Int.{pos, clamp, int_eq}
use rsmsg.Server.State.{Database, Server}
use rsmsg.Server.Monad.{done, ◌>>=◌, query, after, commit, transaction}
use rsmsg.Server.History.{start}
use rsmsg.Server.Repository.Messages.{
  epoch_ms, PendingRow, pending_row, pending, fetch_pending_locked, mark_delivered, ack_messages,
}
use rsmsg.Server.Services.Messages.{mark_all_delivered, pending_item, drain_pending_messages}
use rsmsg.Server.Domain.Messaging.{fetch_pending, ack_message}
use rsmsg.Shared.Messaging.{FetchPendingRequest, PendingMessageItem, AckMessageRequest}
use rsmsg.Server.WellFormed.{WellFormed}
use rsmsg.Server.Lasting.Messages.{Acked, Waiting}
use rsmsg.Server.Delivery.{message_row}
use rsmsg.Server.Acking.{ack_message_done}
use rsmsg.Server.Receipts.{Delivered, batch, fetched-Delivered}
use rsmsg.Tests.World.{toy_library, moment, tables, tables-WellFormed}

-- A message waits for the laptop.
abbrev waiting_tables : Database
waiting_tables = record tables {
  messages = message_row 900 50_000 (codes "m1") 11 22 (42 ∷ []) ∷ [];
}

abbrev mailbox : Server
mailbox = start waiting_tables (codes "1.0.0")

waiting_tables-WellFormed : WellFormed waiting_tables
unfolding any nat_eq ℕ_discrete
waiting_tables-WellFormed = record {
  users = tables-WellFormed.users;
  devices = tables-WellFormed.devices;
  names = tables-WellFormed.names;
  prekeys = tables-WellFormed.prekeys;
  serials = tables-WellFormed.serials;
  below = tables-WellFormed.below;
  messages = (refl, tt);
  rows = (refl, tt);
  known = ((refl, refl), tt);
  tokens = tables-WellFormed.tokens;
  blobs = tables-WellFormed.blobs;
  blocks = tt;
  blockers = tt;
}

abbrev fetch : FetchPendingRequest
fetch = record { device_uuid = 1022 ∷ []; limit = some (pos 10) }

abbrev fetched_item : PendingMessageItem
fetched_item = record {
  message_id = codes "m1";
  from_device_uuid = 1011 ∷ [];
  envelope_b64 = 42 ∷ [];
  created_at_unix_ms = pos 50_000;
}

abbrev emptied : Server
emptied = after (fetch_pending 22 fetch moment mailbox)

laptop_fetched :
    fetch_pending 22 fetch moment mailbox ≡ done (record { messages = fetched_item ∷ [] }) emptied
unfolding fetch_pending drain_pending_messages fetch_pending_locked pending mark_all_delivered
    mark_delivered pending_item epoch_ms clamp transaction commit query ◌>>=◌ toy_library nat_eq
    ℕ_discrete filter sort_by insert_by update_where
laptop_fetched = refl

fetched-Delivered_example :
    (rows : List PendingRow) × (rows ≡ map pending_row (batch 22 fetch moment mailbox.db))
    × (fetched_item ∷ [] ≡ map pending_item rows)
    × All (λ row. Delivered emptied.db row.0) rows
fetched-Delivered_example =
    fetched-Delivered 22 fetch moment mailbox (record { messages = fetched_item ∷ [] }) emptied
      laptop_fetched

abbrev receipt : AckMessageRequest
receipt = record { device_uuid = 1022 ∷ []; message_ids = codes "m1" ∷ [] }

abbrev acknowledged : Server
acknowledged = after (ack_message 22 receipt moment mailbox)

laptop_acks : ack_message 22 receipt moment mailbox ≡ done (record { acked = 1 }) acknowledged
unfolding ack_message ack_messages query ◌>>=◌ toy_library nat_eq ℕ_discrete text_eq any count
    update_where
laptop_acks = refl

mailbox_waits : Waiting (codes "m1") 11 22 (42 ∷ []) mailbox.db
unfolding nat_eq ℕ_discrete text_eq any
mailbox_waits = refl

receipt_lists : any (λ i. i == codes "m1") receipt.message_ids ≡ true
unfolding nat_eq ℕ_discrete text_eq any
receipt_lists = refl

ack_message_done_example : Acked (codes "m1") acknowledged.db
ack_message_done_example =
    ack_message_done 22 receipt moment mailbox (record { acked = 1 }) acknowledged (codes "m1") 11
      (42 ∷ []) waiting_tables-WellFormed mailbox_waits receipt_lists laptop_acks
