-- ===== src/Server/WellFormed/Requests.antt =====
-- The constraints of the tables over histories of requests.
use rsmsg.Base.{List}
use rsmsg.Server.State.{Server}
use rsmsg.Server.Library.{Library}
use rsmsg.Server.Statements.{Statements}
use rsmsg.Server.Preserved.Requests.{serve-On}
use rsmsg.Server.History.{Call, run, run_induction}
use rsmsg.Server.WellFormed.{WellFormed}
use rsmsg.Server.WellFormed.Users.{
  create_user_tx-WellFormed, create_token-WellFormed, revoke_token-WellFormed, mark_used-WellFormed,
  block_user-WellFormed, unblock_user-WellFormed,
}
use rsmsg.Server.WellFormed.Devices.{
  upsert_device-WellFormed, insert_one_time_prekey-WellFormed, consume_one_time_prekey-WellFormed,
  insert_blob-WellFormed, append_blob_chunk-WellFormed,
}
use rsmsg.Server.WellFormed.Messages.{
  insert_message-WellFormed, mark_delivered-WellFormed, ack_messages-WellFormed,
}

abbrev well_formed_statements : Statements WellFormed
well_formed_statements = record {
  create_user_tx_keeps = create_user_tx-WellFormed;
  upsert_device_keeps = upsert_device-WellFormed;
  insert_one_time_prekey_keeps = insert_one_time_prekey-WellFormed;
  consume_one_time_prekey_keeps = consume_one_time_prekey-WellFormed;
  insert_message_keeps = insert_message-WellFormed;
  mark_delivered_keeps = mark_delivered-WellFormed;
  create_token_keeps = create_token-WellFormed;
  revoke_token_keeps = revoke_token-WellFormed;
  insert_blob_keeps = insert_blob-WellFormed;
  append_blob_chunk_keeps = append_blob_chunk-WellFormed;
  mark_used_keeps = mark_used-WellFormed;
  block_user_keeps = block_user-WellFormed;
  unblock_user_keeps = unblock_user-WellFormed;
}

module _ ⦃lib : Library⦄ where
  -- Any requests from well-formed tables leave well-formed tables, answered or refused, and whatever
  -- calls of the database fail.
  pub run-WellFormed : (s : Server) (cs : List Call) → WellFormed s.db → WellFormed (run s cs).db
  run-WellFormed s cs =
      run_induction (λ s. WellFormed s.db)
        (λ s c.
          serve-On well_formed_statements c.moment c.headers c.route s
            λ to ids _. ack_messages-WellFormed to ids)
        s cs
