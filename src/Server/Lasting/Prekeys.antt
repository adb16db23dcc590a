-- ===== src/Server/Lasting/Prekeys.antt =====
-- Consumed one-time prekeys over histories of requests: repository/prekeys.rs.
use rsmsg.Base.{
  ◌==◌, nat_eq, text_eq, Option-cases, is_some, any, filter, update_where, ℕ, refl, inl, inr, Bool,
  ◌&&◌, List, arith,
}
use rsmsg.Base.Text.{Text}
use rsmsg.Base.Int.{ℤ, int_eq}
use rsmsg.Base.Settled.{Settled, Settled-update_where}
use rsmsg.Server.State.{Uuid, Bytes, OneTimePrekey, Database, Server}
use rsmsg.Server.Library.{Library}
use rsmsg.Server.Keeps.{Maintains}
use rsmsg.Server.Statements.{Statements}
use rsmsg.Server.Repository.Users.{create_user_tx}
use rsmsg.Server.Repository.Devices.{upsert_device}
use rsmsg.Server.Repository.Prekeys.{
  insert_one_time_prekey, is_available, pick_lowest, consume, consume_one_time_prekey,
}
use rsmsg.Server.Repository.Messages.{insert_message, mark_delivered, ack_messages}
use rsmsg.Server.Repository.AuthTokens.{create_token, revoke_token}
use rsmsg.Server.Repository.Blobs.{insert_blob, append_blob_chunk}
use rsmsg.Server.Repository.RegistrationInvites.{mark_used}
use rsmsg.Server.Repository.UserBlocks.{block_user, unblock_user}
use rsmsg.Server.Preserved.Requests.{serve-On}
use rsmsg.Server.History.{Call, run, run_induction}

module _ (device : Uuid) (key_id : ℤ) where
  abbrev pub is_key : OneTimePrekey → Bool
  is_key p = p.device_ref == device && p.key_id == key_id

  abbrev pub is_consumed : OneTimePrekey → Bool
  is_consumed p = is_some p.consumed_at

  -- The device has that key, and it is consumed.
  abbrev pub Spent : Database → Type 0
  Spent d = Settled is_key is_consumed d.prekeys

  insert_one_time_prekey-Spent :
      (other : Uuid) (id : ℤ) (pubkey : Bytes)
      → Maintains Spent (insert_one_time_prekey other id pubkey)
  unfolding insert_one_time_prekey any
  insert_one_time_prekey-Spent other id pubkey = record {
    at = λ t n d h. elim (nat_eq.dec other device) [
      | no differs ↦ ground arith
      | yes same ↦ rw same (elim (int_eq.dec id key_id) [
        | no differs ↦ ground arith
        | yes equal ↦ rw equal (ground (arith, h.0))
      ])
    ];
  }

  consume-Spent :
      (p : OneTimePrekey → Bool) (now : ℕ) (ps : List OneTimePrekey)
      → Settled is_key is_consumed ps
      → Settled is_key is_consumed (update_where p (consume now) ps)
  consume-Spent p now =
      Settled-update_where is_key is_consumed p (consume now) (λ x. refl) (λ x e. refl)

  consume_one_time_prekey-Spent : (other : Uuid) → Maintains Spent (consume_one_time_prekey other)
  unfolding consume_one_time_prekey
  consume_one_time_prekey-Spent other = record {
    at = λ t n d h. elim (Option-cases (pick_lowest (filter (is_available t other) d.prekeys))) [
      | inl e ↦ rw (e, consume_one_time_prekey) h
      | inr (q, e) ↦ rw (e, consume_one_time_prekey) (consume-Spent _ t.now d.prekeys h)
    ];
  }

  Spent-statements : Statements (Spent)
  unfolding create_user_tx upsert_device insert_message mark_delivered create_token revoke_token
      insert_blob append_blob_chunk mark_used block_user unblock_user
  Spent-statements = record {
    create_user_tx_keeps = λ user_id hash. record { at = λ t n d h. ground arith };
    upsert_device_keeps = λ user_id device_id i s k g. record { at = λ t n d h. ground arith };
    insert_one_time_prekey_keeps = insert_one_time_prekey-Spent;
    consume_one_time_prekey_keeps = consume_one_time_prekey-Spent;
    insert_message_keeps = λ message_id from to envelope. record { at = λ t n d h. ground arith };
    mark_delivered_keeps = λ id. record { at = λ t n d h. ground arith };
    create_token_keeps = λ device hash. record { at = λ t n d h. ground arith };
    revoke_token_keeps = λ device hash. record { at = λ t n d h. ground arith };
    insert_blob_keeps = λ owner bytes. record { at = λ t n d h. ground arith };
    append_blob_chunk_keeps = λ owner blob_id chunk. record { at = λ t n d h. ground arith };
    mark_used_keeps = λ id user. record { at = λ t n d h. ground arith };
    block_user_keeps = λ blocker blocked. record { at = λ t n d h. ground arith };
    unblock_user_keeps = λ blocker blocked. record { at = λ t n d h. ground arith };
  }

  ack_messages-Spent : (to : Uuid) (ids : List Text) → Maintains Spent (ack_messages to ids)
  unfolding ack_messages
  ack_messages-Spent to ids = record { at = λ t n d h. h }

module _ ⦃lib : Library⦄ where
  pub run-Spent :
      (device : Uuid) (key_id : ℤ) (s : Server) (cs : List Call)
      → Spent device key_id s.db
      → Spent device key_id (run s cs).db
  run-Spent device key_id s cs =
      run_induction (λ s. Spent device key_id s.db)
        (λ s c.
          serve-On (Spent-statements device key_id) c.moment c.headers c.route s
            λ to ids _. ack_messages-Spent device key_id to ids)
        s cs
