-- ===== src/Server/Lasting/Invites.antt =====
-- Used invites over histories of requests: repository/registration_invites.rs.
use rsmsg.Base.{◌==◌, nat_eq, text_eq, is_some, ℕ, refl, Bool, List, arith}
use rsmsg.Base.Text.{Text}
use rsmsg.Base.Int.{int_eq}
use rsmsg.Base.Settled.{Settled, Settled-update_where}
use rsmsg.Server.State.{Uuid, Invite, Database, Server}
use rsmsg.Server.Library.{Library}
use rsmsg.Server.Keeps.{Maintains}
use rsmsg.Server.Statements.{Statements}
use rsmsg.Server.Repository.Users.{create_user_tx}
use rsmsg.Server.Repository.Devices.{upsert_device}
use rsmsg.Server.Repository.Prekeys.{insert_one_time_prekey, consume_one_time_prekey}
use rsmsg.Server.Repository.Messages.{insert_message, mark_delivered, ack_messages}
use rsmsg.Server.Repository.AuthTokens.{create_token, revoke_token}
use rsmsg.Server.Repository.Blobs.{insert_blob, append_blob_chunk}
use rsmsg.Server.Repository.RegistrationInvites.{use_up, mark_used}
use rsmsg.Server.Repository.UserBlocks.{block_user, unblock_user}
use rsmsg.Server.Preserved.Requests.{serve-On}
use rsmsg.Server.History.{Call, run, run_induction}

module _ (id : Uuid) where
  abbrev pub is_invite : Invite → Bool
  is_invite i = i.id == id

  abbrev pub is_used : Invite → Bool
  is_used i = is_some i.used_at

  -- There is an invite of that id, and it is used.
  abbrev pub Used : Database → Type 0
  Used d = Settled is_invite is_used d.invites

  mark_used-Used : (other : Uuid) (user : ℕ) → Maintains Used (mark_used other user)
  unfolding mark_used
  mark_used-Used other user = record {
    at = λ t n d h.
        Settled-update_where is_invite is_used _ (use_up t.now user) (λ x. refl) (λ x e. refl)
          d.invites h;
  }

  Used-statements : Statements (Used)
  unfolding create_user_tx upsert_device insert_one_time_prekey consume_one_time_prekey
      insert_message mark_delivered create_token revoke_token insert_blob append_blob_chunk
      block_user unblock_user
  Used-statements = record {
    create_user_tx_keeps = λ user_id hash. record { at = λ t n d h. ground arith };
    upsert_device_keeps = λ user_id device_id i s k g. record { at = λ t n d h. ground arith };
    insert_one_time_prekey_keeps = λ device key_id pubkey. record { at = λ t n d h. ground arith };
    consume_one_time_prekey_keeps = λ device. record { at = λ t n d h. ground arith };
    insert_message_keeps = λ message_id from to envelope. record { at = λ t n d h. ground arith };
    mark_delivered_keeps = λ id. record { at = λ t n d h. ground arith };
    create_token_keeps = λ device hash. record { at = λ t n d h. ground arith };
    revoke_token_keeps = λ device hash. record { at = λ t n d h. ground arith };
    insert_blob_keeps = λ owner bytes. record { at = λ t n d h. ground arith };
    append_blob_chunk_keeps = λ owner blob_id chunk. record { at = λ t n d h. ground arith };
    mark_used_keeps = mark_used-Used;
    block_user_keeps = λ blocker blocked. record { at = λ t n d h. ground arith };
    unblock_user_keeps = λ blocker blocked. record { at = λ t n d h. ground arith };
  }

  ack_messages-Used : (to : Uuid) (ids : List Text) → Maintains Used (ack_messages to ids)
  unfolding ack_messages
  ack_messages-Used to ids = record { at = λ t n d h. h }

module _ ⦃lib : Library⦄ where
  pub run-Used : (id : Uuid) (s : Server) (cs : List Call) → Used id s.db → Used id (run s cs).db
  run-Used id s cs =
      run_induction (λ s. Used id s.db)
        (λ s c.
          serve-On (Used-statements id) c.moment c.headers c.route s
            λ to ids _. ack_messages-Used id to ids)
        s cs
