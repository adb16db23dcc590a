-- ===== src/Server/Lasting/Tokens.antt =====
-- Revoked tokens over histories of requests: repository/auth_tokens.rs.
use rsmsg.Base.{◌==◌, nat_eq, text_eq, is_some, any, refl, Bool, List, arith}
use rsmsg.Base.Text.{Text}
use rsmsg.Base.Int.{int_eq}
use rsmsg.Base.Settled.{Settled, Settled-update_where}
use rsmsg.Server.State.{Uuid, AuthToken, Database, Server}
use rsmsg.Server.Library.{Library}
use rsmsg.Server.Keeps.{Maintains}
use rsmsg.Server.Statements.{Statements}
use rsmsg.Server.Repository.Users.{create_user_tx}
use rsmsg.Server.Repository.Devices.{upsert_device}
use rsmsg.Server.Repository.Prekeys.{insert_one_time_prekey, consume_one_time_prekey}
use rsmsg.Server.Repository.Messages.{insert_message, mark_delivered, ack_messages}
use rsmsg.Server.Repository.AuthTokens.{create_token, revoke, revoke_token}
use rsmsg.Server.Repository.Blobs.{insert_blob, append_blob_chunk}
use rsmsg.Server.Repository.RegistrationInvites.{mark_used}
use rsmsg.Server.Repository.UserBlocks.{block_user, unblock_user}
use rsmsg.Server.Preserved.Requests.{serve-On}
use rsmsg.Server.History.{Call, run, run_induction}

module _ (token_hash : Text) where
  abbrev pub is_hash : AuthToken → Bool
  is_hash k = k.token_hash == token_hash

  abbrev pub is_revoked : AuthToken → Bool
  is_revoked k = is_some k.revoked_at

  -- There is a row of that hash, and it is revoked.
  abbrev pub Revoked : Database → Type 0
  Revoked d = Settled is_hash is_revoked d.tokens

  create_token-Revoked :
      (device : Uuid) (hash : Text) → Maintains Revoked (create_token device hash)
  unfolding create_token any
  create_token-Revoked device hash = record {
    at = λ t n d h. elim (text_eq.dec hash token_hash) [
      | no differs ↦ ground arith
      | yes same ↦ rw same (ground (arith, h.0))
    ];
  }

  revoke_token-Revoked :
      (device : Uuid) (hash : Text) → Maintains Revoked (revoke_token device hash)
  unfolding revoke_token
  revoke_token-Revoked device hash = record {
    at = λ t n d h.
        Settled-update_where is_hash is_revoked _ (revoke t.now) (λ x. refl) (λ x e. refl) d.tokens
          h;
  }

  Revoked-statements : Statements (Revoked)
  unfolding create_user_tx upsert_device insert_one_time_prekey consume_one_time_prekey
      insert_message mark_delivered insert_blob append_blob_chunk mark_used block_user unblock_user
  Revoked-statements = record {
    create_user_tx_keeps = λ user_id hash. record { at = λ t n d h. ground arith };
    upsert_device_keeps = λ user_id device_id i s k g. record { at = λ t n d h. ground arith };
    insert_one_time_prekey_keeps = λ device key_id pubkey. record { at = λ t n d h. ground arith };
    consume_one_time_prekey_keeps = λ device. record { at = λ t n d h. ground arith };
    insert_message_keeps = λ message_id from to envelope. record { at = λ t n d h. ground arith };
    mark_delivered_keeps = λ id. record { at = λ t n d h. ground arith };
    create_token_keeps = create_token-Revoked;
    revoke_token_keeps = revoke_token-Revoked;
    insert_blob_keeps = λ owner bytes. record { at = λ t n d h. ground arith };
    append_blob_chunk_keeps = λ owner blob_id chunk. record { at = λ t n d h. ground arith };
    mark_used_keeps = λ id user. record { at = λ t n d h. ground arith };
    block_user_keeps = λ blocker blocked. record { at = λ t n d h. ground arith };
    unblock_user_keeps = λ blocker blocked. record { at = λ t n d h. ground arith };
  }

  ack_messages-Revoked : (to : Uuid) (ids : List Text) → Maintains Revoked (ack_messages to ids)
  unfolding ack_messages
  ack_messages-Revoked to ids = record { at = λ t n d h. h }

module _ ⦃lib : Library⦄ where
  pub run-Revoked :
      (token_hash : Text) (s : Server) (cs : List Call)
      → Revoked token_hash s.db
      → Revoked token_hash (run s cs).db
  run-Revoked token_hash s cs =
      run_induction (λ s. Revoked token_hash s.db)
        (λ s c.
          serve-On (Revoked-statements token_hash) c.moment c.headers c.route s
            λ to ids _. ack_messages-Revoked token_hash to ids)
        s cs
