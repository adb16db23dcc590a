-- ===== src/Server/Lasting/Messages.antt =====
-- Acknowledged and pending messages over histories of requests: repository/messages.rs.
use rsmsg.Base.{
  ◌==◌, nat_eq, text_eq, Bool-cases, is_some, any, update_where, All, ℕ, ◌≡◌, refl, subst, ◌∙◌, inl,
  inr, Bool, true, false, ◌&&◌, List, [], ◌∷◌, arith,
}
use rsmsg.Base.Text.{Text}
use rsmsg.Base.Int.{int_eq}
use rsmsg.Base.Rows.{any-update_where}
use rsmsg.Base.Settled.{Settled, Settled-update_where}
use rsmsg.Server.State.{Uuid, Bytes, StoredMessage, Database, Server}
use rsmsg.Server.Library.{Library}
use rsmsg.Server.Keeps.{Maintains}
use rsmsg.Server.Statements.{Statements}
use rsmsg.Server.Repository.Users.{create_user_tx}
use rsmsg.Server.Repository.Devices.{upsert_device}
use rsmsg.Server.Repository.Prekeys.{insert_one_time_prekey, consume_one_time_prekey}
use rsmsg.Server.Repository.Messages.{
  insert_message, is_pending, deliver, mark_delivered, is_ackable, ack, ack_messages,
}
use rsmsg.Server.Repository.AuthTokens.{create_token, revoke_token}
use rsmsg.Server.Repository.Blobs.{insert_blob, append_blob_chunk}
use rsmsg.Server.Repository.RegistrationInvites.{mark_used}
use rsmsg.Server.Repository.UserBlocks.{block_user, unblock_user}
use rsmsg.Server.Preserved.Requests.{serve-On}
use rsmsg.Server.History.{Call, step, run, run_induction}
use rsmsg.Server.Preserved.Requests.{Acks}

module _ (message_id : Text) where
  abbrev pub is_message : StoredMessage → Bool
  is_message m = m.message_id == message_id

  abbrev pub is_acked : StoredMessage → Bool
  is_acked m = is_some m.acked_at

  -- There is a message of that id, and it is acknowledged.
  abbrev pub Acked : Database → Type 0
  Acked d = Settled is_message is_acked d.messages

  insert_message-Acked :
      (id : Text) (from to : Uuid) (envelope : Bytes)
      → Maintains Acked (insert_message id from to envelope)
  unfolding insert_message any
  insert_message-Acked id from to envelope = record {
    at = λ t n d h. elim (text_eq.dec id message_id) [
      | no differs ↦ ground arith
      | yes same ↦ rw same (ground (arith, h.0))
    ];
  }

  mark_delivered-Acked : (id : Uuid) → Maintains Acked (mark_delivered id)
  unfolding mark_delivered
  mark_delivered-Acked id = record {
    at = λ t n d h.
        Settled-update_where is_message is_acked _ (deliver t.now) (λ x. refl) (λ x e. e) d.messages
          h;
  }

  ack_messages-Acked : (to : Uuid) (ids : List Text) → Maintains Acked (ack_messages to ids)
  unfolding ack_messages
  ack_messages-Acked to ids = record {
    at = λ t n d h.
        Settled-update_where is_message is_acked _ (ack t.now) (λ x. refl) (λ x e. refl) d.messages
          h;
  }

  Acked-statements : Statements (Acked)
  unfolding create_user_tx upsert_device insert_one_time_prekey consume_one_time_prekey create_token
      revoke_token insert_blob append_blob_chunk mark_used block_user unblock_user
  Acked-statements = record {
    create_user_tx_keeps = λ user_id hash. record { at = λ t n d h. ground arith };
    upsert_device_keeps = λ user_id device_id i s k g. record { at = λ t n d h. ground arith };
    insert_one_time_prekey_keeps = λ device key_id pubkey. record { at = λ t n d h. ground arith };
    consume_one_time_prekey_keeps = λ device. record { at = λ t n d h. ground arith };
    insert_message_keeps = insert_message-Acked;
    mark_delivered_keeps = mark_delivered-Acked;
    create_token_keeps = λ device hash. record { at = λ t n d h. ground arith };
    revoke_token_keeps = λ device hash. record { at = λ t n d h. ground arith };
    insert_blob_keeps = λ owner bytes. record { at = λ t n d h. ground arith };
    append_blob_chunk_keeps = λ owner blob_id chunk. record { at = λ t n d h. ground arith };
    mark_used_keeps = λ id user. record { at = λ t n d h. ground arith };
    block_user_keeps = λ blocker blocked. record { at = λ t n d h. ground arith };
    unblock_user_keeps = λ blocker blocked. record { at = λ t n d h. ground arith };
  }

module _ ⦃lib : Library⦄ where
  pub run-Acked :
      (message_id : Text) (s : Server) (cs : List Call)
      → Acked message_id s.db
      → Acked message_id (run s cs).db
  run-Acked message_id s cs =
      run_induction (λ s. Acked message_id s.db)
        (λ s c.
          serve-On (Acked-statements message_id) c.moment c.headers c.route s
            λ to ids _. ack_messages-Acked message_id to ids)
        s cs

-- What a client is sent of a message.
module _ (message_id : Text) (from to : Uuid) (envelope : Bytes) where
  abbrev pub is_waiting : StoredMessage → Bool
  is_waiting m =
      m.message_id == message_id
      && is_pending to m
      && m.from_device == from
      && m.envelope_bytes == envelope

  abbrev pub Waiting : Database → Type 0
  Waiting d = any is_waiting d.messages ≡ true

  insert_message-Waiting :
      (id : Text) (f g : Uuid) (e : Bytes) → Maintains Waiting (insert_message id f g e)
  unfolding insert_message any
  insert_message-Waiting id f g e = record { at = λ t n d h. ground arith }

  mark_delivered-Waiting : (id : Uuid) → Maintains Waiting (mark_delivered id)
  unfolding mark_delivered
  mark_delivered-Waiting id = record {
    at = λ t n d h. any-update_where _ (deliver t.now) is_waiting (λ m. refl) d.messages ∙ h;
  }

  waiting_unackable :
      (other : Uuid) (ids : List Text)
      → ¬ ((other ≡ to) × (any (λ i. i == message_id) ids ≡ true))
      → (m : StoredMessage) → is_waiting m ≡ true
      → is_ackable other ids m ≡ false
  waiting_unackable other ids differs m w = elim (Bool-cases (is_ackable other ids m)) [
    | inr e ↦ e
    | inl e ↦
        let same : m.message_id ≡ message_id = ground arith in
        let listed : any (λ i. i == m.message_id) ids ≡ true = ground arith in
        absurd (differs (ground arith, subst (λ x. any (λ i. i == x) ids ≡ true) same listed))
  ]

  ack-waiting :
      (other : Uuid) (ids : List Text)
      → ¬ ((other ≡ to) × (any (λ i. i == message_id) ids ≡ true))
      → (now : ℕ) (ms : List StoredMessage) → any is_waiting ms ≡ true
      → any is_waiting (update_where (is_ackable other ids) (ack now) ms) ≡ true
  unfolding any update_where
  ack-waiting other ids differs now [] h = h
  ack-waiting other ids differs now (m ∷ ms) h = elim (Bool-cases (is_waiting m)) [
    | inl waits ↦ rw (waiting_unackable other ids differs m waits) (ground (arith, waits))
    | inr passes ↦ ground (arith, passes, ack-waiting other ids differs now ms)
  ]

  -- An acknowledgement of another device, or of other messages.
  ack_messages-Waiting :
      (other : Uuid) (ids : List Text)
      → ¬ ((other ≡ to) × (any (λ i. i == message_id) ids ≡ true))
      → Maintains Waiting (ack_messages other ids)
  unfolding ack_messages
  ack_messages-Waiting other ids differs = record {
    at = λ t n d h. ack-waiting other ids differs t.now d.messages h;
  }

  Waiting-statements : Statements (Waiting)
  unfolding create_user_tx upsert_device insert_one_time_prekey consume_one_time_prekey create_token
      revoke_token insert_blob append_blob_chunk mark_used block_user unblock_user
  Waiting-statements = record {
    create_user_tx_keeps = λ user_id hash. record { at = λ t n d h. ground arith };
    upsert_device_keeps = λ user_id device_id i s k g. record { at = λ t n d h. ground arith };
    insert_one_time_prekey_keeps = λ device key_id pubkey. record { at = λ t n d h. ground arith };
    consume_one_time_prekey_keeps = λ device. record { at = λ t n d h. ground arith };
    insert_message_keeps = insert_message-Waiting;
    mark_delivered_keeps = mark_delivered-Waiting;
    create_token_keeps = λ device hash. record { at = λ t n d h. ground arith };
    revoke_token_keeps = λ device hash. record { at = λ t n d h. ground arith };
    insert_blob_keeps = λ owner bytes. record { at = λ t n d h. ground arith };
    append_blob_chunk_keeps = λ owner blob_id chunk. record { at = λ t n d h. ground arith };
    mark_used_keeps = λ id user. record { at = λ t n d h. ground arith };
    block_user_keeps = λ blocker blocked. record { at = λ t n d h. ground arith };
    unblock_user_keeps = λ blocker blocked. record { at = λ t n d h. ground arith };
  }

  abbrev pub DoesNotAck : ⦃lib : Library⦄ → Call → Type 0
  DoesNotAck c = (ids : List Text) → any (λ i. i == message_id) ids ≡ true → ¬ Acks c.route to ids

module _ ⦃lib : Library⦄ (message_id : Text) (from to : Uuid) (envelope : Bytes) where
  step-Waiting :
      (s : Server) (c : Call)
      → DoesNotAck message_id from to envelope c
      → Waiting message_id from to envelope s.db
      → Waiting message_id from to envelope (step s c).db
  step-Waiting s c quiet =
      serve-On (Waiting-statements message_id from to envelope) c.moment c.headers c.route s
        λ other ids acks.
          ack_messages-Waiting message_id from to envelope other ids
            λ both. quiet ids both.1 (subst (λ u. Acks c.route u ids) both.0 acks)

  pub run-Waiting :
      (s : Server) (cs : List Call)
      → All (DoesNotAck message_id from to envelope) cs
      → Waiting message_id from to envelope s.db
      → Waiting message_id from to envelope (run s cs).db
  unfolding run
  run-Waiting s [] quiet h = h
  run-Waiting s (c ∷ cs) quiet h = run-Waiting (step s c) cs quiet.1 (step-Waiting s c quiet.0 h)
