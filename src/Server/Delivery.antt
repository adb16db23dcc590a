-- ===== src/Server/Delivery.antt =====
-- Sending messages: domain/messaging.rs.
use rsmsg.Base.{
  ◌==◌, nat_eq, text_eq, Option-cases, any, All, ℕ, ◌≡◌, ap, subst, ◌∙◌, inl, inr, true, false,
  none, some, List, ◌∷◌, arith,
}
use rsmsg.Base.Text.{Text}
use rsmsg.Base.Int.{int_eq}
use rsmsg.Server.State.{Uuid, Bytes, StoredMessage, Database, Server}
use rsmsg.Server.Monad.{Moment, done, pure, ◌>>=◌, query}
use rsmsg.Server.Monad.Done.{guard_then, ok_or_then, query_then, bind_then}
use rsmsg.Server.Library.{Library}
use rsmsg.Server.History.{Call, run}
use rsmsg.Server.Lasting.Messages.{Waiting, DoesNotAck, run-Waiting}
use rsmsg.Server.Repository.Messages.{insert_message}
use rsmsg.Server.Repository.Devices.{device_exists, owner_of, find_user_id_by_device_uuid}
use rsmsg.Server.Repository.UserBlocks.{has_block, block_direction}
use rsmsg.Server.Domain.Blocking.{refuse_blocked}
use rsmsg.Shared.Messaging.{SendMessageRequest, SendMessageResponse}
use rsmsg.Server.Domain.Messaging.{check_blocks, send_message}

-- The row that a new message gets.
abbrev pub message_row : Uuid → ℕ → Text → Uuid → Uuid → Bytes → StoredMessage
message_row id now message_id from to envelope = record {
  id = id;
  message_id = message_id;
  from_device = from;
  to_device = to;
  envelope_bytes = envelope;
  created_at = now;
  delivered_at = none;
  acked_at = none;
}

-- The block rules let a message of one device to another pass.
pub record MayWrite (from to : Uuid) (d : Database) : Type 0 where
  pub from_user : Text
  pub to_user : Text
  pub sender : owner_of from d ≡ some from_user
  pub recipient : owner_of to d ≡ some to_user
  pub refused : has_block to_user from_user d ≡ false
  pub refuses : has_block from_user to_user d ≡ false

module _ ⦃lib : Library⦄ where
  pub check_blocks_done :
      (from to : Uuid) (t : Moment) (s : Server) (s' : Server)
      → check_blocks from to t s ≡ done tt s'
      → MayWrite from to s.db × (s'.db ≡ s.db)
  unfolding check_blocks ◌>>=◌ query find_user_id_by_device_uuid block_direction refuse_blocked
  check_blocks_done from to t s s' h = elim (Option-cases (owner_of from s.db)) [
    | inl a ↦ absurd (ground (arith, a))
    | inr (from_user, a) ↦ elim (Option-cases (owner_of to s.db)) [
      | inl b ↦ absurd (ground (arith, a, b))
      | inr (to_user, b) ↦ (
        record {
          from_user = from_user;
          to_user = to_user;
          sender = a;
          recipient = b;
          refused = ground (arith, a, b);
          refuses = ground (arith, a, b);
        },
        ground (arith, a, b),
      )
    ]
  ]

  inserted_row :
      (message_id : Text) (from to : Uuid) (envelope : Bytes) (t : Moment) (n : ℕ) (d d' : Database)
      → insert_message message_id from to envelope t n d ≡ some (1, d')
      → (any (λ m. m.message_id == message_id) d.messages ≡ false)
        × (d' ≡ record d {
          messages = message_row (t.fresh n) t.now message_id from to envelope ∷ d.messages;
        })
  unfolding insert_message
  inserted_row message_id from to envelope t n d d' h = (ground arith, ground arith)

  -- A message that is accepted comes from the authorized device, with an envelope that is base64, and
  -- goes to a device that exists, of a user such that neither blocks the other. Its id was unused. The
  -- one change of the tables is a new row for it, that nobody received yet.
  pub send_accepted :
      (auth : Uuid) (payload : SendMessageRequest) (t : Moment) (s : Server)
      (r : SendMessageResponse) (s' : Server)
      → send_message auth payload t s ≡ done r s'
      → r.accepted ≡ true
      → (to : Uuid) × (envelope : Bytes) × (id : Uuid) × (lib.parse_uuid payload.from_device_uuid
          ≡ some auth)
        × (lib.parse_uuid payload.to_device_uuid ≡ some to)
        × (lib.decode payload.envelope_b64 ≡ some envelope)
        × MayWrite auth to s.db
        × (any (λ m. m.message_id == payload.message_id) s.db.messages ≡ false)
        × (s'.db ≡ record s.db {
          messages = message_row id t.now payload.message_id auth to envelope ∷ s.db.messages;
        })
  unfolding send_message device_exists pure
  send_accepted auth payload t s r s' h accepted = ok_or_then _ _ _ _ h λ from a h1.
      ok_or_then _ _ _ _ h1 λ to b h2. ok_or_then _ _ _ _ h2 λ envelope c h3.
        guard_then _ _ _ _ h3 λ same h4. query_then _ _ h4 λ exists d q h5.
          guard_then _ _ _ _ h5 λ known h6. bind_then _ _ h6 λ _ s1 rules h7.
            query_then _ _ h7 λ rows d1 q1 h8.
              let sender : from ≡ auth = ground arith in
              let before : d ≡ s.db = ground arith in
              let (allowed, kept) = check_blocks_done from to t _ s1 rules in
              let one : rows ≡ 1 = ground arith in
              let left : s'.db ≡ d1 = ground arith in
              let (unused, row) =
                inserted_row payload.message_id from to envelope t s1.calls s1.db d1 (
                  subst
                    (λ n.
                      insert_message payload.message_id from to envelope t s1.calls s1.db
                      ≡ some (n, d1))
                    one q1) in
              let same_tables : s1.db ≡ s.db = kept ∙ before in
              (
                to,
                envelope,
                t.fresh s1.calls,
                a ∙ ap some sender,
                b,
                c,
                subst (λ u. MayWrite u to s.db) sender (subst (MayWrite from to) before allowed),
                subst (λ d. any (λ m. m.message_id == payload.message_id) d.messages ≡ false)
                    same_tables unused,
                ground (arith, row, sender, same_tables, left),
              )

  -- An accepted message is pending for its recipient until the recipient acknowledges it: whatever
  -- requests follow, in whatever order and with whatever failures, as long as none of them is an
  -- acknowledgement of that message by that device.
  pub accepted_waits :
      (auth : Uuid) (payload : SendMessageRequest) (t : Moment) (s : Server)
      (r : SendMessageResponse) (s' : Server) (to : Uuid) (envelope : Bytes) (cs : List Call)
      → send_message auth payload t s ≡ done r s'
      → r.accepted ≡ true
      → lib.parse_uuid payload.to_device_uuid ≡ some to
      → lib.decode payload.envelope_b64 ≡ some envelope
      → All (DoesNotAck payload.message_id auth to envelope) cs
      → Waiting payload.message_id auth to envelope (run s' cs).db
  unfolding any
  accepted_waits auth payload t s r s' to envelope cs h accepted a b quiet =
      let (to', envelope', id, _, a', b', _, _, tables) =
        send_accepted auth payload t s r s' h accepted in
      let same_to : to' ≡ to = ground arith in
      let same_envelope : envelope' ≡ envelope = ground arith in
      run-Waiting payload.message_id auth to envelope s' cs quiet
        (ground (arith, tables, same_to, same_envelope))
