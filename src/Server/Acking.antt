-- ===== src/Server/Acking.antt =====
-- Acknowledgements: domain/messaging.rs and repository/messages.rs.
use rsmsg.Base.{
  ◌==◌, nat_eq, text_eq, Bool-cases, is_empty, any, update_where, ◌≡◌, refl, sym, subst, inl, inr,
  true, List, [], ◌∷◌, arith,
}
use rsmsg.Base.Text.{Text}
use rsmsg.Base.Int.{int_eq}
use rsmsg.Base.Settled.{Among-any, Settled, Settled-marked}
use rsmsg.Base.Unique.{any-Among, Distinct-Implies}
use rsmsg.Server.State.{Uuid, Bytes, Server}
use rsmsg.Server.Monad.{Moment, done, pure, ◌>>=◌, query}
use rsmsg.Server.Monad.Done.{guard_then, ok_or_then, query_then}
use rsmsg.Server.Library.{Library}
use rsmsg.Server.WellFormed.{same_message, WellFormed}
use rsmsg.Server.Repository.Messages.{listed, is_ackable, ack, ack_messages}
use rsmsg.Server.Domain.Messaging.{ack_message}
use rsmsg.Server.Lasting.Messages.{is_message, is_acked, Acked, is_waiting, Waiting}
use rsmsg.Shared.Messaging.{AckMessageRequest, AckMessageResponse}

nothing_listed :
    (message_id : Text) (ids : List Text)
    → is_empty ids ≡ true
    → ¬ (any (λ i. i == message_id) ids ≡ true)
unfolding any
nothing_listed message_id [] e h = cc
nothing_listed message_id (i ∷ ids) e h = cc

module _ ⦃lib : Library⦄ where
  -- An acknowledgement that is answered by success acknowledges every message that waits for the device
  -- and that it lists, from well-formed tables.
  pub ack_message_done :
      (auth : Uuid) (payload : AckMessageRequest) (t : Moment) (s : Server) (r : AckMessageResponse)
      (s' : Server) (message_id : Text) (from : Uuid) (envelope : Bytes)
      → WellFormed s.db
      → Waiting message_id from auth envelope s.db
      → any (λ i. i == message_id) payload.message_ids ≡ true
      → ack_message auth payload t s ≡ done r s'
      → Acked message_id s'.db
  unfolding ack_message ack_messages pure
  ack_message_done auth payload t s r s' message_id from envelope w waits lists h =
      ok_or_then _ _ _ _ h λ device a h1. guard_then _ _ _ _ h1 λ same h2.
        elim (Bool-cases (is_empty payload.message_ids)) [
          | inl e ↦ absurd (nothing_listed message_id payload.message_ids e lists)
          | inr e ↦
              let rest : (query (ack_messages device payload.message_ids) >>= λ acked.
              pure (record { acked = acked }))
                    t s
                  ≡ done r s' =
                rw e at h2 in
              query_then _ _ rest λ acked d q h3.
                let (m, stored, waiting) =
                  any-Among (is_waiting message_id from auth envelope) s.db.messages waits in
                let mine : device ≡ auth = ground arith in
                let key : is_message message_id m ≡ true = ground arith in
                let id : m.message_id ≡ message_id = ground arith in
                let listed_too : listed payload.message_ids m ≡ true =
                  subst (λ x. any (λ i. i == x) payload.message_ids ≡ true) (sym id) lists in
                let left : s'.db.messages
                    ≡ update_where (is_ackable device payload.message_ids) (ack t.now)
                        s.db.messages =
                  ground arith in
                subst (Settled (is_message message_id) (is_acked message_id)) (sym left) (
                  Settled-marked (is_message message_id) (is_acked message_id)
                    (is_ackable device payload.message_ids) (ack t.now) (λ x. refl) (λ x. refl)
                    s.db.messages (Among-any (is_message message_id) s.db.messages m stored key)
                    (Distinct-Implies same_message (is_message message_id) _
                      (λ x y kx ky. ground arith) s.db.messages m w.messages stored key
                      (ground (arith, listed_too, mine))))
        ]
