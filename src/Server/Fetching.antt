-- ===== src/Server/Fetching.antt =====
-- Fetching what is pending: domain/messaging.rs, services/messages.rs and repository/messages.rs.
use rsmsg.Base.{
  ◌==◌, nat_eq, text_eq, Bool-cases, unwrap_or, length, take, any, filter, ℕ, ◌≤◌, ◌≡◌, sym, ap,
  subst, ◌∙◌, inl, inr, Bool, true, false, not, ◌&&◌, some, List, map, arith,
}
use rsmsg.Base.Text.{Text}
use rsmsg.Base.Int.{ℤ, pos, clamp, int_eq}
use rsmsg.Base.Settled.{Among-filter, All-Among}
use rsmsg.Base.Unique.{
  any-Among, any-take_le, any-sort_by, any-map, length-map, length-take_le, take-all, any-filter,
}
use rsmsg.Server.State.{Uuid, Bytes, StoredMessage, Database, Server}
use rsmsg.Server.Monad.{Moment, done, pure}
use rsmsg.Server.Monad.Done.{transaction_done, guard_then, ok_or_then, query_then, bind_then}
use rsmsg.Server.Library.{Library}
use rsmsg.Server.History.{Call, run}
use rsmsg.Server.Repository.Messages.{
  is_pending, pending_row, pending, fetch_pending_locked, listed,
}
use rsmsg.Shared.Messaging.{FetchPendingRequest, PendingMessageItem, FetchPendingResponse}
use rsmsg.Server.Services.Messages.{pending_item, drain_pending_messages}
use rsmsg.Server.Domain.Messaging.{fetch_pending}
use rsmsg.Server.Lasting.Messages.{Acked, run-Acked, is_waiting, Waiting}

abbrev pub has_id : Text → StoredMessage → Bool
has_id message_id m = m.message_id == message_id

Acked-elsewhere :
    (message_id : Text) (to : Uuid) (t : Moment) (d : Database)
    → Acked message_id d
    → any (has_id message_id) (pending t to d.messages) ≡ false
unfolding pending
Acked-elsewhere message_id to t d h =
    any-sort_by _ (has_id message_id) _
    ∙ elim (Bool-cases (
        any (has_id message_id)
          (filter (λ m. is_pending to m && not (t.locked_message m.id)) d.messages))) [
            | inr e ↦ e
            | inl e ↦
                let (m, listed, hit) = any-Among (has_id message_id) _ e in
                let (stored, waits) =
                  Among-filter (λ m. is_pending to m && not (t.locked_message m.id)) d.messages m
                    listed in
                let acked = All-Among _ d.messages m h.1 stored hit in
                absurd (ground (arith, acked))
          ]

module _ ⦃lib : Library⦄ where
  abbrev pub item_of : Text → PendingMessageItem → Bool
  item_of message_id i = i.message_id == message_id

  -- What a batch of pending messages is made of.
  drain_done :
      (to : Uuid) (limit : ℕ) (t : Moment) (s : Server) (items : List PendingMessageItem)
      (s' : Server)
      → drain_pending_messages to limit t s ≡ done items s'
      → items ≡ map pending_item (map pending_row (take limit (pending t to s.db.messages)))
  unfolding drain_pending_messages fetch_pending_locked pure
  drain_done to limit t s items s' h =
      let (s1, body, _) = transaction_done _ t s items s' h in
      query_then _ _ body λ rows d q h1. bind_then _ _ h1 λ _ s2 _ h2. ground arith

  fetch_done :
      (auth : Uuid) (payload : FetchPendingRequest) (t : Moment) (s : Server)
      (r : FetchPendingResponse) (s' : Server)
      → fetch_pending auth payload t s ≡ done r s'
      → (lib.parse_uuid payload.device_uuid ≡ some auth)
        × (r.messages
            ≡ map pending_item (
                map pending_row (
                  take
                    (clamp 1 500 (unwrap_or payload.limit (pos 100)))
                    (pending t auth s.db.messages))))
  unfolding fetch_pending pure
  fetch_done auth payload t s r s' h = ok_or_then _ _ _ _ h λ to a h1.
      guard_then _ _ _ _ h1 λ same h2. bind_then _ _ h2 λ items s1 drained h3.
        let sender : to ≡ auth = ground arith in
        let got = drain_done to _ t s items s1 drained in
        (a ∙ ap some sender, ground (arith, got, sender))

  -- An acknowledged message is not delivered again: after any requests, no batch of pending messages
  -- that any device fetches has it.
  pub Acked-never_fetched :
      (message_id : Text) (s : Server) (cs : List Call) (auth : Uuid)
      (payload : FetchPendingRequest) (t : Moment) (r : FetchPendingResponse) (s' : Server)
      → Acked message_id s.db
      → fetch_pending auth payload t (run s cs) ≡ done r s'
      → any (item_of message_id) r.messages ≡ false
  unfolding pending_item
  Acked-never_fetched message_id s cs auth payload t r s' acked h =
      let (_, batch) = fetch_done auth payload t (run s cs) r s' h in
      let limit = clamp 1 500 (unwrap_or payload.limit (pos 100)) in
      let ms = pending t auth (run s cs).db.messages in
      subst (λ items. any (item_of message_id) items ≡ false) (sym batch)
        (any-map (item_of message_id) pending_item (map pending_row (take limit ms))
          ∙ any-map _ pending_row (take limit ms)
          ∙ any-take_le (has_id message_id) limit ms
              (Acked-elsewhere message_id auth t (run s cs).db (run-Acked message_id s cs acked)))

  clamp_le : (n : ℤ) → clamp 1 500 n ≤ 500
  unfolding clamp
  clamp_le n = ground arith

  -- A batch has 500 messages at most.
  pub fetch_bounded :
      (auth : Uuid) (payload : FetchPendingRequest) (t : Moment) (s : Server)
      (r : FetchPendingResponse) (s' : Server)
      → fetch_pending auth payload t s ≡ done r s'
      → length r.messages ≤ 500
  fetch_bounded auth payload t s r s' h =
      let (_, batch) = fetch_done auth payload t s r s' h in
      let limit = clamp 1 500 (unwrap_or payload.limit (pos 100)) in
      let rows = take limit (pending t auth s.db.messages) in
      let size : length r.messages ≡ length rows =
        ap length batch
        ∙ length-map pending_item (map pending_row rows)
        ∙ length-map pending_row rows in
      let small = length-take_le limit (pending t auth s.db.messages) in
      let least = clamp_le (unwrap_or payload.limit (pos 100)) in omega arith

  -- What a client reads of a message.
  abbrev pub sent_item : Text → Uuid → Bytes → PendingMessageItem → Bool
  sent_item message_id from envelope i =
      i.message_id == message_id
      && i.from_device_uuid == lib.show_uuid from
      && i.envelope_b64 == lib.encode envelope

  abbrev sent_row : Text → Uuid → Bytes → StoredMessage → Bool
  sent_row message_id from envelope m =
      m.message_id == message_id
      && lib.show_uuid m.from_device == lib.show_uuid from
      && lib.encode m.envelope_bytes == lib.encode envelope

  -- A message that is pending is delivered: where no more messages wait than the batch holds, no
  -- other transaction holds their rows, and the fetch is answered by success, the batch has the message
  -- with its sender and its envelope.
  pub Waiting-fetched :
      (message_id : Text) (from auth : Uuid) (envelope : Bytes) (payload : FetchPendingRequest)
      (t : Moment) (s : Server) (r : FetchPendingResponse) (s' : Server)
      → Waiting message_id from auth envelope s.db
      → ((id : Uuid) → t.locked_message id ≡ false)
      → length (pending t auth s.db.messages) ≤ clamp 1 500 (unwrap_or payload.limit (pos 100))
      → fetch_pending auth payload t s ≡ done r s'
      → any (sent_item message_id from envelope) r.messages ≡ true
  unfolding pending pending_item
  Waiting-fetched message_id from auth envelope payload t s r s' waits unlocked fits h =
      let (_, batch) = fetch_done auth payload t s r s' h in
      let limit = clamp 1 500 (unwrap_or payload.limit (pos 100)) in
      let ms = pending t auth s.db.messages in
      let (m, stored, waiting) =
        any-Among (is_waiting message_id from auth envelope) s.db.messages waits in
      let all : take limit ms ≡ ms = take-all limit ms fits in
      let free : not (t.locked_message m.id) ≡ true = ap not (unlocked m.id) in
      let same_sender : m.from_device ≡ from = ground arith in
      let same_envelope : m.envelope_bytes ≡ envelope = ground arith in
      subst (λ items. any (sent_item message_id from envelope) items ≡ true) (sym batch)
        (any-map (sent_item message_id from envelope) pending_item (map pending_row (take limit ms))
          ∙ any-map _ pending_row (take limit ms)
          ∙ ap (any (sent_row message_id from envelope)) all
          ∙ any-sort_by _ (sent_row message_id from envelope) _
          ∙ any-filter (sent_row message_id from envelope) _ s.db.messages m stored
              (ground (arith, free)) (ground (arith, same_sender, same_envelope)))
