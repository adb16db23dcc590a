-- ===== src/Server/WellFormed/Messages.antt =====
-- The constraints of the tables and the statements on messages.
use rsmsg.Base.{◌==◌, nat_eq, text_eq, update_where, All, ℕ, refl, Bool, List, arith}
use rsmsg.Base.Text.{Text}
use rsmsg.Base.Int.{int_eq}
use rsmsg.Base.Rows.{All-update_where, Distinct, Distinct-update_where}
use rsmsg.Server.State.{Uuid, Bytes, StoredMessage, Database}
use rsmsg.Server.Keeps.{Maintains}
use rsmsg.Server.Repository.Messages.{
  insert_message, deliver, mark_delivered, is_ackable, ack, ack_messages,
}
use rsmsg.Server.WellFormed.{same_message, same_row, KnowsMessage, WellFormed}

pub insert_message-WellFormed :
    (message_id : Text) (from to : Uuid) (envelope : Bytes)
    → Maintains WellFormed (insert_message message_id from to envelope)
unfolding insert_message
insert_message-WellFormed message_id from to envelope = record { at = λ t n d h. ground arith }

deliver-Distinct :
    (p : StoredMessage → Bool) (now : ℕ) (ms : List StoredMessage)
    → Distinct same_message ms
    → Distinct same_message (update_where p (deliver now) ms)
deliver-Distinct p now = Distinct-update_where same_message p _ (λ x y. refl) (λ x y. refl)

deliver-Distinct_rows :
    (p : StoredMessage → Bool) (now : ℕ) (ms : List StoredMessage)
    → Distinct same_row ms
    → Distinct same_row (update_where p (deliver now) ms)
deliver-Distinct_rows p now = Distinct-update_where same_row p _ (λ x y. refl) (λ x y. refl)

-- Marks on messages leave their devices alone.
KnowsMessage-update_where :
    (d : Database) (p : StoredMessage → Bool) (f : StoredMessage → StoredMessage)
    → ((m : StoredMessage) → KnowsMessage d m → KnowsMessage d (f m))
    → (ms : List StoredMessage) → All (KnowsMessage d) ms
    → All (KnowsMessage d) (update_where p f ms)
KnowsMessage-update_where d p f e = All-update_where p f (KnowsMessage d) e

pub mark_delivered-WellFormed : (id : Uuid) → Maintains WellFormed (mark_delivered id)
unfolding mark_delivered
mark_delivered-WellFormed id = record {
  at = λ t n d h.
      let test : StoredMessage → Bool = λ m. m.id == id in
      let kept = KnowsMessage-update_where d test (deliver t.now) (λ m k. k) d.messages h.known in
      ground (
        arith,
        kept,
        deliver-Distinct test t.now d.messages h.messages,
        deliver-Distinct_rows test t.now d.messages h.rows,
      );
}

ack-Distinct :
    (p : StoredMessage → Bool) (now : ℕ) (ms : List StoredMessage)
    → Distinct same_message ms
    → Distinct same_message (update_where p (ack now) ms)
ack-Distinct p now = Distinct-update_where same_message p _ (λ x y. refl) (λ x y. refl)

ack-Distinct_rows :
    (p : StoredMessage → Bool) (now : ℕ) (ms : List StoredMessage)
    → Distinct same_row ms
    → Distinct same_row (update_where p (ack now) ms)
ack-Distinct_rows p now = Distinct-update_where same_row p _ (λ x y. refl) (λ x y. refl)

pub ack_messages-WellFormed :
    (to : Uuid) (ids : List Text) → Maintains WellFormed (ack_messages to ids)
unfolding ack_messages
ack_messages-WellFormed to ids = record {
  at = λ t n d h.
      let kept =
        KnowsMessage-update_where d (is_ackable to ids) (ack t.now) (λ m k. k) d.messages h.known in
      ground (
        arith,
        kept,
        ack-Distinct (is_ackable to ids) t.now d.messages h.messages,
        ack-Distinct_rows (is_ackable to ids) t.now d.messages h.rows,
      );
}
