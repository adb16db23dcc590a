-- ===== src/Server/Receipts.antt =====
-- What a fetch marks as delivered: services/messages.rs.
use rsmsg.Base.{
  ◌==◌, nat_eq, text_eq, is_some, unwrap_or, take, any, filter, update_where, All, ℕ, zero, suc,
  ◌≡◌, refl, sym, ap, subst, ◌∙◌, inl, inr, Bool, true, not, ◌&&◌, some, List, [], ◌∷◌, map, arith,
}
use rsmsg.Base.Int.{pos, clamp, int_eq}
use rsmsg.Base.Rows.{All-of, All-mono, any-update_where}
use rsmsg.Base.Settled.{
  Among, Among-filter, Among-any, Settled, Settled-update_where, Settled-marked,
}
use rsmsg.Base.Unique.{any-Among, any-sort_by}
use rsmsg.Server.State.{Uuid, StoredMessage, Database, Server}
use rsmsg.Server.Monad.{Moment, done, pure}
use rsmsg.Server.Monad.Done.{transaction_done, guard_then, ok_or_then, query_then, bind_then}
use rsmsg.Server.Library.{Library}
use rsmsg.Server.Repository.Messages.{
  is_pending, PendingRow, pending_row, pending, fetch_pending_locked, deliver, mark_delivered,
}
use rsmsg.Server.Services.Messages.{mark_all_delivered, pending_item, drain_pending_messages}
use rsmsg.Server.Domain.Messaging.{fetch_pending}
use rsmsg.Shared.Messaging.{FetchPendingRequest, FetchPendingResponse}

abbrev pub is_row : Uuid → StoredMessage → Bool
is_row id m = m.id == id

abbrev pub is_delivered : StoredMessage → Bool
is_delivered m = is_some m.delivered_at

-- There is a row of that id, and it is marked as delivered.
abbrev pub Delivered : Database → Uuid → Type 0
Delivered d id = Settled (is_row id) is_delivered d.messages

mark_delivered-Delivered :
    (id other : Uuid) (t : Moment) (n : ℕ) (d d' : Database)
    → mark_delivered other t n d ≡ some (tt, d')
    → Delivered d id
    → Delivered d' id
unfolding mark_delivered
mark_delivered-Delivered id other t n d d' e h =
    let left : d'.messages ≡ update_where (λ m. m.id == other) (deliver t.now) d.messages =
      ground arith in
    subst (Settled (is_row id) is_delivered) (sym left) (
      Settled-update_where (is_row id) is_delivered _ (deliver t.now) (λ x. refl) (λ x k. refl)
        d.messages h)

-- The row itself is marked.
mark_delivered_done :
    (id : Uuid) (t : Moment) (n : ℕ) (d d' : Database)
    → mark_delivered id t n d ≡ some (tt, d')
    → any (is_row id) d.messages ≡ true
    → Delivered d' id
unfolding mark_delivered
mark_delivered_done id t n d d' e h =
    let left : d'.messages ≡ update_where (λ m. m.id == id) (deliver t.now) d.messages =
      ground arith in
    subst (Settled (is_row id) is_delivered) (sym left) (
      Settled-marked (is_row id) is_delivered (is_row id) (deliver t.now) (λ x. refl) (λ x. refl)
        d.messages h (All-of _ (λ x k. ground arith) d.messages))

-- A row stays where another is marked.
mark_delivered-row :
    (id other : Uuid) (t : Moment) (n : ℕ) (d d' : Database)
    → mark_delivered other t n d ≡ some (tt, d')
    → any (is_row id) d.messages ≡ true
    → any (is_row id) d'.messages ≡ true
unfolding mark_delivered
mark_delivered-row id other t n d d' e h =
    let left : d'.messages ≡ update_where (λ m. m.id == other) (deliver t.now) d.messages =
      ground arith in
    ap (any (is_row id)) left
    ∙ any-update_where (λ m. m.id == other) (deliver t.now) (is_row id) (λ x. refl) d.messages
    ∙ h

-- The loop keeps what is marked.
loop_keeps :
    (rows : List PendingRow) (id : Uuid) (t : Moment) (s s' : Server)
    → mark_all_delivered rows t s ≡ done tt s'
    → Delivered s.db id
    → Delivered s'.db id
unfolding mark_all_delivered pure
loop_keeps [] id t s s' e h =
    let same : s.db ≡ s'.db = ground arith in subst (λ d. Delivered d id) same h
loop_keeps (row ∷ rows) id t s s' e h = query_then _ _ e λ _ d q rest.
    loop_keeps rows id t _ s' rest (mark_delivered-Delivered id row.0 t s.calls s.db d q h)

-- The loop marks every row that it goes through.
loop_marks :
    (rows : List PendingRow) (t : Moment) (s s' : Server)
    → mark_all_delivered rows t s ≡ done tt s'
    → All (λ row. any (is_row row.0) s.db.messages ≡ true) rows
    → All (λ row. Delivered s'.db row.0) rows
unfolding mark_all_delivered pure
loop_marks [] t s s' e h = tt
loop_marks (row ∷ rows) t s s' e h = query_then _ _ e λ _ d q rest. (
  loop_keeps rows row.0 t _ s' rest (mark_delivered_done row.0 t s.calls s.db d q h.0),
  loop_marks rows t _ s' rest
      (All-mono _ _ (λ other. mark_delivered-row other.0 row.0 t s.calls s.db d q) rows h.1),
)

All-rows :
    (ms xs : List StoredMessage)
    → ((m : StoredMessage) → Among m xs → any (is_row m.id) ms ≡ true)
    → All (λ row. any (is_row row.0) ms ≡ true) (map pending_row xs)
All-rows ms [] f = tt
All-rows ms (x ∷ xs) f = (f x (inl refl), All-rows ms xs (λ m h. f m (inr h)))

Among-take : {A : Type 0} (n : ℕ) (xs : List A) (a : A) → Among a (take n xs) → Among a xs
Among-take zero xs a m = absurd m
Among-take (suc n) [] a m = m
Among-take (suc n) (x ∷ xs) a (inl e) = inl e
Among-take (suc n) (x ∷ xs) a (inr m) = inr (Among-take n xs a m)

-- The messages that a fetch gives out.
abbrev pub batch : Uuid → FetchPendingRequest → Moment → Database → List StoredMessage
batch auth payload t d =
    take (clamp 1 500 (unwrap_or payload.limit (pos 100))) (pending t auth d.messages)

-- What is pending is in the table.
pending_row_stored :
    (t : Moment) (to : Uuid) (limit : ℕ) (ms : List StoredMessage) (m : StoredMessage)
    → Among m (take limit (pending t to ms))
    → any (is_row m.id) ms ≡ true
unfolding pending
pending_row_stored t to limit ms m h =
    let here : is_row m.id m ≡ true = ground arith in
    let listed = Among-any (is_row m.id) (pending t to ms) m (Among-take limit _ m h) here in
    let found : any (is_row m.id) (filter (λ m. is_pending to m && not (t.locked_message m.id)) ms)
        ≡ true =
      sym (any-sort_by _ (is_row m.id) _) ∙ listed in
    let (other, kept, same) = any-Among (is_row m.id) _ found in
    let (stored, _) =
      Among-filter (λ m. is_pending to m && not (t.locked_message m.id)) ms other kept in
    Among-any (is_row m.id) ms other stored same

module _ ⦃lib : Library⦄ where
  -- What a device fetches is marked as delivered: after a fetch that is answered by success, the row of
  -- every message of the batch is there, with the time of a delivery.
  pub fetched-Delivered :
      (auth : Uuid) (payload : FetchPendingRequest) (t : Moment) (s : Server)
      (r : FetchPendingResponse) (s' : Server)
      → fetch_pending auth payload t s ≡ done r s'
      → (rows : List PendingRow) × (rows ≡ map pending_row (batch auth payload t s.db))
        × (r.messages ≡ map pending_item rows)
        × All (λ row. Delivered s'.db row.0) rows
  unfolding fetch_pending drain_pending_messages fetch_pending_locked pure
  fetched-Delivered auth payload t s r s' h = ok_or_then _ _ _ _ h λ to a h1.
      guard_then _ _ _ _ h1 λ same h2. bind_then _ _ h2 λ items s1 drained h3.
        let (s2, body, left) = transaction_done _ t s items s1 drained in
        query_then _ _ body λ rows d q h4. bind_then _ _ h4 λ _ s3 loop h5.
          let sender : to ≡ auth = ground arith in
          let from_table : rows ≡ map pending_row (batch auth payload t s.db) =
            ground (arith, sender) in
          let same_tables : d ≡ s.db = ground arith in
          let final : s'.db ≡ s3.db = ground (arith, left) in
          (
            rows,
            from_table,
            ground arith,
            subst (λ d. All (λ row. Delivered d row.0) rows) (sym final)
                (loop_marks rows t _ s3 loop (
                  subst (λ rows. All (λ row. any (is_row row.0) d.messages ≡ true) rows)
                    (sym from_table)
                    (subst
                      (λ e.
                        All (λ row. any (is_row row.0) e.messages ≡ true)
                          (map pending_row (batch auth payload t s.db)))
                      (sym same_tables)
                      (All-rows s.db.messages _ (pending_row_stored t auth _ s.db.messages))))),
          )
