-- ===== src/Ui/Copies.antt =====
-- crates/client-ui/src/app.rs: how often a message stands in the chats, and what leaves the number.
use rsmsg.Base.{
  ℕ, ◌+◌, ◌≤◌, true, false, some, List, [], ◌∷◌, ◌++◌, ◌≡◌, refl, ◌∙◌, inl, inr, text_eq, any, map,
  count, Option-cases, arith, if◌then◌else◌, unwrap_or,
}
use rsmsg.Base.Text.{Text}
use rsmsg.Base.Dict.{get, insert, contains_key}
use rsmsg.Client.Types.{DeviceAuth, OutgoingMessageStatus}
use rsmsg.Ui.History.{ChatMessage, Chats, has_id, each_message, or_insert, push_message, knows_id}
use rsmsg.Ui.State.{MessengerApp}
use rsmsg.Ui.Identity.{pin, verify_or_pin_peer_identity}
use rsmsg.Ui.Messages.{
  read_incoming, mark_selected_chat_read, clear_unread, apply_status, apply_statuses,
}
use rsmsg.Ui.Sync.{PeerMapping, map_peer, apply_mapping, apply_mappings, read_if_logged_in}

-- The number of messages with the id in all chats.
unfoldable pub copies : Text → Chats → ℕ
copies id [] = 0
copies id ((peer, messages) ∷ chats) = count (has_id id) messages + copies id chats

module _ (id : Text) where
  count-append :
      (xs ys : List ChatMessage)
      → count (has_id id) (xs ++ ys) ≡ count (has_id id) xs + count (has_id id) ys
  unfolding count
  count-append [] ys = ground arith
  count-append (x ∷ xs) ys = ground (arith, count-append xs ys)

  count-map :
      (f : ChatMessage → ChatMessage)
      → ((m : ChatMessage) → has_id id (f m) ≡ has_id id m)
      → (xs : List ChatMessage) → count (has_id id) (map f xs) ≡ count (has_id id) xs
  unfolding count
  count-map f e [] = refl
  count-map f e (x ∷ xs) = ground (arith, e x, count-map f e xs)

  count_none : (xs : List ChatMessage) → any (has_id id) xs ≡ false → count (has_id id) xs ≡ 0
  unfolding any count
  count_none [] e = refl
  count_none (x ∷ xs) e = ground (arith, count_none xs)

  count_some : (xs : List ChatMessage) → any (has_id id) xs ≡ true → 1 ≤ count (has_id id) xs
  unfolding any count
  count_some [] e = cc
  count_some (x ∷ xs) e = ground (arith, count_some xs)

  pub copies-unknown : (chats : Chats) → knows_id id chats ≡ false → copies id chats ≡ 0
  unfolding knows_id any copies
  copies-unknown [] e = refl
  copies-unknown ((peer, messages) ∷ chats) e =
      ground (arith, count_none messages, copies-unknown chats)

  pub copies-known : (chats : Chats) → knows_id id chats ≡ true → 1 ≤ copies id chats
  unfolding knows_id any copies
  copies-known [] e = cc
  copies-known ((peer, messages) ∷ chats) e =
      ground (arith, count_some messages, copies-known chats)

  copies-insert :
      (chat : Text) (messages : List ChatMessage) (chats : Chats)
      → copies id (insert chat messages chats) + count (has_id id) (unwrap_or (get chat chats) [])
        ≡ copies id chats + count (has_id id) messages
  unfolding insert get copies count
  copies-insert chat messages [] = ground arith
  copies-insert chat messages ((peer, old) ∷ chats) =
      ground (arith, copies-insert chat messages chats)

  pub copies-push_message :
      (chat : Text) (message : ChatMessage) (chats : Chats)
      → copies id (push_message chat message chats)
        ≡ copies id chats + (if has_id id message then 1 else 0)
  unfolding push_message count
  copies-push_message chat message chats =
      let old = unwrap_or (get chat chats) [] in
      let e = copies-insert chat (old ++ (message ∷ [])) chats in
      let f = count-append old (message ∷ []) in ground (arith, e, f)

  pub copies-or_insert :
      (chat : Text) (chats : Chats) → copies id (or_insert chat [] chats) ≡ copies id chats
  unfolding or_insert contains_key count
  copies-or_insert chat chats =
      let e = copies-insert chat [] chats in
      elim (Option-cases (get chat chats)) [
        | inl h ↦ ground (arith, e, h)
        | inr (messages, h) ↦ ground (arith, h)
      ]

  copies-replaced :
      (chat : Text) (f : ChatMessage → ChatMessage) (old : List ChatMessage) (chats : Chats)
      → ((m : ChatMessage) → has_id id (f m) ≡ has_id id m)
      → get chat chats ≡ some old
      → copies id (insert chat (map f old) chats) ≡ copies id chats
  copies-replaced chat f old chats e h =
      let a = copies-insert chat (map f old) chats in
      let b = count-map f e old in ground (arith, a, b, h)

  copies-each :
      (f : ChatMessage → ChatMessage)
      → ((m : ChatMessage) → has_id id (f m) ≡ has_id id m)
      → (chats : Chats) → copies id (each_message f chats) ≡ copies id chats
  unfolding each_message copies
  copies-each f e [] = refl
  copies-each f e ((peer, messages) ∷ chats) =
      ground (arith, count-map f e messages, copies-each f e chats)

  pub copies-apply_statuses :
      (statuses : List OutgoingMessageStatus) (chats : Chats)
      → copies id (apply_statuses statuses chats).1 ≡ copies id chats
  unfolding apply_statuses apply_status has_id
  copies-apply_statuses [] chats = refl
  copies-apply_statuses (status ∷ statuses) chats =
      copies-apply_statuses statuses (each_message (apply_status status) chats)
      ∙ copies-each (apply_status status) (λ m. ground arith) chats

  read_incoming-has_id : (m : ChatMessage) → has_id id (read_incoming m) ≡ has_id id m
  unfolding has_id
  read_incoming-has_id m = ground arith

  copies-mark :
      (auth : DeviceAuth) (app : MessengerApp)
      → copies id (mark_selected_chat_read auth app).1.history.chats ≡ copies id app.history.chats
  unfolding mark_selected_chat_read clear_unread
  copies-mark auth app = elim (Option-cases (get app.selected_chat app.history.chats)) [
    | inl e ↦ ground (arith, e)
    | inr (messages, e) ↦
        let kept =
          copies-replaced app.selected_chat read_incoming messages app.history.chats
            read_incoming-has_id e in
        ground (arith, e, kept)
  ]

  pub copies-read :
      (app : MessengerApp)
      → copies id (read_if_logged_in app).1.history.chats ≡ copies id app.history.chats
  unfolding read_if_logged_in
  copies-read app = elim (Option-cases app.auth) [
    | inl e ↦ ground (arith, e)
    | inr (auth, e) ↦ ground (arith, e, copies-mark auth app)
  ]

  copies-mapping :
      (mapping : PeerMapping) (app : MessengerApp)
      → copies id (apply_mapping mapping app).1.history.chats ≡ copies id app.history.chats
  unfolding apply_mapping map_peer verify_or_pin_peer_identity pin
  copies-mapping mapping app = ground (arith, copies-or_insert mapping.peer app.history.chats)

  pub copies-mappings :
      (mappings : List PeerMapping) (app : MessengerApp)
      → copies id (apply_mappings mappings app).1.history.chats ≡ copies id app.history.chats
  unfolding apply_mappings
  copies-mappings [] app = refl
  copies-mappings (mapping ∷ mappings) app =
      copies-mappings mappings (apply_mapping mapping app).1 ∙ copies-mapping mapping app
