-- ===== src/Ui/Once.antt =====
-- crates/client-ui/src/app.rs: what arrives is shown once.
use rsmsg.Base.{
  ℕ, ◌+◌, ◌≤◌, Bool, Option, none, some, List, [], ◌∷◌, ◌≡◌, refl, subst, ◌∙◌, inl, inr, not, ◌||◌,
  ◌==◌, text_eq, is_empty, Option-cases, arith, if◌then◌else◌,
}
use rsmsg.Base.Text.{Text}
use rsmsg.Base.Utf8.{as_bytes}
use rsmsg.Base.Settled.{Among}
use rsmsg.Client.Types.{DecryptedMessage, EncryptedMessagePayload, contact, file, call}
use rsmsg.Client.Library.{Json}
use rsmsg.Ui.History.{has_id}
use rsmsg.Ui.State.{MessengerApp, save_history}
use rsmsg.Ui.Messages.{apply_outgoing_statuses}
use rsmsg.Ui.Incoming.{
  Shown, sender_name, chat_message, count_unread, ring, notified, shown, show_message,
  push_incoming,
}
use rsmsg.Ui.Sync.{
  SyncSuccess, apply_mappings, push_all, none_decrypted, read_if_logged_in, apply_sync_success,
}
use rsmsg.Ui.Copies.{
  copies, copies-unknown, copies-known, copies-push_message, copies-or_insert,
  copies-apply_statuses, copies-read, copies-mappings,
}

abbrev pub shown_copies : Text → MessengerApp → ℕ
shown_copies id app = copies id app.history.chats

-- The text of a message is a contact, which is not shown.
abbrev pub IsContact : Option EncryptedMessagePayload → Type 0
IsContact (some (contact v)) = Unit
IsContact other = ⊥

shown-some :
    (app : MessengerApp) (plaintext : Text) (payload : Option EncryptedMessagePayload)
    → ¬ IsContact payload
    → (content : Shown) × (shown app plaintext payload ≡ some content)
unfolding shown
shown-some app plaintext none h = (_, refl)
shown-some app plaintext (some (contact v)) h = absurd (h tt)
shown-some app plaintext (some (file f)) h = (_, refl)
shown-some app plaintext (some (call v call_id video)) h = (_, refl)

module _ (payloads : Json EncryptedMessagePayload) (now : ℕ) where
  show-copies :
      (id : Text) (msg : DecryptedMessage) (content : Shown) (app : MessengerApp)
      → shown_copies id (show_message now msg content app)
        ≡ shown_copies id app + (if msg.message_id == id then 1 else 0)
  unfolding show_message count_unread ring notified chat_message has_id
  show-copies id msg content app =
      let nick = sender_name app msg.from_device_uuid in
      let e = copies-push_message id nick (chat_message msg content) app.history.chats in
      ground (arith, e)

  -- Where the id of the message is another one, or known, the number stays; and a message that is
  -- no contact is shown.
  push-copies :
      (id : Text) (msg : DecryptedMessage) (app : MessengerApp)
      → shown_copies id app ≤ shown_copies id (push_incoming payloads now msg app)
        × (shown_copies id app ≤ 1 → shown_copies id (push_incoming payloads now msg app) ≤ 1)
  unfolding push_incoming
  push-copies id msg app =
      let parsed = payloads.from_slice (as_bytes msg.plaintext) in
      let fresh = copies-unknown msg.message_id app.history.chats in
      let kept = copies-or_insert id (sender_name app msg.from_device_uuid) app.history.chats in
      elim (Option-cases (shown app msg.plaintext parsed)) [
        | inl e ↦ (ground (arith, e, kept), ground (arith, e, kept))
        | inr (content, e) ↦
            let f = show-copies id msg content app in
            (ground (arith, e, f), λ h. ground (arith, e, f, fresh, h))
      ]

  push-shown :
      (msg : DecryptedMessage) (app : MessengerApp)
      → ¬ IsContact (payloads.from_slice (as_bytes msg.plaintext))
      → 1 ≤ shown_copies msg.message_id (push_incoming payloads now msg app)
  unfolding push_incoming
  push-shown msg app h =
      let parsed = payloads.from_slice (as_bytes msg.plaintext) in
      let known = copies-known msg.message_id app.history.chats in
      let (content, e) = shown-some app msg.plaintext parsed h in
      let f = show-copies msg.message_id msg content app in ground (arith, e, f, known)

  push_all-copies :
      (id : Text) (msgs : List DecryptedMessage) (app : MessengerApp)
      → shown_copies id app ≤ shown_copies id (push_all payloads now msgs app)
        × (shown_copies id app ≤ 1 → shown_copies id (push_all payloads now msgs app) ≤ 1)
  unfolding push_all
  push_all-copies id [] app = (omega arith, λ h. h)
  push_all-copies id (msg ∷ msgs) app =
      let first = push-copies id msg app in
      let rest = push_all-copies id msgs (push_incoming payloads now msg app) in
      ((let a = first.0 in let b = rest.0 in omega arith), λ h. rest.1 (first.1 h))

  push_all-shown :
      (msg : DecryptedMessage) (msgs : List DecryptedMessage) (app : MessengerApp)
      → Among msg msgs
      → ¬ IsContact (payloads.from_slice (as_bytes msg.plaintext))
      → 1 ≤ shown_copies msg.message_id (push_all payloads now msgs app)
  unfolding push_all
  push_all-shown msg [] app m h = absurd m
  push_all-shown msg (first ∷ msgs) app (inl e) h =
      let a = push-shown msg app h in
      let b = (push_all-copies msg.message_id msgs (push_incoming payloads now msg app)).0 in
      subst (λ f. 1 ≤ shown_copies msg.message_id (push_all payloads now (f ∷ msgs) app)) e
        (omega arith)
  push_all-shown msg (first ∷ msgs) app (inr m) h =
      push_all-shown msg msgs (push_incoming payloads now first app) m h

saved-copies :
    (id : Text) (b : Bool) (app : MessengerApp)
    → shown_copies id (if b then save_history app else app) ≡ shown_copies id app
unfolding save_history
saved-copies id b app = ground arith

none-copies :
    (id count : Text) (success : SyncSuccess) (app : MessengerApp)
    → shown_copies id (none_decrypted count success app) ≡ shown_copies id app
unfolding none_decrypted
none-copies id count success app = ground arith

-- Beyond the messages that it pushes, a synchronization leaves the numbers.
sync-copies :
    (payloads : Json EncryptedMessagePayload) (now : ℕ) (count : Text) (success : SyncSuccess)
    (id : Text) (app : MessengerApp)
    → shown_copies id (apply_sync_success payloads now count success app)
      ≡ shown_copies id
          (push_all payloads now success.decrypted (apply_mappings success.peer_mappings app).1)
unfolding apply_sync_success apply_outgoing_statuses
sync-copies payloads now count success id app =
    let mapped = apply_mappings success.peer_mappings app in
    let pushed = push_all payloads now success.decrypted mapped.1 in
    let counted = none_decrypted count success pushed in
    let statuses = apply_outgoing_statuses success.statuses counted in
    let marked = read_if_logged_in statuses.1 in
    saved-copies id (mapped.0 || not (is_empty success.decrypted) || statuses.0 || marked.0)
      marked.1
    ∙ copies-read id statuses.1
    ∙ copies-apply_statuses id success.statuses counted.history.chats
    ∙ none-copies id count success pushed

sync-at_most :
    (payloads : Json EncryptedMessagePayload) (now : ℕ) (count : Text) (success : SyncSuccess)
    (app : MessengerApp) (id : Text)
    → shown_copies id app ≤ 1
    → shown_copies id (apply_sync_success payloads now count success app) ≤ 1
sync-at_most payloads now count success app id unique =
    let mapped = (apply_mappings success.peer_mappings app).1 in
    let a = sync-copies payloads now count success id app in
    let b = copies-mappings id success.peer_mappings app in
    let c = (push_all-copies payloads now id success.decrypted mapped).1 (omega arith) in
    omega arith

-- What arrives is shown once: after a synchronization, a message that it decrypted, and that is no
-- contact, stands exactly once in the chats, also when it was delivered before or several times, and
-- no other id stands there twice, if the chats had no id twice before.
pub shown_once :
    (payloads : Json EncryptedMessagePayload) (now : ℕ) (count : Text) (success : SyncSuccess)
    (app : MessengerApp) (msg : DecryptedMessage)
    → ((id : Text) → shown_copies id app ≤ 1)
    → Among msg success.decrypted
    → ¬ IsContact (payloads.from_slice (as_bytes msg.plaintext))
    → (shown_copies msg.message_id (apply_sync_success payloads now count success app) ≡ 1)
      × ((id : Text) → shown_copies id (apply_sync_success payloads now count success app) ≤ 1)
shown_once payloads now count success app msg unique m h =
    let mapped = (apply_mappings success.peer_mappings app).1 in
    let a = sync-copies payloads now count success msg.message_id app in
    let b = push_all-shown payloads now msg success.decrypted mapped m h in
    let c = sync-at_most payloads now count success app msg.message_id (unique msg.message_id) in
    (omega arith, λ id. sync-at_most payloads now count success app id (unique id))
