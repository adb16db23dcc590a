-- ===== src/Tests/Chats.antt =====
-- What the application does with its chats, at concrete inputs.
use rsmsg.Base.{
  ℕ, zero, suc, ◌≤◌, true, false, none, some, [], ◌∷◌, ◌≡◌, ◌⊎◌, refl, inl, inr, ◌==◌, text_eq, leb,
  if◌then◌else◌, arith, count, any,
}
use rsmsg.Base.Text.{Text, codes}
use rsmsg.Base.Int.{pos}
use rsmsg.Base.Dict.{get, insert, contains_key}
use rsmsg.Shared.Messaging.{FetchPrekeyBundleResponse}
use rsmsg.Client.Types.{DecryptedMessage, EncryptedMessagePayload}
use rsmsg.Client.Library.{Json}
use rsmsg.Ui.History.{or_insert}
use rsmsg.Ui.State.{MessengerApp, save_history}
use rsmsg.Ui.Identity.{pin, verify_or_pin_peer_identity}
use rsmsg.Ui.Sync.{SyncSuccess, apply_sync_success, delete_chat_locally}
use rsmsg.Ui.Trust.{none_yet, then_one, deleted, accepted_same}
use rsmsg.Ui.Copies.{copies}
use rsmsg.Ui.Once.{shown_copies, shown_once}
use rsmsg.Ui.Bubble.{hard_wrap_long_words, short_runs, Broken, hard_wrap_long_words_lem}
use rsmsg.Tests.Clients.{unread}

abbrev payloads : Json EncryptedMessagePayload
payloads = unread

abbrev new_app : MessengerApp
new_app = record {
  history = record {
    chats = [];
    peer_by_device_uuid = [];
    device_uuid_by_peer = [];
    unread_by_peer = [];
    peer_identity_key_by_peer = [];
    peer_signing_identity_key_by_peer = [];
  };
  localization = record { fallback = []; current = [] };
  selected_chat = [];
  peer_nickname_input = [];
  status = [];
  password = [];
  auth = none;
  local_keys = none;
  key_change_peer = none;
  delete_chat_confirm = none;
  active_call = none;
  open_chat_rx = false;
  sync_rx = false;
  read_ack_rx = false;
  trust_rx = false;
  effects = [];
}

abbrev peer : Text
peer = codes "bob"

abbrev bundle : FetchPrekeyBundleResponse
bundle = record {
  device_uuid = codes "device";
  identity_key_b64 = codes "identity";
  signing_identity_key_b64 = codes "signing";
  signed_prekey_b64 = [];
  signed_prekey_signature_b64 = [];
  one_time_prekey = none;
}

abbrev other_bundle : FetchPrekeyBundleResponse
other_bundle = record bundle { signing_identity_key_b64 = codes "another" }

abbrev pinned_app : MessengerApp
pinned_app = record new_app {
  history = record new_app.history {
    peer_identity_key_by_peer = (peer, codes "identity") ∷ [];
    peer_signing_identity_key_by_peer = (peer, codes "signing") ∷ [];
  };
}

first_accepted : verify_or_pin_peer_identity peer bundle new_app ≡ (true, pinned_app)
unfolding verify_or_pin_peer_identity pin or_insert contains_key get insert
first_accepted = refl

-- Other keys of the peer are refused.
other_refused : (verify_or_pin_peer_identity peer other_bundle pinned_app).0 ≡ false
unfolding verify_or_pin_peer_identity pin or_insert contains_key get insert text_eq
    rsmsg.Base.ℕ_discrete
other_refused = refl

abbrev deleted_app : MessengerApp
deleted_app = delete_chat_locally peer pinned_app

abbrev accepted_again : MessengerApp
accepted_again = (verify_or_pin_peer_identity peer bundle deleted_app).1

second_accepted : verify_or_pin_peer_identity peer bundle deleted_app ≡ (true, accepted_again)
unfolding verify_or_pin_peer_identity pin or_insert contains_key get insert delete_chat_locally
    save_history text_eq rsmsg.Base.ℕ_discrete
second_accepted = refl

accepted_same_example :
    (bundle.identity_key_b64 ≡ bundle.identity_key_b64)
    × (bundle.signing_identity_key_b64 ≡ bundle.signing_identity_key_b64)
accepted_same_example =
    accepted_same payloads peer bundle bundle new_app pinned_app deleted_app accepted_again
      first_accepted
      (then_one pinned_app pinned_app deleted_app (none_yet pinned_app) (deleted peer pinned_app))
      second_accepted

abbrev message : DecryptedMessage
message = record {
  message_id = codes "m";
  from_device_uuid = codes "device";
  plaintext = codes "hello";
  created_at_unix_ms = pos 1;
}

-- The message is delivered twice.
abbrev twice : SyncSuccess
twice = record {
  peer_mappings = [];
  decrypted = message ∷ message ∷ [];
  statuses = [];
  pending_count = 2;
}

nothing_known : (id : Text) → shown_copies id new_app ≤ 1
unfolding copies
nothing_known id = omega arith

shown_once_example :
    (shown_copies (codes "m") (apply_sync_success payloads 0 (codes "2") twice new_app) ≡ 1)
    × ((id : Text) → shown_copies id (apply_sync_success payloads 0 (codes "2") twice new_app) ≤ 1)
shown_once_example =
    shown_once payloads 0 (codes "2") twice new_app message nothing_known (inl refl) (λ h. h)

hard_wrap_long_words_lem_example :
    (short_runs 2 0 (hard_wrap_long_words (codes "abcde f") 2) ≡ true)
    × Broken (codes "abcde f") (hard_wrap_long_words (codes "abcde f") 2)
    × ((short_runs 2 0 (codes "abcde f") ≡ false)
        ⊎ (hard_wrap_long_words (codes "abcde f") 2 ≡ codes "abcde f"))
hard_wrap_long_words_lem_example = hard_wrap_long_words_lem (codes "abcde f") 2 (omega arith)
