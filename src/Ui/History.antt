-- ===== src/Ui/History.antt =====
-- crates/client-ui/src/history.rs: the chats that are kept. A BTreeMap is an association list, whose
-- order stands for the one in which it is gone through.
use rsmsg.Base.{
  ℕ, Bool, true, false, Option, none, some, List, [], ◌∷◌, ◌++◌, any, map, unwrap_or, if◌then◌else◌,
  ◌==◌, text_eq,
}
use rsmsg.Base.Text.{Text, codes}
use rsmsg.Base.Int.{ℤ}
use rsmsg.Base.Dict.{get, insert, contains_key}
use rsmsg.Client.Storage.{Host, profile_file, legacy_profile_file}

pub data MessageStatus : Type 0 where
  sending sent delivered read failed : MessageStatus

-- `==` against `Read`.
abbrev pub is_read : MessageStatus → Bool
is_read read = true
is_read status = false

pub record ChatMessage : Type 0 where
  pub outgoing : Bool
  pub text : Text
  pub ts : ℤ
  pub status : MessageStatus
  pub message_id : Option Text
  pub file_name : Option Text
  pub file_size : Option ℕ
  pub file_data_b64 : Option Text
  pub blob_id : Option Text
  pub file_key_b64 : Option Text

pub record ChatHistory : Type 0 where
  pub chats : List (Text × List ChatMessage)
  pub peer_by_device_uuid : List (Text × Text)
  pub device_uuid_by_peer : List (Text × Text)
  pub unread_by_peer : List (Text × ℕ)
  pub peer_identity_key_by_peer : List (Text × Text)
  pub peer_signing_identity_key_by_peer : List (Text × Text)

abbrev pub Chats : Type 0
Chats = List (Text × List ChatMessage)

unfoldable pub history_file : Host → Text
history_file host = profile_file host (codes "rsmsg_chat_history")

unfoldable pub legacy_history_file : Host → Text
legacy_history_file host = legacy_profile_file host (codes "rsmsg_chat_history")

-- `entry(key).or_insert(value)`
unfoldable pub or_insert : {V : Type 0} → Text → V → List (Text × V) → List (Text × V)
unfolding contains_key
or_insert key value m = if contains_key key m then m else insert key value m

-- `message.message_id.as_deref() == Some(id)`
unfoldable pub has_id : Text → ChatMessage → Bool
has_id id message = elim message.message_id [ none ↦ false | some own ↦ own == id ]

-- A change of every message of every chat, by `values_mut`.
unfoldable pub each_message : (ChatMessage → ChatMessage) → Chats → Chats
each_message f [] = []
each_message f ((peer, messages) ∷ chats) = (peer, map f messages) ∷ each_message f chats

-- A change of the messages of one chat, by `get_mut`.
unfoldable pub change_chat : Text → (List ChatMessage → List ChatMessage) → Chats → Chats
change_chat chat f chats = elim (get chat chats) [
  | none ↦ chats
  | some messages ↦ insert chat (f messages) chats
]

-- `entry(chat).or_default().push(message)`
unfoldable pub push_message : Text → ChatMessage → Chats → Chats
push_message chat message chats =
    insert chat (unwrap_or (get chat chats) [] ++ (message ∷ [])) chats

-- Some message of some chat has the id.
unfoldable pub knows_id : Text → Chats → Bool
unfolding has_id
knows_id id chats = any (λ chat. any (has_id id) chat.1) chats
