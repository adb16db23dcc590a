-- ===== src/Server/Statements.antt =====
-- The statements of crates/server/src/repository as far as invariants go: those that only read keep
-- every predicate, and those that write are gathered in an interface.
use rsmsg.Base.{ℕ, List, arith}
use rsmsg.Base.Text.{Text}
use rsmsg.Base.Int.{ℤ}
use rsmsg.Server.State.{Uuid, Bytes, Database}
use rsmsg.Server.Library.{Library}
use rsmsg.Server.Keeps.{Maintains}
use rsmsg.Server.Repository.Users.{create_user_tx, get_password_hash, user_exists, search_users}
use rsmsg.Server.Repository.Devices.{
  upsert_device, find_device_uuid, find_device_bundle, device_exists, find_user_id_by_device_uuid,
}
use rsmsg.Server.Repository.Prekeys.{insert_one_time_prekey, consume_one_time_prekey}
use rsmsg.Server.Repository.Messages.{
  insert_message, fetch_pending_locked, mark_delivered, fetch_statuses,
}
use rsmsg.Server.Repository.AuthTokens.{is_token_active, create_token, revoke_token}
use rsmsg.Server.Repository.Blobs.{insert_blob, append_blob_chunk, fetch_blob}
use rsmsg.Server.Repository.RegistrationInvites.{find_invite, mark_used}
use rsmsg.Server.Repository.UserBlocks.{
  block_user, unblock_user, list_blocked_users, block_direction,
}

module _ {P : Database → Type 0} where
  pub get_password_hash-reads : (user_id : Text) → Maintains P (get_password_hash user_id)
  unfolding get_password_hash
  get_password_hash-reads user_id = record { at = λ t n d h. ground arith }

  pub user_exists-reads : (user_id : Text) → Maintains P (user_exists user_id)
  unfolding user_exists
  user_exists-reads user_id = record { at = λ t n d h. ground arith }

  pub find_device_uuid-reads :
      (user_id device_id : Text) → Maintains P (find_device_uuid user_id device_id)
  unfolding find_device_uuid
  find_device_uuid-reads user_id device_id = record { at = λ t n d h. ground arith }

  pub find_device_bundle-reads :
      (user_id device_id : Text) → Maintains P (find_device_bundle user_id device_id)
  unfolding find_device_bundle
  find_device_bundle-reads user_id device_id = record { at = λ t n d h. ground arith }

  pub device_exists-reads : (device : Uuid) → Maintains P (device_exists device)
  unfolding device_exists
  device_exists-reads device = record { at = λ t n d h. ground arith }

  pub find_user_id_by_device_uuid-reads :
      (device : Uuid) → Maintains P (find_user_id_by_device_uuid device)
  unfolding find_user_id_by_device_uuid
  find_user_id_by_device_uuid-reads device = record { at = λ t n d h. ground arith }

  pub fetch_pending_locked-reads :
      (to : Uuid) (limit : ℕ) → Maintains P (fetch_pending_locked to limit)
  unfolding fetch_pending_locked
  fetch_pending_locked-reads to limit = record { at = λ t n d h. ground arith }

  pub fetch_statuses-reads :
      (from : Uuid) (message_ids : List Text) → Maintains P (fetch_statuses from message_ids)
  unfolding fetch_statuses
  fetch_statuses-reads from message_ids = record { at = λ t n d h. ground arith }

  pub is_token_active-reads :
      (device : Uuid) (token_hash : Text) → Maintains P (is_token_active device token_hash)
  unfolding is_token_active
  is_token_active-reads device token_hash = record { at = λ t n d h. ground arith }

  pub fetch_blob-reads : (blob_id : Uuid) → Maintains P (fetch_blob blob_id)
  unfolding fetch_blob
  fetch_blob-reads blob_id = record { at = λ t n d h. ground arith }

  pub find_invite-reads : (id : Uuid) → Maintains P (find_invite id)
  unfolding find_invite
  find_invite-reads id = record { at = λ t n d h. ground arith }

  pub block_direction-reads :
      (sender recipient : Text) → Maintains P (block_direction sender recipient)
  unfolding block_direction
  block_direction-reads sender recipient = record { at = λ t n d h. ground arith }

module _ ⦃lib : Library⦄ {P : Database → Type 0} where
  pub search_users-reads : (text : Text) → Maintains P (search_users text)
  unfolding search_users
  search_users-reads text = record { at = λ t n d h. h }

  pub list_blocked_users-reads : (blocker : Text) → Maintains P (list_blocked_users blocker)
  unfolding list_blocked_users
  list_blocked_users-reads blocker = record { at = λ t n d h. h }

pub ruleset reads = (
  get_password_hash-reads, user_exists-reads, find_device_uuid-reads, find_device_bundle-reads,
  device_exists-reads, find_user_id_by_device_uuid-reads, fetch_pending_locked-reads,
  fetch_statuses-reads, is_token_active-reads, fetch_blob-reads, find_invite-reads,
  block_direction-reads, search_users-reads, list_blocked_users-reads,
)

-- The statements that write, but for the acknowledgement of messages.
pub record Statements (P : Database → Type 0) : Type 0 where
  pub create_user_tx_keeps :
      (user_id password_hash : Text) → Maintains P (create_user_tx user_id password_hash)
  pub upsert_device_keeps :
      (user_id device_id : Text) (identity signing prekey signature : Bytes)
      → Maintains P (upsert_device user_id device_id identity signing prekey signature)
  pub insert_one_time_prekey_keeps :
      (device : Uuid) (key_id : ℤ) (pubkey : Bytes)
      → Maintains P (insert_one_time_prekey device key_id pubkey)
  pub consume_one_time_prekey_keeps : (device : Uuid) → Maintains P (consume_one_time_prekey device)
  pub insert_message_keeps :
      (message_id : Text) (from to : Uuid) (envelope : Bytes)
      → Maintains P (insert_message message_id from to envelope)
  pub mark_delivered_keeps : (id : Uuid) → Maintains P (mark_delivered id)
  pub create_token_keeps :
      (device : Uuid) (token_hash : Text) → Maintains P (create_token device token_hash)
  pub revoke_token_keeps :
      (device : Uuid) (token_hash : Text) → Maintains P (revoke_token device token_hash)
  pub insert_blob_keeps : (owner : Uuid) (bytes : Bytes) → Maintains P (insert_blob owner bytes)
  pub append_blob_chunk_keeps :
      (owner blob_id : Uuid) (chunk : Bytes) → Maintains P (append_blob_chunk owner blob_id chunk)
  pub mark_used_keeps : (id : Uuid) (user_db_id : ℕ) → Maintains P (mark_used id user_db_id)
  pub block_user_keeps : (blocker blocked : Text) → Maintains P (block_user blocker blocked)
  pub unblock_user_keeps : (blocker blocked : Text) → Maintains P (unblock_user blocker blocked)
