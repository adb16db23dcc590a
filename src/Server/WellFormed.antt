-- ===== src/Server/WellFormed.antt =====
-- The constraints of migrations/ as an invariant of the tables: primary and unique keys, and the
-- references from messages to devices and from blocks to users.
pub mod Users
pub mod Devices
pub mod Messages
pub mod Requests
pub mod Keys
use rsmsg.Base.{◌==◌, nat_eq, text_eq, All, ◌<◌, ◌≡◌, Bool, true, false, ◌&&◌}
use rsmsg.Base.Rows.{Distinct}
use rsmsg.Base.Int.{int_eq}
use rsmsg.Server.State.{
  Device, OneTimePrekey, StoredMessage, AuthToken, User, Blob, UserBlock, Database,
}
use rsmsg.Server.Repository.Devices.{named, has_device}
use rsmsg.Server.Repository.Users.{has_user}
use rsmsg.Server.Repository.UserBlocks.{is_block}

abbrev pub same_user : User → User → Bool
same_user u v = v.user_id == u.user_id

abbrev pub same_device : Device → Device → Bool
same_device v w = w.id == v.id

abbrev pub same_name : Device → Device → Bool
same_name v w = named v.user_id v.device_id w

abbrev pub same_prekey : OneTimePrekey → OneTimePrekey → Bool
same_prekey p q = q.device_ref == p.device_ref && q.key_id == p.key_id

abbrev pub same_serial : OneTimePrekey → OneTimePrekey → Bool
same_serial p q = q.id == p.id

abbrev pub same_message : StoredMessage → StoredMessage → Bool
same_message m k = k.message_id == m.message_id

abbrev pub same_row : StoredMessage → StoredMessage → Bool
same_row m k = k.id == m.id

abbrev pub same_token : AuthToken → AuthToken → Bool
same_token k l = l.token_hash == k.token_hash

abbrev pub same_blob : Blob → Blob → Bool
same_blob b c = c.id == b.id

abbrev pub same_block : UserBlock → UserBlock → Bool
same_block b c = is_block b.blocker_user_id b.blocked_user_id c

abbrev pub KnowsMessage : Database → StoredMessage → Type 0
KnowsMessage d m = (has_device m.from_device d ≡ true) × (has_device m.to_device d ≡ true)

abbrev pub KnowsBlock : Database → UserBlock → Type 0
KnowsBlock d b =
    (has_user b.blocker_user_id d ≡ true)
    × (has_user b.blocked_user_id d ≡ true)
    × ((b.blocker_user_id == b.blocked_user_id) ≡ false)

pub record WellFormed (d : Database) : Type 0 where
  pub users : Distinct same_user d.users
  pub devices : Distinct same_device d.devices
  pub names : Distinct same_name d.devices
  pub prekeys : Distinct same_prekey d.prekeys
  pub serials : Distinct same_serial d.prekeys
  pub below : All (λ p. p.id < d.next_prekey) d.prekeys
  pub messages : Distinct same_message d.messages
  pub rows : Distinct same_row d.messages
  pub known : All (KnowsMessage d) d.messages
  pub tokens : Distinct same_token d.tokens
  pub blobs : Distinct same_blob d.blobs
  pub blocks : Distinct same_block d.blocks
  pub blockers : All (KnowsBlock d) d.blocks
