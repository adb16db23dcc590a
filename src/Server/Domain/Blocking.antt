-- ===== src/Server/Domain/Blocking.antt =====
-- crates/server/src/domain/user.rs: blocking users.
use rsmsg.Base.{if◌then◌else◌, ◌==◌, nat_eq, text_eq, is_empty, not, Option, none, some}
use rsmsg.Base.Text.{Text, trim}
use rsmsg.Base.Int.{int_eq}
use rsmsg.Server.State.{Uuid}
use rsmsg.Server.Monad.{
  bad_request, unauthorized, forbidden, not_found, M, pure, fail, ◌>>=◌, ◌>>◌, guard, ok_or, query,
}
use rsmsg.Server.Library.{Library}
use rsmsg.Shared.User.{
  BlockUserRequest, BlockUserResponse, UnblockUserRequest, UnblockUserResponse,
  BlockedUsersResponse,
}
use rsmsg.Server.Repository.Devices.{find_user_id_by_device_uuid}
use rsmsg.Server.Repository.Users.{user_exists}
use rsmsg.Server.Repository.UserBlocks

unfoldable pub current_user_id : Uuid → M Text
current_user_id auth_device = do
  found ← query (find_user_id_by_device_uuid auth_device)
  ok_or found unauthorized "invalid device"

unfoldable pub validate_block_target : Text → Text → M (Unit {0})
validate_block_target blocker blocked = do
  guard (not (is_empty blocked)) bad_request "invalid user"
  guard (not (blocker == blocked)) bad_request "cannot block yourself"
  exists ← query (user_exists blocked)
  guard exists not_found "user not found"

unfoldable pub block_user : Uuid → BlockUserRequest → M BlockUserResponse
unfolding current_user_id validate_block_target
block_user auth_device payload = do
  blocker ← current_user_id auth_device
  validate_block_target blocker (trim payload.user_id)
  blocked ← query (UserBlocks.block_user blocker (trim payload.user_id))
  pure (record { blocked = blocked })

unfoldable pub unblock_user : Uuid → UnblockUserRequest → M UnblockUserResponse
unfolding current_user_id
unblock_user auth_device payload = do
  blocker ← current_user_id auth_device
  guard (not (is_empty (trim payload.user_id))) bad_request "invalid user"
  unblocked ← query (UserBlocks.unblock_user blocker (trim payload.user_id))
  pure (record { unblocked = unblocked })

module _ ⦃lib : Library⦄ where
  unfoldable pub blocked_users : Uuid → M BlockedUsersResponse
  unfolding current_user_id
  blocked_users auth_device = do
    blocker ← current_user_id auth_device
    users ← query (UserBlocks.list_blocked_users blocker)
    pure (record { users = users })

-- What `send_message` and `send_call_signal` do with the row that `block_direction` finds.
unfoldable pub refuse_blocked : Option Text → Text → M (Unit {0})
refuse_blocked none to_user = pure tt
refuse_blocked (some blocker) to_user =
    if blocker == to_user
    then fail forbidden "recipient blocked you"
    else fail forbidden "you blocked recipient"
