-- ===== src/Server/Repository/UserBlocks.antt =====
-- crates/server/src/repository/user_blocks.rs
use rsmsg.Base.{
  if◌then◌else◌, ◌==◌, nat_eq, text_eq, any, filter, count, sort_by, Bool, true, false, not, ◌&&◌,
  Option, none, some, List, ◌∷◌, map,
}
use rsmsg.Base.Text.{Text}
use rsmsg.Base.Int.{int_eq}
use rsmsg.Server.State.{UserBlock, Database}
use rsmsg.Server.Monad.{Query}
use rsmsg.Server.Library.{Library}
use rsmsg.Server.Repository.Users.{has_user}

abbrev pub is_block : Text → Text → UserBlock → Bool
is_block blocker blocked b = b.blocker_user_id == blocker && b.blocked_user_id == blocked

abbrev pub has_block : Text → Text → Database → Bool
has_block blocker blocked d = any (is_block blocker blocked) d.blocks

-- The table checks that the two differ, and that both are users.
unfoldable pub block_user : Text → Text → Query Bool
block_user blocker blocked t n d =
    if blocker == blocked
    then none
    else if has_block blocker blocked d
    then some (false, d)
    else if has_user blocker d && has_user blocked d
    then some (
      true,
      record d {
        blocks = record { blocker_user_id = blocker; blocked_user_id = blocked } ∷ d.blocks;
      },
    )
    else none

unfoldable pub unblock_user : Text → Text → Query Bool
unblock_user blocker blocked t n d = some (
  count (is_block blocker blocked) d.blocks == 1,
  record d { blocks = filter (λ b. not (is_block blocker blocked b)) d.blocks },
)

module _ ⦃lib : Library⦄ where
  unfoldable pub list_blocked_users : Text → Query (List Text)
  list_blocked_users blocker t n d = some (
    sort_by lib.collate_le
        (map (λ b. b.blocked_user_id) (filter (λ b. b.blocker_user_id == blocker) d.blocks)),
    d,
  )

-- The rows of either direction, those of the recipient first, and of these the first.
unfoldable pub block_direction : Text → Text → Query (Option Text)
block_direction sender recipient t n d = some (
  if has_block recipient sender d
      then some recipient
      else if has_block sender recipient d
      then some sender
      else none,
  d,
)
