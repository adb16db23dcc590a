-- ===== src/Tests/Blocks.antt =====
-- Blocks between users at concrete inputs.
use rsmsg.Base.{nat_eq, text_eq, find?, any, filter, count, ◌≡◌, refl, true, ℕ_discrete}
use rsmsg.Base.Text.{is_whitespace, trim_start, trim}
use rsmsg.Base.Int.{int_eq}
use rsmsg.Server.State.{Server}
use rsmsg.Server.Monad.{done, ◌>>=◌, query, after}
use rsmsg.Server.Domain.Messaging.{check_blocks}
use rsmsg.Server.Domain.Blocking.{current_user_id, validate_block_target, block_user, unblock_user}
use rsmsg.Server.Repository.Devices.{find_user_id_by_device_uuid}
use rsmsg.Server.Repository.Users.{user_exists}
use rsmsg.Server.Repository.UserBlocks.{has_block}
use rsmsg.Server.Repository.UserBlocks
use rsmsg.Server.BlockRules.{error_of, rule, check_blocks_lem}
use rsmsg.Tests.World.{toy_library, moment, alice, bob, server}

abbrev bob_blocked : Server
bob_blocked = after (block_user 11 (record { user_id = bob }) moment server)

alice_blocks_bob :
    block_user 11 (record { user_id = bob }) moment server
    ≡ done (record { blocked = true }) bob_blocked
unfolding block_user current_user_id validate_block_target find_user_id_by_device_uuid user_exists
    UserBlocks.block_user query ◌>>=◌ trim trim_start is_whitespace nat_eq ℕ_discrete text_eq find?
    any
alice_blocks_bob = refl

abbrev bob_unblocked : Server
bob_unblocked = after (unblock_user 11 (record { user_id = bob }) moment bob_blocked)

alice_unblocks_bob :
    unblock_user 11 (record { user_id = bob }) moment bob_blocked
    ≡ done (record { unblocked = true }) bob_unblocked
unfolding block_user unblock_user current_user_id validate_block_target find_user_id_by_device_uuid
    user_exists UserBlocks.block_user UserBlocks.unblock_user query ◌>>=◌ trim trim_start
    is_whitespace nat_eq ℕ_discrete text_eq find? any count filter
alice_unblocks_bob = refl

check_blocks_lem_example :
    (error_of (check_blocks 11 22 moment server)
      ≡ rule (has_block bob alice server.db) (has_block alice bob server.db))
    × ((after (check_blocks 11 22 moment server)).db ≡ server.db)
unfolding toy_library nat_eq ℕ_discrete text_eq find?
check_blocks_lem_example = check_blocks_lem 11 22 moment server alice bob (λ n. refl) refl refl refl
