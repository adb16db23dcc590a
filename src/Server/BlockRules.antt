-- ===== src/Server/BlockRules.antt =====
-- The block rules of domain/user.rs, messaging.rs and call_signaling.rs.
use rsmsg.Base.{
  ◌==◌, nat_eq, text_eq, Option-cases, any, ℕ, suc, ◌≡◌, inl, inr, Bool, true, false, not, Option,
  none, some, arith,
}
use rsmsg.Base.Text.{Text, trim}
use rsmsg.Base.Int.{int_eq}
use rsmsg.Base.Unique.{any-filter-not}
use rsmsg.Server.State.{Uuid, Server}
use rsmsg.Server.Monad.{
  forbidden, ApiError, api_error, Moment, Outcome, done, failed, ◌>>=◌, query, after,
}
use rsmsg.Server.Library.{Library}
use rsmsg.Server.Repository.Devices.{owner_of, find_user_id_by_device_uuid}
use rsmsg.Server.Repository.Users.{has_user, user_exists}
use rsmsg.Server.Domain.Blocking.{
  current_user_id, validate_block_target, block_user, unblock_user, refuse_blocked,
}
use rsmsg.Server.Repository.UserBlocks
use rsmsg.Server.Repository.UserBlocks.{is_block, has_block, block_direction}
use rsmsg.Server.Domain.Messaging.{check_blocks}
use rsmsg.Shared.User.{BlockUserRequest, BlockUserResponse, UnblockUserRequest, UnblockUserResponse}

-- Of a block that was answered by success, the tables have it: of the user of the device, who is not
-- the blocked user, and of a user that exists. The answer is whether it is new.
pub block_user_done :
    (auth : Uuid) (payload : BlockUserRequest) (t : Moment) (s : Server) (r : BlockUserResponse)
    (s' : Server)
    → block_user auth payload t s ≡ done r s'
    → (blocker : Text) × (owner_of auth s.db ≡ some blocker)
      × (has_user (trim payload.user_id) s.db ≡ true)
      × ((blocker == trim payload.user_id) ≡ false)
      × (has_block blocker (trim payload.user_id) s'.db ≡ true)
      × (r.blocked ≡ not (has_block blocker (trim payload.user_id) s.db))
unfolding block_user current_user_id validate_block_target find_user_id_by_device_uuid user_exists
    UserBlocks.block_user query ◌>>=◌ any
block_user_done auth payload t s r s' h = elim (Option-cases (owner_of auth s.db)) [
  | inl a ↦ absurd (ground (arith, a))
  | inr (blocker, a) ↦
      (blocker, a, ground (arith, a), ground (arith, a), ground (arith, a), ground (arith, a))
]

-- An unblock that was answered by success leaves no such block.
pub unblock_user_done :
    (auth : Uuid) (payload : UnblockUserRequest) (t : Moment) (s : Server) (r : UnblockUserResponse)
    (s' : Server)
    → unblock_user auth payload t s ≡ done r s'
    → (blocker : Text) × (owner_of auth s.db ≡ some blocker)
      × (has_block blocker (trim payload.user_id) s'.db ≡ false)
unfolding unblock_user current_user_id find_user_id_by_device_uuid UserBlocks.unblock_user query
    ◌>>=◌
unblock_user_done auth payload t s r s' h = elim (Option-cases (owner_of auth s.db)) [
  | inl a ↦ absurd (ground (arith, a))
  | inr (blocker, a) ↦ (
    blocker,
    a,
    ground (arith, a, any-filter-not (is_block blocker (trim payload.user_id)) s.db.blocks),
  )
]

-- How a handler ends.
abbrev pub error_of : {A : Type 0} → Outcome A → Option ApiError
error_of (done a s) = none
error_of (failed e s) = some e

-- The answer of the rules to two users.
abbrev pub rule : Bool → Bool → Option ApiError
rule true blocks = some (api_error forbidden "recipient blocked you")
rule false true = some (api_error forbidden "you blocked recipient")
rule false false = none

module _ ⦃lib : Library⦄ where
  -- Between devices of two users, and where no call of the database fails, the block rules refuse where
  -- either user blocks the other, and a block by the recipient is named before one by the sender.
  -- They change no table.
  pub check_blocks_lem :
      (from to : Uuid) (t : Moment) (s : Server) (from_user to_user : Text)
      → ((n : ℕ) → t.outage n ≡ false)
      → owner_of from s.db ≡ some from_user
      → owner_of to s.db ≡ some to_user
      → ((from_user == to_user) ≡ false)
      → (error_of (check_blocks from to t s)
          ≡ rule (has_block to_user from_user s.db) (has_block from_user to_user s.db))
        × ((after (check_blocks from to t s)).db ≡ s.db)
  unfolding check_blocks find_user_id_by_device_uuid block_direction refuse_blocked query ◌>>=◌
  check_blocks_lem from to t s from_user to_user up a b differs =
      let u0 = up s.calls in
      let u1 = up (suc s.calls) in
      let u2 = up (suc (suc s.calls)) in
      (ground (arith, u0, u1, u2, a, b), ground (arith, u0, u1, u2, a, b))
