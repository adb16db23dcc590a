-- ===== src/Server/WellFormed/Users.antt =====
-- The constraints of the tables and the statements on users, tokens, invites and blocks.
use rsmsg.Base.{any, update_where, ℕ, refl, Bool, not, List, arith}
use rsmsg.Base.Text.{Text}
use rsmsg.Base.Rows.{All-filter, All-mono, Distinct, Distinct-update_where, Distinct-filter}
use rsmsg.Server.State.{Uuid, AuthToken, UserBlock, Database}
use rsmsg.Server.Keeps.{Maintains}
use rsmsg.Server.Repository.Users.{add_user, create_user_tx}
use rsmsg.Server.Repository.AuthTokens.{create_token, is_revocable, revoke, revoke_token}
use rsmsg.Server.Repository.RegistrationInvites.{mark_used}
use rsmsg.Server.Repository.UserBlocks.{is_block, block_user, unblock_user}
use rsmsg.Server.WellFormed.{same_token, same_block, KnowsBlock, WellFormed}

KnowsBlock-add_user :
    (user_id hash : Text) (d : Database) (b : UserBlock)
    → KnowsBlock d b
    → KnowsBlock (add_user user_id hash d) b
unfolding add_user any
KnowsBlock-add_user user_id hash d b h = ground arith

pub create_user_tx-WellFormed :
    (user_id hash : Text) → Maintains WellFormed (create_user_tx user_id hash)
unfolding create_user_tx
create_user_tx-WellFormed user_id hash = record {
  at = λ t n d h.
      let kept = All-mono _ _ (KnowsBlock-add_user user_id hash d) d.blocks h.blockers in
      ground (arith, kept);
}

pub create_token-WellFormed :
    (device : Uuid) (hash : Text) → Maintains WellFormed (create_token device hash)
unfolding create_token
create_token-WellFormed device hash = record { at = λ t n d h. ground arith }

revoke-Distinct :
    (p : AuthToken → Bool) (now : ℕ) (ks : List AuthToken)
    → Distinct same_token ks
    → Distinct same_token (update_where p (revoke now) ks)
revoke-Distinct p now = Distinct-update_where same_token p _ (λ x y. refl) (λ x y. refl)

pub revoke_token-WellFormed :
    (device : Uuid) (hash : Text) → Maintains WellFormed (revoke_token device hash)
unfolding revoke_token
revoke_token-WellFormed device hash = record {
  at = λ t n d h. ground (arith, revoke-Distinct (is_revocable device hash) t.now d.tokens);
}

pub mark_used-WellFormed : (id : Uuid) (user : ℕ) → Maintains WellFormed (mark_used id user)
unfolding mark_used
mark_used-WellFormed id user = record { at = λ t n d h. ground arith }

pub block_user-WellFormed :
    (blocker blocked : Text) → Maintains WellFormed (block_user blocker blocked)
unfolding block_user
block_user-WellFormed blocker blocked = record { at = λ t n d h. ground arith }

pub unblock_user-WellFormed :
    (blocker blocked : Text) → Maintains WellFormed (unblock_user blocker blocked)
unfolding unblock_user
unblock_user-WellFormed blocker blocked = record {
  at = λ t n d h.
      let test : UserBlock → Bool = λ b. not (is_block blocker blocked b) in
      assumption (
        Distinct-filter same_block test d.blocks h.blocks,
        All-filter (KnowsBlock d) test d.blocks h.blockers,
      );
}
