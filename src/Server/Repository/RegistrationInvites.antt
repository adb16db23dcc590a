-- ===== src/Server/Repository/RegistrationInvites.antt =====
-- crates/server/src/repository/registration_invites.rs
use rsmsg.Base.{
  leb, if◌then◌else◌, ◌==◌, nat_eq, text_eq, is_some, is_none, find?, any, update_where, ℕ, ◌+◌,
  Bool, ◌&&◌, Option, none, some, ◌∷◌,
}
use rsmsg.Base.Text.{Text}
use rsmsg.Base.Int.{int_eq}
use rsmsg.Server.State.{Uuid, Invite}
use rsmsg.Server.Monad.{Query}

pub record RegistrationInvite : Type 0 where
  pub secret_hash : Text
  pub used_at_exists : Bool
  pub expired : Bool

-- 2 days.
abbrev pub invite_lifetime : ℕ
invite_lifetime = 172_800_000

unfoldable pub insert_invite : Uuid → Text → Query (Unit {0})
insert_invite id secret_hash t n d =
    if any (λ i. i.id == id) d.invites
    then none
    else some (
      tt,
      record d {
        invites =
            record {
              id = id;
              secret_hash = secret_hash;
              expires_at = t.now + invite_lifetime;
              used_at = none;
              used_by_user_id = none;
            }
            ∷ d.invites;
      },
    )

unfoldable pub find_invite : Uuid → Query (Option RegistrationInvite)
find_invite id t n d = elim (find? (λ i. i.id == id) d.invites) [
  | none ↦ some (none, d)
  | some i ↦ some (
    some (record {
      secret_hash = i.secret_hash;
      used_at_exists = is_some i.used_at;
      expired = leb i.expires_at t.now;
    }),
    d,
  )
]

abbrev pub is_unused : Uuid → Invite → Bool
is_unused id i = i.id == id && is_none i.used_at

abbrev pub use_up : ℕ → ℕ → Invite → Invite
use_up now user_db_id i = record i { used_at = some now; used_by_user_id = some user_db_id }

unfoldable pub mark_used : Uuid → ℕ → Query (Unit {0})
mark_used id user_db_id t n d =
    some
      (tt, record d { invites = update_where (is_unused id) (use_up t.now user_db_id) d.invites })
