-- ===== src/Server/Repository/Users.antt =====
-- crates/server/src/repository/users.rs
use rsmsg.Base.{
  if◌then◌else◌, ◌==◌, nat_eq, text_eq, take, find?, any, filter, sort_by, ℕ, suc, Bool, true,
  false, Option, none, some, List, ◌∷◌, ◌++◌, map,
}
use rsmsg.Base.Text.{Text, codes}
use rsmsg.Base.Int.{int_eq}
use rsmsg.Server.State.{Database}
use rsmsg.Server.Monad.{Query}
use rsmsg.Server.Library.{Library}

-- The row that `INSERT INTO users` adds. A number is drawn from the sequence by an inserted row only.
unfoldable pub add_user : Text → Text → Database → Database
add_user user_id password_hash d = record d {
  users = record { id = d.next_user; user_id = user_id; password_hash = password_hash } ∷ d.users;
  next_user = suc d.next_user;
}

abbrev pub has_user : Text → Database → Bool
has_user user_id d = any (λ u. u.user_id == user_id) d.users

unfoldable pub create_user : Text → Text → Query Bool
unfolding add_user
create_user user_id password_hash t n d =
    if has_user user_id d then some (false, d) else some (true, add_user user_id password_hash d)

unfoldable pub create_user_tx : Text → Text → Query (Option ℕ)
unfolding add_user
create_user_tx user_id password_hash t n d =
    if has_user user_id d
    then some (none, d)
    else some (some d.next_user, add_user user_id password_hash d)

unfoldable pub get_password_hash : Text → Query (Option Text)
get_password_hash user_id t n d = elim (find? (λ u. u.user_id == user_id) d.users) [
  | none ↦ some (none, d)
  | some u ↦ some (some u.password_hash, d)
]

unfoldable pub user_exists : Text → Query Bool
user_exists user_id t n d = some (has_user user_id d, d)

module _ ⦃lib : Library⦄ where
  unfoldable pub search_users : Text → Query (List Text)
  search_users text t n d =
      let pattern = text ++ codes "%" in
      let found = filter (λ u. lib.ilike u pattern) (map (λ u. u.user_id) d.users) in
      some (take 20 (sort_by lib.collate_le found), d)
