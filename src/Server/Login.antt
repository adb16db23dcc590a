-- ===== src/Server/Login.antt =====
-- Logins of users: domain/user.rs and handlers/user.rs.
use rsmsg.Base.{
  ◌==◌, nat_eq, text_eq, Option-cases, find?, suc, ◌≡◌, refl, ap, ◌∙◌, inl, inr, true, false, none,
  some, [], ◌∷◌, arith,
}
use rsmsg.Base.Text.{Text}
use rsmsg.Base.Int.{int_eq}
use rsmsg.Server.State.{User, Server}
use rsmsg.Server.Monad.{Moment, done, ◌>>=◌, query}
use rsmsg.Server.Library.{Library}
use rsmsg.Server.Domain.Registration.{verify_password, register, login}
use rsmsg.Server.Repository.Users.{add_user, get_password_hash}
use rsmsg.Server.Redeeming.{register_redeems}
use rsmsg.Server.LoginRateLimit.{Limiter, get_entry, remove_entry, allow, record_success}
use rsmsg.Server.Handlers.User.{settle_login, user_login}
use rsmsg.Shared.User.{
  UserRegisterRequest, UserRegisterResponse, UserLoginRequest, UserLoginResponse,
}

get-remove : (key : Text) (m : Limiter) → get_entry key (remove_entry key m) ≡ none
unfolding get_entry remove_entry
get-remove key [] = refl
get-remove key ((k, e) ∷ m) = ground (arith, get-remove key m)

-- A password is verified against the hash that it was given.
pub record Argon2Laws (lib : Library) : Type 0 where
  pub verify-hash :
      (salt password hash : Text)
      → lib.argon2_hash salt password ≡ some hash
      → (parsed : Text) × (lib.parse_hash hash ≡ some parsed)
        × (lib.argon2_verify password parsed ≡ true)

module _ ⦃lib : Library⦄ where
  logs_in :
      (user_id password : Text) (u : User) (parsed : Text) (t : Moment) (s : Server)
      → find? (λ u. u.user_id == user_id) s.db.users ≡ some u
      → lib.parse_hash u.password_hash ≡ some parsed
      → lib.argon2_verify password parsed ≡ true
      → t.outage s.calls ≡ false
      → login (record { user_id = user_id; password = password }) t s
        ≡ done (record { ok = true }) (record s { calls = suc s.calls })
  unfolding login get_password_hash verify_password query ◌>>=◌
  logs_in user_id password u parsed t s found parses verified up =
      ground (arith, found, parses, verified, up)

  -- Who is registered can log in: right after a registration that is answered by success, a login with
  -- the same name and password is answered by success, where its call of the database does not fail and
  -- the rate limiter lets the name pass.
  pub register-login :
      (payload : UserRegisterRequest) (t : Moment) (s : Server) (r : UserRegisterResponse)
      (s' : Server) (t' : Moment)
      → Argon2Laws lib
      → register payload t s ≡ done r s'
      → t'.outage s'.calls ≡ false
      → (allow t'.now payload.user_id s'.login_rate_limiter).1 ≡ true
      → (s'' : Server) × (user_login
            (record { user_id = payload.user_id; password = payload.password })
            t'
            s'
          ≡ done (record { ok = true }) s'')
        × (s''.db ≡ s'.db)
  unfolding add_user find? user_login settle_login
  register-login payload t s r s' t' laws h up passes =
      let (invite, hash, i, _, _, _, hashed, _, _, tables) = register_redeems payload t s r s' h in
      let (parsed, parses, verified) = laws.verify-hash t.salt payload.password hash hashed in
      let u : User = record {
        id = s.db.next_user;
        user_id = payload.user_id;
        password_hash = hash;
      } in
      let limited = record s' {
        login_rate_limiter = (allow t'.now payload.user_id s'.login_rate_limiter).0;
      } in
      let let_in =
        logs_in payload.user_id payload.password u parsed t' limited
          (ap (λ d. find? (λ u. u.user_id == payload.user_id) d.users) tables ∙ ground arith) parses
          verified up in
      (
        record limited {
          calls = suc s'.calls;
          login_rate_limiter = record_success payload.user_id limited.login_rate_limiter;
        },
        ground (arith, passes, let_in),
        refl,
      )

  -- A login that is answered by success had the password of a stored user, and the limiter forgets the
  -- failures of that user. The tables do not change.
  pub user_login_done :
      (payload : UserLoginRequest) (t : Moment) (s : Server) (r : UserLoginResponse) (s' : Server)
      → user_login payload t s ≡ done r s'
      → (u : User) × (find? (λ u. u.user_id == payload.user_id) s.db.users ≡ some u)
        × (verify_password payload.password u.password_hash ≡ true)
        × ((allow t.now payload.user_id s.login_rate_limiter).1 ≡ true)
        × (get_entry payload.user_id s'.login_rate_limiter ≡ none)
        × (s'.db ≡ s.db)
  unfolding user_login login get_password_hash settle_login record_success query ◌>>=◌
  user_login_done payload t s r s' h =
      elim (Option-cases (find? (λ u. u.user_id == payload.user_id) s.db.users)) [
        | inl nobody ↦ absurd (ground (arith, nobody))
        | inr (u, found) ↦ (
          u,
          found,
          ground (arith, found),
          ground (arith, found),
          ground (
            arith,
            found,
            get-remove payload.user_id (allow t.now payload.user_id s.login_rate_limiter).0,
          ),
          ground (arith, found),
        )
      ]
