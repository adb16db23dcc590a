-- ===== src/Server/Redeeming.antt =====
-- What registration does: domain/user.rs with users.rs and registration_invites.rs.
use rsmsg.Base.{
  ltb, ◌==◌, nat_eq, text_eq, Option-cases, is_some, is_empty, find?, update_where, suc, ◌<◌, ◌≡◌,
  refl, sym, ap, subst, ◌∙◌, inl, inr, true, false, none, some, List, arith,
}
use rsmsg.Base.Text.{Text, utf8_len, trim}
use rsmsg.Base.Int.{int_eq}
use rsmsg.Base.Rows.{find?-none_iff_any, find?-sound, All-of, All-find?}
use rsmsg.Base.Settled.{Settled-marked}
use rsmsg.Server.State.{Invite, Database, Server}
use rsmsg.Server.Monad.{ok, Moment, done, ◌>>=◌, query}
use rsmsg.Server.Monad.Done.{transaction_done, result_cases}
use rsmsg.Server.Library.{Library}
use rsmsg.Server.History.{Call, run}
use rsmsg.Shared.User.{UserRegisterRequest, UserRegisterResponse}
use rsmsg.Server.Repository.Users.{add_user, has_user, create_user_tx}
use rsmsg.Server.Repository.RegistrationInvites.{find_invite, is_unused, use_up, mark_used}
use rsmsg.Server.Domain.Registration.{
  ParsedInviteCode, hash_password, verify_password, parse_invite_code, redeem, register,
}
use rsmsg.Server.Lasting.Invites.{is_invite, is_used, Used, run-Used}

module _ ⦃lib : Library⦄ where
  -- The invite that a code names can be redeemed.
  pub record IsRedeemable (invite : ParsedInviteCode) (t : Moment) (d : Database) (i : Invite)
      : Type 0 where
    pub stored : find? (λ i. i.id == invite.id) d.invites ≡ some i
    pub unused : i.used_at ≡ none
    pub fresh : t.now < i.expires_at
    pub secret : verify_password invite.secret i.secret_hash ≡ true

  -- The tables with the new user and with the invite used by that user.
  abbrev pub redeemed : ParsedInviteCode → Text → Text → Moment → Database → Database
  redeemed invite user_id hash t d = record (add_user user_id hash d) {
    invites = update_where (is_unused invite.id) (use_up t.now d.next_user) d.invites;
  }

  redeem_done :
      (payload : UserRegisterRequest) (invite : ParsedInviteCode) (hash : Text) (t : Moment)
      (s : Server) (r : UserRegisterResponse) (s' : Server)
      → redeem payload invite hash t s ≡ done r s'
      → (i : Invite) × IsRedeemable invite t s.db i
        × (has_user payload.user_id s.db ≡ false)
        × (s'.db ≡ redeemed invite payload.user_id hash t s.db)
  unfolding redeem query find_invite create_user_tx mark_used ◌>>=◌
  redeem_done payload invite hash t s r s' h =
      elim (Option-cases (find? (λ i. i.id == invite.id) s.db.invites)) [
        | inl e ↦ absurd (ground (arith, e))
        | inr (i, e) ↦ (i, ground (arith, e), ground (arith, e), ground (arith, e))
      ]

  -- A registration that is answered by success had a user name that is not blank, a password of six
  -- bytes or more and an invite code whose invite was stored, unused, unexpired and of that secret. The
  -- name was not taken. The tables gain that user, with the hash of the password, and the invite is
  -- marked as used by that user. They do not change otherwise.
  pub register_redeems :
      (payload : UserRegisterRequest) (t : Moment) (s : Server) (r : UserRegisterResponse)
      (s' : Server)
      → register payload t s ≡ done r s'
      → (invite : ParsedInviteCode) × (hash : Text) × (i : Invite) × (is_empty
            (trim payload.user_id)
          ≡ false)
        × (ltb (utf8_len payload.password) 6 ≡ false)
        × (parse_invite_code payload.invite_code ≡ ok invite)
        × (lib.argon2_hash t.salt payload.password ≡ some hash)
        × IsRedeemable invite t s.db i
        × (has_user payload.user_id s.db ≡ false)
        × (s'.db ≡ redeemed invite payload.user_id hash t s.db)
  unfolding register hash_password ◌>>=◌
  register_redeems payload t s r s' h =
      elim (result_cases (parse_invite_code payload.invite_code)) [
        | inr (e, refused) ↦ absurd (ground (arith, refused))
        | inl (invite, parsed) ↦ elim (Option-cases (lib.argon2_hash t.salt payload.password)) [
          | inl none_hash ↦ absurd (ground (arith, parsed, none_hash))
          | inr (hash, hashed) ↦
              let (s'', ran, same) =
                transaction_done (redeem payload invite hash) t s r s'
                  (ground (arith, parsed, hashed)) in
              let (i, ok_invite, new, tables) =
                redeem_done payload invite hash t (record s { calls = suc s.calls }) r s'' ran in
              (
                invite,
                hash,
                i,
                ground arith,
                ground arith,
                parsed,
                hashed,
                ok_invite,
                new,
                same ∙ tables,
              )
        ]
      ]

  redeemed-Used :
      (invite : ParsedInviteCode) (user_id hash : Text) (t : Moment) (d : Database) (i : Invite)
      → IsRedeemable invite t d i
      → Used invite.id (redeemed invite user_id hash t d)
  unfolding add_user
  redeemed-Used invite user_id hash t d i h =
      Settled-marked (is_invite invite.id) (is_used invite.id) (is_unused invite.id)
        (use_up t.now d.next_user) (λ x. refl) (λ x. refl) d.invites
        (find?-none_iff_any (is_invite invite.id) d.invites ∙ ap is_some h.stored)
        (All-of _ (λ x e. ground arith) d.invites)

  -- An invite is redeemed once: after a registration with it that is answered by success, and any
  -- requests, no registration with an invite code of the same id is answered by success.
  pub register_once :
      (payload : UserRegisterRequest) (t : Moment) (s : Server) (r : UserRegisterResponse)
      (s' : Server) (invite : ParsedInviteCode) (cs : List Call) (again : UserRegisterRequest)
      (t' : Moment) (r' : UserRegisterResponse) (s'' : Server) (invite' : ParsedInviteCode)
      → register payload t s ≡ done r s'
      → parse_invite_code payload.invite_code ≡ ok invite
      → parse_invite_code again.invite_code ≡ ok invite'
      → invite'.id ≡ invite.id
      → ¬ (register again t' (run s' cs) ≡ done r' s'')
  register_once payload t s r s' invite cs again t' r' s'' invite' first parsed parsed' same
        second =
      let (i1, hash, i, _, _, p1, _, redeemable, _, tables) =
        register_redeems payload t s r s' first in
      let (i2, _, j, _, _, p2, _, redeemable', _, _) =
        register_redeems again t' (run s' cs) r' s'' second in
      let used : Used i1.id (run s' cs).db = run-Used i1.id s' cs (
        subst (Used i1.id) (sym tables)
          (redeemed-Used i1 payload.user_id hash t s.db i redeemable)) in
      let ids : i2.id ≡ i1.id = ground arith in
      let marked =
        All-find? _ (λ x. x.id == i2.id) (run s' cs).db.invites j used.1 redeemable'.stored in
      let j_id = find?-sound (λ x. x.id == i2.id) (run s' cs).db.invites j redeemable'.stored in
      let hit : is_invite i1.id j ≡ true = ground arith in
      ground (arith, marked hit, redeemable'.unused)
