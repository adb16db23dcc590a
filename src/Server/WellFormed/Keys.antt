-- ===== src/Server/WellFormed/Keys.antt =====
-- The keys of users and invites, and with the constraints of the tables all keys of migrations/.
use rsmsg.Base.{
  any, find?, All, ℕ, suc, ◌==◌, nat_eq, ◌<◌, ◌≡◌, refl, inl, inr, Option-cases, Bool-cases, Bool,
  false, List, [], ◌∷◌, arith,
}
use rsmsg.Base.Text.{Text}
use rsmsg.Base.Int.{int_eq}
use rsmsg.Base.Rows.{All-mono, Distinct, Distinct-update_where}
use rsmsg.Server.State.{Uuid, Bytes, User, Invite, Database, Server}
use rsmsg.Server.Library.{Library}
use rsmsg.Server.Keeps.{Maintains}
use rsmsg.Server.Statements.{Statements}
use rsmsg.Server.Repository.Users.{add_user, create_user_tx}
use rsmsg.Server.Repository.Devices.{named, has_device, upsert_device}
use rsmsg.Server.Repository.Prekeys.{insert_one_time_prekey, consume_one_time_prekey}
use rsmsg.Server.Repository.Messages.{insert_message, mark_delivered, ack_messages}
use rsmsg.Server.Repository.AuthTokens.{create_token, revoke_token}
use rsmsg.Server.Repository.Blobs.{insert_blob, append_blob_chunk}
use rsmsg.Server.Repository.RegistrationInvites.{is_unused, use_up, mark_used}
use rsmsg.Server.Repository.UserBlocks.{block_user, unblock_user}
use rsmsg.Server.Preserved.Requests.{serve-On}
use rsmsg.Server.History.{Call, run, run_induction}
use rsmsg.Server.WellFormed.{WellFormed}
use rsmsg.Server.WellFormed.Requests.{run-WellFormed}

abbrev pub same_user_row : User → User → Bool
same_user_row u v = v.id == u.id

abbrev pub same_invite : Invite → Invite → Bool
same_invite i j = j.id == i.id

-- The primary keys of users, which a sequence numbers, and of registration_invites.
abbrev pub Keyed : Database → Type 0
Keyed d =
    Distinct same_user_row d.users
    × All (λ u. u.id < d.next_user) d.users
    × Distinct same_invite d.invites

user_new :
    (next : ℕ) (us : List User) → All (λ u. u.id < next) us → any (λ u. u.id == next) us ≡ false
unfolding any
user_new next [] h = refl
user_new next (u ∷ us) h = ground (arith, user_new next us h.1)

create_user_tx-Keyed : (user_id hash : Text) → Maintains Keyed (create_user_tx user_id hash)
unfolding create_user_tx add_user
create_user_tx-Keyed user_id hash = record {
  at = λ t n d h.
      let below =
        All-mono (λ (u : User). u.id < d.next_user) (λ u. u.id < suc d.next_user)
          (λ u b. omega arith) d.users h.1 in
      ground (arith, below, user_new d.next_user d.users h.1);
}

mark_used-Keyed : (id : Uuid) (user : ℕ) → Maintains Keyed (mark_used id user)
unfolding mark_used
mark_used-Keyed id user = record {
  at = λ t n d h.
      let kept =
        Distinct-update_where same_invite (is_unused id) (use_up t.now user) (λ x y. refl)
          (λ x y. refl) d.invites h.2 in
      ground (arith, kept);
}

upsert_device-Keyed :
    (user_id device_id : Text) (i s k g : Bytes)
    → Maintains Keyed (upsert_device user_id device_id i s k g)
unfolding upsert_device
upsert_device-Keyed user_id device_id i s k g = record {
  at = λ t n d h. elim (Option-cases (find? (named user_id device_id) d.devices)) [
    | inr (v, e) ↦ rw (e, upsert_device) h
    | inl e ↦
        rw (e, upsert_device)
          (elim (Bool-cases (has_device (t.fresh n) d)) [
            | inl taken ↦ rw taken tt
            | inr new ↦ rw new h
          ])
  ];
}

Keyed-statements : Statements Keyed
unfolding insert_one_time_prekey consume_one_time_prekey insert_message mark_delivered create_token
    revoke_token insert_blob append_blob_chunk block_user unblock_user
Keyed-statements = record {
  create_user_tx_keeps = create_user_tx-Keyed;
  upsert_device_keeps = upsert_device-Keyed;
  insert_one_time_prekey_keeps = λ device key_id pubkey. record { at = λ t n d h. ground arith };
  consume_one_time_prekey_keeps = λ device. record { at = λ t n d h. ground arith };
  insert_message_keeps = λ message_id from to envelope. record { at = λ t n d h. ground arith };
  mark_delivered_keeps = λ id. record { at = λ t n d h. ground arith };
  create_token_keeps = λ device hash. record { at = λ t n d h. ground arith };
  revoke_token_keeps = λ device hash. record { at = λ t n d h. ground arith };
  insert_blob_keeps = λ owner bytes. record { at = λ t n d h. ground arith };
  append_blob_chunk_keeps = λ owner blob_id chunk. record { at = λ t n d h. ground arith };
  mark_used_keeps = mark_used-Keyed;
  block_user_keeps = λ blocker blocked. record { at = λ t n d h. ground arith };
  unblock_user_keeps = λ blocker blocked. record { at = λ t n d h. ground arith };
}

ack_messages-Keyed : (to : Uuid) (ids : List Text) → Maintains Keyed (ack_messages to ids)
unfolding ack_messages
ack_messages-Keyed to ids = record { at = λ t n d h. ground arith }

module _ ⦃lib : Library⦄ where
  run-Keyed : (s : Server) (cs : List Call) → Keyed s.db → Keyed (run s cs).db
  run-Keyed s cs =
      run_induction (λ s. Keyed s.db)
        (λ s c.
          serve-On Keyed-statements c.moment c.headers c.route s
            λ to ids _. ack_messages-Keyed to ids)
        s cs

  -- After any requests from tables whose keys are unique and whose constraints hold, answered or
  -- refused, and whatever calls of the database fail, every primary and unique key of the schema is
  -- unique again, messages name known devices, and blocks name two different known users. The serial
  -- number of tokens, which the program does not read, is left out.
  pub run-Consistent :
      (s : Server) (cs : List Call)
      → WellFormed s.db
      → Keyed s.db
      → WellFormed (run s cs).db × Keyed (run s cs).db
  run-Consistent s cs h k = (run-WellFormed s cs h, run-Keyed s cs k)
