-- ===== src/Client/Core/Standing.antt =====
-- crates/client-core/src/core.rs: every session of a client stands where its counters say, through
-- whatever the client does.
use rsmsg.Base.{
  All, suc, ◌<◌, ◌≡◌, refl, subst, ◌∙◌, sym, ◌⊎◌, inl, inr, Bool, not, ◌||◌, some, List, [], ◌∷◌,
  ◌==◌, text_eq, Bool-cases, Option-cases, arith,
}
use rsmsg.Base.Text.{Text}
use rsmsg.Base.Dict.{get, insert, remove, get-insert, get-remove, contains_key}
use rsmsg.Crypto.Primitives.{Primitives}
use rsmsg.Crypto.Engine.{derive_shared_key_b64, verify_prekey_signature_b64}
use rsmsg.Crypto.Agreement.{Result-cases}
use rsmsg.Client.Types.{DeviceAuth, LocalDeviceKeys, PendingEnvelope, PeerSession}
use rsmsg.Client.Library.{ClientLibrary}
use rsmsg.Client.SessionStore.{Sessions}
use rsmsg.Client.Ratchet.{u64_mod, seal, decrypt_with_session}
use rsmsg.Client.Ratchet.Chain.{Follows, chain_key, seal-Follows}
use rsmsg.Client.Ratchet.Invariant.{decrypt-Follows, HasRoom}
use rsmsg.Client.Network.{Network}
use rsmsg.Client.Act.{modify, ignore_error, ◌>>=◌}
use rsmsg.Client.Core.{Setup, ClientCore, remote}
use rsmsg.Client.Transport.Devices
use rsmsg.Client.Core.Sending.{send_text_to_peer_with_id}
use rsmsg.Client.Core.Receiving.{Unsealed, unseal, unseal_all, decrypt_pending_with_sessions}
use rsmsg.Client.Core.Peers.{
  new_session, with_session, fetch_peer_bundle, derive_peer_shared_key_inner, reset_peer_session,
}
use rsmsg.Client.Core.Moves.{persist_sessions_keeps, no_session, not_sealed, send_text_moves_on}

module _ ⦃p : Primitives⦄ where
  -- Every session follows its streams, and has sent fewer messages than a `u64` counts.
  abbrev pub AllFollow : Sessions → Type 0
  AllFollow m = (k : Text) (t : PeerSession) → get k m ≡ some t → Follows t

  -- A session is put in its place.
  insert-AllFollow :
      (k : Text) (t : PeerSession) (m : Sessions)
      → Follows t
      → AllFollow m
      → AllFollow (insert k t m)
  insert-AllFollow k t m new old j u there = elim (Bool-cases (k == j)) [
    | inl here ↦
        let same : t ≡ u = ground (arith, get-insert k j t m, here) in subst Follows same new
    | inr other ↦ old j u (ground (arith, get-insert k j t m, other))
  ]

  with_session-AllFollow :
      (replace : Bool) (device key_b64 : Text) (m : Sessions)
      → AllFollow m
      → AllFollow (with_session replace device key_b64 m)
  unfolding with_session chain_key
  with_session-AllFollow replace device key_b64 m old =
      elim (Bool-cases (replace || not (contains_key device m))) [
        | inl put ↦ rw put (
            insert-AllFollow device (new_session key_b64) m
              (record { sends = refl; receives = refl }) old)
        | inr kept ↦ rw kept old
      ]

  remove-AllFollow : (k : Text) (m : Sessions) → AllFollow m → AllFollow (remove k m)
  remove-AllFollow k m old j u there = elim (Bool-cases (k == j)) [
    | inl here ↦ absurd (ground (arith, get-remove k j m, here))
    | inr other ↦ old j u (ground (arith, get-remove k j m, other))
  ]

module _ ⦃p : Primitives⦄ ⦃lib : ClientLibrary⦄ (setup : Setup) where
  -- The counters of these messages are below the last of a `u64`.
  abbrev pub AllRoom : List PendingEnvelope → Type 0
  AllRoom = All (λ item. HasRoom setup.envelopes item.envelope_b64)

  unseal-AllFollow :
      (item : PendingEnvelope) (u : Unsealed)
      → HasRoom setup.envelopes item.envelope_b64
      → AllFollow u.sessions
      → AllFollow (unseal setup.envelopes item u).sessions
  unfolding unseal
  unseal-AllFollow item u bounded old = elim (Option-cases (get item.from_device_uuid u.sessions)) [
    | inl unknown ↦
        let same : u ≡ unseal setup.envelopes item u = ground (arith, unknown) in
        subst (λ v. AllFollow v.sessions) same old
    | inr (t, there) ↦
        elim (Result-cases (decrypt_with_session setup.envelopes item.envelope_b64 t)) [
          | inr (m, e) ↦
              let same : u ≡ unseal setup.envelopes item u = ground (arith, there, e) in
              subst (λ v. AllFollow v.sessions) same old
          | inl ((plaintext, t'), e) ↦
              let moved =
                decrypt-Follows setup.envelopes item.envelope_b64 plaintext t t' bounded
                  (old item.from_device_uuid t there) e in
              let new : insert item.from_device_uuid t' u.sessions
                  ≡ (unseal setup.envelopes item u).sessions =
                ground (arith, there, e) in
              subst AllFollow new
                (insert-AllFollow item.from_device_uuid t' u.sessions (moved.0) old)
        ]
  ]

  unseal_all-AllFollow :
      (pending : List PendingEnvelope) (u : Unsealed)
      → AllRoom pending
      → AllFollow u.sessions
      → AllFollow (unseal_all setup.envelopes pending u).sessions
  unfolding unseal_all
  unseal_all-AllFollow [] u room old = old
  unseal_all-AllFollow (item ∷ pending) u room old =
      unseal_all-AllFollow pending (unseal setup.envelopes item u) room.1
        (unseal-AllFollow item u room.0 old)

module _ ⦃p : Primitives⦄ ⦃lib : ClientLibrary⦄ ⦃net : Network⦄ (setup : Setup) where
  -- What the client does to its sessions, and whatever leaves them.
  pub data Step : ClientCore net.World → ClientCore net.World → Type 0 where
    sends :
        (auth : DeviceAuth) (peer plaintext message_id : Text) (s : ClientCore net.World)
        → ((t : PeerSession) → get peer s.peer_sessions ≡ some t → suc t.send_counter < u64_mod)
        → Step s (send_text_to_peer_with_id setup auth peer plaintext message_id s).1
    reads :
        (pending : List PendingEnvelope) (s : ClientCore net.World)
        → AllRoom setup pending
        → Step s (decrypt_pending_with_sessions setup pending s).1
    derives :
        (keys : LocalDeviceKeys) (user device : Text) (replace : Bool) (s : ClientCore net.World)
        → Step s (derive_peer_shared_key_inner setup keys user device replace s).1
    resets : (peer : Text) (s : ClientCore net.World) → Step s (reset_peer_session setup peer s).1
    leaves : (s s' : ClientCore net.World) → s'.peer_sessions ≡ s.peer_sessions → Step s s'

  pub data Reach (s : ClientCore net.World) : ClientCore net.World → Type 0 where
    here : Reach s s
    next : {t u : ClientCore net.World} → Reach s t → Step t u → Reach s u

  fetch_peer_bundle_keeps :
      (user device : Text) (s : ClientCore net.World)
      → (fetch_peer_bundle setup user device s).1.peer_sessions ≡ s.peer_sessions
  unfolding fetch_peer_bundle remote ◌>>=◌
  fetch_peer_bundle_keeps user device s =
      elim (Result-cases (Devices.fetch_prekey_bundle setup.config user device s.wire).0) [
        | inr (m, e) ↦ ground (arith, e)
        | inl (bundle, e) ↦
            elim (Result-cases (
              verify_prekey_signature_b64 bundle.signing_identity_key_b64 bundle.signed_prekey_b64
                bundle.signed_prekey_signature_b64)) [
                  | inr (m, f) ↦ ground (arith, e, f)
                  | inl (valid, f) ↦ ground (arith, e, f)
                ]
      ]

  derive_sessions :
      (keys : LocalDeviceKeys) (user device : Text) (replace : Bool) (s : ClientCore net.World)
      → ((derive_peer_shared_key_inner setup keys user device replace s).1.peer_sessions
          ≡ s.peer_sessions)
        ⊎ ((peer : Text) × (key_b64 : Text) × ((derive_peer_shared_key_inner setup keys user device
                replace s).1.peer_sessions
              ≡ with_session replace peer key_b64 s.peer_sessions))
  unfolding derive_peer_shared_key_inner modify ignore_error ◌>>=◌
  derive_sessions keys user device replace s =
      elim (Result-cases (fetch_peer_bundle setup user device s).0) [
        | inr (m, e) ↦ inl (ground (arith, e, fetch_peer_bundle_keeps user device s))
        | inl (bundle, e) ↦
            elim (Result-cases
              (derive_shared_key_b64 keys.identity_private_b64 bundle.identity_key_b64)) [
                | inr (m, f) ↦ inl (ground (arith, e, f, fetch_peer_bundle_keeps user device s))
                | inl (key_b64, f) ↦ inr (
                  bundle.device_uuid,
                  key_b64,
                  let t = (fetch_peer_bundle setup user device s).1 in
                      let put = record t {
                        peer_sessions =
                            with_session replace bundle.device_uuid key_b64 t.peer_sessions;
                      } in
                      let kept = persist_sessions_keeps setup put in
                      ground (arith, e, f, kept, fetch_peer_bundle_keeps user device s),
                )
              ]
      ]

  read_sessions :
      (pending : List PendingEnvelope) (s : ClientCore net.World)
      → (decrypt_pending_with_sessions setup pending s).1.peer_sessions
        ≡ (unseal_all setup.envelopes pending
            (record { out = []; ack_ids = []; sessions = s.peer_sessions })).sessions
  unfolding decrypt_pending_with_sessions ignore_error
  read_sessions pending s = persist_sessions_keeps setup _

  reset_sessions :
      (peer : Text) (s : ClientCore net.World)
      → (reset_peer_session setup peer s).1.peer_sessions ≡ remove peer s.peer_sessions
  unfolding reset_peer_session ignore_error
  reset_sessions peer s = persist_sessions_keeps setup _

  Step-AllFollow :
      {s s' : ClientCore net.World}
      → Step s s'
      → AllFollow s.peer_sessions
      → AllFollow s'.peer_sessions
  Step-AllFollow (sends auth peer plaintext message_id s room) old =
      elim (Option-cases (get peer s.peer_sessions)) [
        | inl unknown ↦
            subst (λ r. AllFollow (r.1).peer_sessions)
              (sym (no_session setup auth peer plaintext message_id s unknown)) old
        | inr (t, there) ↦
            elim (Result-cases (seal setup.envelopes (lib.random 24 s.draws) plaintext t)) [
              | inr (m, e) ↦
                  subst (λ r. AllFollow (r.1).peer_sessions)
                    (sym (not_sealed setup auth peer plaintext message_id s t m there e)) old
              | inl (sealed, e) ↦
                  let moved =
                    seal-Follows setup.envelopes (lib.random 24 s.draws) plaintext (sealed.0) t
                      (sealed.1) (room t there) (old peer t there) e in
                  let new = insert-AllFollow peer (sealed.1) s.peer_sessions (moved.0) old in
                  λ k u found. new k u (
                    get-insert peer k (sealed.1) s.peer_sessions
                    ∙ sym (
                        send_text_moves_on setup auth peer plaintext message_id s t (sealed.1)
                          (sealed.0) k there e)
                    ∙ found)
            ]
      ]
  Step-AllFollow (reads pending s room) old =
      subst AllFollow (sym (read_sessions pending s))
        (unseal_all-AllFollow setup pending _ room old)
  Step-AllFollow (derives keys user device replace s) old =
      elim (derive_sessions keys user device replace s) [
        | inl same ↦ subst AllFollow (sym same) old
        | inr (peer, key_b64, new) ↦
            subst AllFollow (sym new)
              (with_session-AllFollow replace peer key_b64 s.peer_sessions old)
      ]
  Step-AllFollow (resets peer s) old =
      subst AllFollow (sym (reset_sessions peer s)) (remove-AllFollow peer s.peer_sessions old)
  Step-AllFollow (leaves s s' same) old = subst AllFollow (sym same) old

  -- Whatever the client sends, reads, derives and resets from a state in which every session stands where
  -- its counters say, as a client without sessions does, every session stands there after it, if the
  -- counters of what is sent and read stay below the last of a `u64`.
  pub Reach-AllFollow :
      {s s' : ClientCore net.World}
      → AllFollow s.peer_sessions
      → Reach s s'
      → AllFollow s'.peer_sessions
  Reach-AllFollow start here = start
  Reach-AllFollow start (next r step) = Step-AllFollow step (Reach-AllFollow start r)
