-- ===== src/Client/Core/Moves.antt =====
-- crates/client-core/src/core.rs: what sending leaves of the sessions.
use rsmsg.Base.{
  suc, ◌≡◌, refl, ap, ◌∙◌, inl, inr, false, none, some, if◌then◌else◌, ◌==◌, text_eq, arith,
}
use rsmsg.Base.Text.{Text}
use rsmsg.Base.Dict.{get, insert, get-insert}
use rsmsg.Crypto.Primitives.{Primitives}
use rsmsg.Crypto.Engine.{good, anyhow}
use rsmsg.Crypto.Agreement.{Result-cases}
use rsmsg.Shared.Messaging.{SendMessageRequest}
use rsmsg.Client.Types.{DeviceAuth, PeerSession}
use rsmsg.Client.Library.{ClientLibrary}
use rsmsg.Client.SessionStore
use rsmsg.Client.Ratchet.{seal}
use rsmsg.Client.Transport.Messages
use rsmsg.Client.Network.{Network}
use rsmsg.Client.Act.{give, modify, ignore_error, ◌>>=◌}
use rsmsg.Client.Core.{Setup, ClientCore, remote, draw, persist_sessions, set_files}
use rsmsg.Client.Core.Sending.{
  message_to, send_message, send_and_persist, seal_for, send_text_to_peer_with_id,
}

module _ ⦃p : Primitives⦄ ⦃lib : ClientLibrary⦄ ⦃net : Network⦄ (setup : Setup) where
  -- Saving the sessions changes none, whether it succeeds or not.
  pub persist_sessions_keeps :
      (s : ClientCore net.World) → (persist_sessions setup s).1.peer_sessions ≡ s.peer_sessions
  unfolding persist_sessions set_files draw ◌>>=◌
  persist_sessions_keeps s =
      elim (Result-cases (
        SessionStore.save setup.vaults setup.stored_sessions setup.host (lib.random 16 s.draws)
          (lib.random 24 (suc s.draws)) setup.config.session_store_path s.peer_sessions
          s.local_password s.files)) [ inl (files, e) ↦ rw e refl | inr (m, e) ↦ rw e refl ]

  -- A request changes no session, whatever comes back.
  pub send_message_keeps :
      (auth : DeviceAuth) (req : SendMessageRequest) (s : ClientCore net.World)
      → (send_message setup auth req s).1.peer_sessions ≡ s.peer_sessions
  unfolding send_message remote ◌>>=◌
  send_message_keeps auth req s =
      elim (Result-cases (Messages.send_message setup.config auth req s.wire).0) [
        | inl (r, e) ↦ ground (arith, e)
        | inr (m, e) ↦ ground (arith, e)
      ]

  pub send_and_persist_keeps :
      (auth : DeviceAuth) (req : SendMessageRequest) (s : ClientCore net.World)
      → (send_and_persist setup auth req s).1.peer_sessions ≡ s.peer_sessions
  unfolding send_and_persist ignore_error
  send_and_persist_keeps auth req s =
      persist_sessions_keeps (send_message setup auth req s).1 ∙ send_message_keeps auth req s

  module _ (auth : DeviceAuth) (peer plaintext message_id : Text) (s : ClientCore net.World) where
    pub no_session :
        get peer s.peer_sessions ≡ none
        → send_text_to_peer_with_id setup auth peer plaintext message_id s ≡ (good false, s)
    unfolding send_text_to_peer_with_id give
    no_session e = ground (arith, e)

    pub not_sealed :
        (session : PeerSession) (m : Text)
        → get peer s.peer_sessions ≡ some session
        → seal setup.envelopes (lib.random 24 s.draws) plaintext session ≡ anyhow m
        → send_text_to_peer_with_id setup auth peer plaintext message_id s
          ≡ (anyhow m, record s { draws = suc s.draws })
    unfolding send_text_to_peer_with_id seal_for draw modify give ◌>>=◌
    not_sealed session m e f = ground (arith, e, f)

    -- What is sent when a text has been sealed, and from which state.
    pub sealed_sends :
        (session next : PeerSession) (sealed : Text)
        → get peer s.peer_sessions ≡ some session
        → seal setup.envelopes (lib.random 24 s.draws) plaintext session ≡ good (sealed, next)
        → send_text_to_peer_with_id setup auth peer plaintext message_id s
          ≡ send_and_persist setup auth
              (message_to setup auth peer message_id sealed)
              (record s { draws = suc s.draws; peer_sessions = insert peer next s.peer_sessions })
    unfolding send_text_to_peer_with_id seal_for draw modify give ◌>>=◌
    sealed_sends session next sealed e f = ground (arith, e, f)

    -- Once a text is sealed for a peer, its session has moved on, whether the request succeeds or fails
    -- and whatever the saving of the sessions gives, and the sessions of the other peers stay.
    pub send_text_moves_on :
        (session next : PeerSession) (sealed k : Text)
        → get peer s.peer_sessions ≡ some session
        → seal setup.envelopes (lib.random 24 s.draws) plaintext session ≡ good (sealed, next)
        → get k (send_text_to_peer_with_id setup auth peer plaintext message_id s).1.peer_sessions
          ≡ (if peer == k then some next else get k s.peer_sessions)
    send_text_moves_on session next sealed k e f =
        ap (λ r. get k (r.1).peer_sessions) (sealed_sends session next sealed e f)
        ∙ ap (get k) (send_and_persist_keeps auth _ _)
        ∙ get-insert peer k next s.peer_sessions
