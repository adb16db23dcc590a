-- ===== src/Client/Core/Reading.antt =====
-- crates/client-core/src/core.rs on both sides: the messages of a peer that arrive are read.
use rsmsg.Base.{
  ℕ, suc, ◌≤◌, ◌<◌, ◌≡◌, ap, ◌∙◌, sym, some, List, [], ◌∷◌, ◌++◌, map, append_assoc, append-nil,
  length, text_eq, arith,
}
use rsmsg.Base.Text.{Text}
use rsmsg.Base.Utf8.{IsText}
use rsmsg.Base.Dict.{get, insert, get-insert}
use rsmsg.Crypto.Primitives.{Bytes, Primitives, PrimitiveLaws}
use rsmsg.Crypto.Engine.{good}
use rsmsg.Client.Types.{PendingEnvelope, DecryptedMessage, PeerSession}
use rsmsg.Client.Library.{Json, Reads, ClientLibrary}
use rsmsg.Client.Ratchet.{RatchetEnvelope, u64_mod, next_counter, seal, decrypt_with_session}
use rsmsg.Client.Ratchet.Chain.{Follows, chain_key, envelope_of, seal-Follows, seal_parts}
use rsmsg.Client.Ratchet.Exchange.{after_read, decrypt-seal}
use rsmsg.Client.Network.{Network}
use rsmsg.Client.Core.{Setup, ClientCore}
use rsmsg.Client.Core.Receiving.{
  Unsealed, decrypted, unseal, unseal_all, decrypt_pending_with_sessions,
}

module _ ⦃p : Primitives⦄ (envelopes : Json RatchetEnvelope) where
  -- A text that a client can send in a session, and what that leaves.
  pub record Sends (a a' : PeerSession) (plaintext sealed : Text) : Type 0 where
    pub nonce : Bytes
    pub nonce_size : length nonce ≡ 24
    pub is_text : IsText plaintext
    pub room : suc a.send_counter < u64_mod
    pub seals : seal envelopes nonce plaintext a ≡ good (sealed, a')

  -- What a client sends in a session, one text after the other, each of which is lost or arrives, in the
  -- order in which they were sent: what arrives, and the texts of it.
  pub data Delivery (peer : Text)
      : PeerSession → List PendingEnvelope → List DecryptedMessage → Type 0 where
    quiet : (a : PeerSession) → Delivery peer a [] []
    lost :
        (a a' : PeerSession) (plaintext sealed : Text) {items : List PendingEnvelope}
        {out : List DecryptedMessage}
        → Sends a a' plaintext sealed
        → Delivery peer a' items out
        → Delivery peer a items out
    arrives :
        (a a' : PeerSession) (plaintext sealed : Text) (item : PendingEnvelope)
        {items : List PendingEnvelope} {out : List DecryptedMessage}
        → Sends a a' plaintext sealed
        → item.from_device_uuid ≡ peer
        → item.envelope_b64 ≡ sealed
        → Delivery peer a' items out
        → Delivery peer a (item ∷ items) (decrypted item plaintext ∷ out)

abbrev pub ids : List DecryptedMessage → List Text
ids = map (λ m. m.message_id)

module _ ⦃p : Primitives⦄ ⦃lib : ClientLibrary⦄ (envelopes : Json RatchetEnvelope)
    (laws : PrimitiveLaws p)
    (reads : (a : PeerSession) (inner : Text) → Reads envelopes (envelope_of a inner)) where
  abbrev pub one_more : PendingEnvelope → Text → PeerSession → Unsealed → Unsealed
  one_more item plaintext next u = record {
    out = u.out ++ decrypted item plaintext ∷ [];
    ack_ids = u.ack_ids ++ item.message_id ∷ [];
    sessions = insert item.from_device_uuid next u.sessions;
  }

  unseal_lem :
      (item : PendingEnvelope) (u : Unsealed) (b next : PeerSession) (plaintext : Text)
      → get item.from_device_uuid u.sessions ≡ some b
      → decrypt_with_session envelopes item.envelope_b64 b ≡ good (plaintext, next)
      → unseal envelopes item u ≡ one_more item plaintext next u
  unfolding unseal
  unseal_lem item u b next plaintext there read = ground (arith, there, read)

  -- A session that has sent keeps its shared key, and stands one further.
  sent_lem :
      {a a' : PeerSession} {plaintext sealed : Text}
      → Sends envelopes a a' plaintext sealed
      → Follows a
      → Follows a' × (a'.send_counter ≡ suc a.send_counter) × (a'.shared_key_b64 ≡ a.shared_key_b64)
  sent_lem {a} {a'} {plaintext} {sealed} sent fa =
      let moved = seal-Follows envelopes sent.nonce plaintext sealed a a' sent.room fa sent.seals in
      let parts = seal_parts envelopes sent.nonce plaintext sealed a a' sent.seals in
      (moved.0, moved.1, ap (λ (t : PeerSession). t.shared_key_b64) (parts.5))

  -- The reader of a text stands where its sender does.
  after_read-Follows :
      (a a' b : PeerSession)
      → suc a.send_counter < u64_mod
      → Follows a'
      → Follows b
      → a'.send_counter ≡ suc a.send_counter
      → a'.shared_key_b64 ≡ b.shared_key_b64
      → Follows (after_read b a'.send_chain_key_b64 a.send_counter)
  after_read-Follows a a' b room fa' fb count same =
      let at : next_counter a.send_counter ≡ a'.send_counter = ground arith in
      record {
        sends = fb.sends;
        receives =
            ap (λ (n : ℕ). chain_key n b.shared_key_b64) at
            ∙ ap (chain_key a'.send_counter) (sym same)
            ∙ fa'.sends;
      }

  unseal-Delivery :
      (peer : Text) (b : PeerSession) (u : Unsealed) {a : PeerSession}
      {items : List PendingEnvelope} {out : List DecryptedMessage}
      → Delivery envelopes peer a items out
      → Follows a
      → Follows b
      → a.shared_key_b64 ≡ b.shared_key_b64
      → b.recv_counter ≤ a.send_counter
      → get peer u.sessions ≡ some b
      → ((unseal_all envelopes items u).out ≡ u.out ++ out)
        × ((unseal_all envelopes items u).ack_ids ≡ u.ack_ids ++ ids out)
  unfolding unseal_all
  unseal-Delivery peer b u (quiet a) fa fb same le there =
      (sym (append-nil u.out), sym (append-nil u.ack_ids))
  unseal-Delivery peer b u (lost a a' plaintext sealed sent rest) fa fb same le there =
      let (fa', count, key) = sent_lem sent fa in
      unseal-Delivery peer b u rest fa' fb (key ∙ same) (omega arith) there
  unseal-Delivery peer b u (arrives a a' plaintext sealed item {items} {out} sent from text rest) fa
        fb same le there =
      let (fa', count, key) = sent_lem sent fa in
      let next = after_read b a'.send_chain_key_b64 a.send_counter in
      let room = sent.room in
      let read =
        decrypt-seal envelopes sent.nonce plaintext sealed a a' b laws (reads a) sent.nonce_size
          sent.is_text fa fb same le (omega arith) sent.seals in
      let here : get item.from_device_uuid u.sessions ≡ some b =
        ap (λ k. get k u.sessions) from ∙ there in
      let opened : decrypt_with_session envelopes item.envelope_b64 b ≡ good (plaintext, next) =
        ap (λ t. decrypt_with_session envelopes t b) text ∙ read in
      let step = unseal_lem item u b next plaintext here opened in
      let u' = one_more item plaintext next u in
      let there' : get peer u'.sessions ≡ some next =
        ground (arith, get-insert item.from_device_uuid peer next u.sessions, from) in
      let fb' = after_read-Follows a a' b room fa' fb count (key ∙ same) in
      let le' : next.recv_counter ≤ a'.send_counter = ground arith in
      let all = unseal-Delivery peer next u' rest fa' fb' (key ∙ same) le' there' in
      (
        ap (λ v. (unseal_all envelopes items v).out) step
            ∙ all.0
            ∙ append_assoc u.out (decrypted item plaintext ∷ []) out,
        ap (λ v. (unseal_all envelopes items v).ack_ids) step
            ∙ all.1
            ∙ append_assoc u.ack_ids (item.message_id ∷ []) (ids out),
      )

module _ ⦃p : Primitives⦄ ⦃lib : ClientLibrary⦄ ⦃net : Network⦄ (setup : Setup) where
  -- Of the texts that a peer seals one after the other, all that arrive are decrypted, in their order,
  -- and what is returned has them and the ids of their messages, whichever of them are lost on the way:
  -- if both sessions have the same shared key and stand where their counters say, and the reader has
  -- read none of them.
  pub Delivery-read :
      (peer : Text) (a b : PeerSession) (items : List PendingEnvelope) (out : List DecryptedMessage)
      (s : ClientCore net.World)
      → PrimitiveLaws p
      → ((t : PeerSession) (inner : Text) → Reads setup.envelopes (envelope_of t inner))
      → Delivery setup.envelopes peer a items out
      → Follows a
      → Follows b
      → a.shared_key_b64 ≡ b.shared_key_b64
      → b.recv_counter ≤ a.send_counter
      → get peer s.peer_sessions ≡ some b
      → (decrypt_pending_with_sessions setup items s).0 ≡ good (out, ids out)
  unfolding decrypt_pending_with_sessions
  Delivery-read peer a b items out s laws reads sent fa fb same le there =
      let all =
        unseal-Delivery setup.envelopes laws reads peer b
          (record { out = []; ack_ids = []; sessions = s.peer_sessions }) sent fa fb same le
          there in
      let texts = all.0 in let acks = all.1 in ground (arith, texts, acks)
