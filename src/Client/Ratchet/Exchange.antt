-- ===== src/Client/Ratchet/Exchange.antt =====
-- What one client seals, its peer reads: crates/client-core/src/core.rs on both sides.
use rsmsg.Base.{ℕ, ◌-◌, ◌≤◌, ◌<◌, ◌≡◌, refl, ap, ◌∙◌, sym, nat_eq, length, arith}
use rsmsg.Base.Text.{Text, codes}
use rsmsg.Base.Utf8.{as_bytes, IsText}
use rsmsg.Crypto.Primitives.{Bytes, Primitives, PrimitiveLaws}
use rsmsg.Crypto.Engine.{good, anyhow, ◌>>=◌, ensure, ratchet_step_b64, decrypt_text_from_b64}
use rsmsg.Crypto.Agreement.{decrypt-encrypt_text}
use rsmsg.Client.Library.{Json, Reads, ClientLibrary}
use rsmsg.Client.Types.{PeerSession}
use rsmsg.Client.Vault.{or_error}
use rsmsg.Client.Ratchet.{
  RatchetEnvelope, u64_mod, next_counter, skip_to, catch_up, seal, open_envelope,
  decrypt_with_session,
}
use rsmsg.Client.Ratchet.Chain.{Follows, chain_key, envelope_of, seal_parts, catch_up-reaches}

-- The session that has read message `n`.
abbrev pub after_read : PeerSession → Text → ℕ → PeerSession
after_read s chain n = record s { recv_chain_key_b64 = chain; recv_counter = next_counter n }

module _ ⦃p : Primitives⦄ ⦃lib : ClientLibrary⦄ (envelopes : Json RatchetEnvelope) where
  -- An envelope of a ratchet goes to the ratchet.
  pub decrypt_ratchet :
      (e : RatchetEnvelope) (s : PeerSession)
      → PrimitiveLaws p
      → Reads envelopes e
      → e.v ≡ 2
      → decrypt_with_session envelopes (p.encode (as_bytes (envelopes.to_string e))) s
        ≡ (catch_up e.counter s >>= open_envelope e)
  unfolding decrypt_with_session or_error ◌>>=◌
  decrypt_ratchet e s laws reads two =
      let decoded = laws.decode-encode (as_bytes (envelopes.to_string e)) in
      let parsed = reads.from-to in ground (arith, decoded, parsed, two)

  -- The message key of an envelope opens it, and the session moves on.
  pub open_lem :
      (e : RatchetEnvelope) (s : PeerSession) (keys : Text × Text) (plaintext : Text)
      → s.recv_counter ≡ e.counter
      → ratchet_step_b64 s.recv_chain_key_b64 ≡ good keys
      → decrypt_text_from_b64 (keys.0) e.envelope_b64 ≡ good plaintext
      → open_envelope e s ≡ good (plaintext, after_read s (keys.1) s.recv_counter)
  unfolding open_envelope ensure ◌>>=◌
  open_lem e s keys plaintext at step opened = ground (arith, at, step, opened)

  -- A text that one client seals in a session is read by its peer, if the sessions have the same shared
  -- key and stand where their counters say, and if the peer has not read this message or a later one:
  -- whatever number of messages before it were lost, the peer gets the text, and waits for the next one.
  pub decrypt-seal :
      (nonce : Bytes) (plaintext sealed : Text) (a a' b : PeerSession)
      → PrimitiveLaws p
      → ((inner : Text) → Reads envelopes (envelope_of a inner))
      → length nonce ≡ 24
      → IsText plaintext
      → Follows a
      → Follows b
      → a.shared_key_b64 ≡ b.shared_key_b64
      → b.recv_counter ≤ a.send_counter
      → a.send_counter < u64_mod
      → seal envelopes nonce plaintext a ≡ good (sealed, a')
      → decrypt_with_session envelopes sealed b
        ≡ good (plaintext, after_read b a'.send_chain_key_b64 a.send_counter)
  unfolding ◌>>=◌
  decrypt-seal nonce plaintext sealed a a' b laws reads size text fa fb same le fits h =
      let parts = seal_parts envelopes nonce plaintext sealed a a' h in
      let keys = parts.0 in
      let e = envelope_of a (parts.1) in
      let there : chain_key a.send_counter b.shared_key_b64 ≡ good a.send_chain_key_b64 =
        ap (chain_key a.send_counter) (sym same) ∙ fa.sends in
      let caught = catch_up-reaches b a.send_counter a.send_chain_key_b64 le fits fb there in
      let opened =
        decrypt-encrypt_text nonce (keys.0) plaintext (parts.1) laws size text (parts.3) in
      let b' = record b {
        recv_chain_key_b64 = a.send_chain_key_b64;
        recv_counter = a.send_counter;
      } in
      let read : open_envelope e b' ≡ good (plaintext, after_read b' (keys.1) a.send_counter) =
        open_lem e b' keys plaintext refl (parts.2) opened in
      let chain : keys.1 ≡ a'.send_chain_key_b64 =
        ap (λ (s : PeerSession). s.send_chain_key_b64) (sym (parts.5)) in
      ap (λ t. decrypt_with_session envelopes t b) (parts.4)
      ∙ decrypt_ratchet e b laws (reads (parts.1)) refl
      ∙ ap (λ r. r >>= open_envelope e) caught
      ∙ read
      ∙ ap (λ c. good (plaintext, after_read b c a.send_counter)) chain

  -- A message that is older than the next one is refused as stale.
  pub decrypt_stale :
      (nonce : Bytes) (plaintext sealed : Text) (a a' b : PeerSession)
      → PrimitiveLaws p
      → ((inner : Text) → Reads envelopes (envelope_of a inner))
      → a.send_counter < b.recv_counter
      → seal envelopes nonce plaintext a ≡ good (sealed, a')
      → decrypt_with_session envelopes sealed b ≡ anyhow (codes "stale ratchet message")
  unfolding catch_up skip_to open_envelope ensure ◌>>=◌
  decrypt_stale nonce plaintext sealed a a' b laws reads old h =
      let parts = seal_parts envelopes nonce plaintext sealed a a' h in
      let e = envelope_of a (parts.1) in
      let ratchet = decrypt_ratchet e b laws (reads (parts.1)) refl in
      let none_left : a.send_counter - b.recv_counter ≡ 0 = omega arith in
      let caught : catch_up a.send_counter b ≡ good b = rw none_left refl in
      let refused : open_envelope e b ≡ anyhow (codes "stale ratchet message") = ground arith in
      ap (λ t. decrypt_with_session envelopes t b) (parts.4)
      ∙ ratchet
      ∙ ap (λ r. r >>= open_envelope e) caught
      ∙ refused
