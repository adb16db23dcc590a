-- ===== src/Client/Ratchet/Chain.antt =====
-- The keys of the ratchet as a stream from the shared key, which the sessions of
-- crates/client-core/src/core.rs follow.
use rsmsg.Base.{ℕ, zero, suc, ◌+◌, ◌-◌, ◌≤◌, ◌<◌, ◌≡◌, ap, subst, ◌∙◌, sym, inl, inr, arith}
use rsmsg.Base.Text.{Text}
use rsmsg.Base.Utf8.{as_bytes}
use rsmsg.Crypto.Primitives.{Bytes, Primitives}
use rsmsg.Crypto.Engine.{Result, good, ◌>>=◌, ratchet_step_b64, encrypt_text_to_b64}
use rsmsg.Crypto.Agreement.{Result-cases}
use rsmsg.Client.Library.{Json}
use rsmsg.Client.Types.{PeerSession}
use rsmsg.Client.Ratchet.{RatchetEnvelope, u64_mod, next_counter, skip, skip_to, catch_up, seal}

module _ ⦃p : Primitives⦄ where
  -- The chain key after `n` messages.
  unfoldable pub chain_key : ℕ → Text → Result Text
  unfolding ◌>>=◌
  chain_key zero shared = good shared
  chain_key (suc n) shared =
      chain_key n shared >>= λ chain. ratchet_step_b64 chain >>= λ keys. good (keys.1)

  -- The key of message `n`.
  unfoldable pub message_key : ℕ → Text → Result Text
  unfolding chain_key ◌>>=◌
  message_key n shared =
      chain_key n shared >>= λ chain. ratchet_step_b64 chain >>= λ keys. good (keys.0)

  -- A session that stands in its two streams where its counters say.
  pub record Follows (s : PeerSession) : Type 0 where
    pub sends : chain_key s.send_counter s.shared_key_b64 ≡ good s.send_chain_key_b64
    pub receives : chain_key s.recv_counter s.shared_key_b64 ≡ good s.recv_chain_key_b64

  pub chain_key-suc :
      (n : ℕ) (shared chain : Text) (keys : Text × Text)
      → chain_key n shared ≡ good chain
      → ratchet_step_b64 chain ≡ good keys
      → chain_key (suc n) shared ≡ good (keys.1)
  unfolding chain_key ◌>>=◌
  chain_key-suc n shared chain keys e f = ground (arith, e, f)

  -- A stream that has a chain key has all that stand before it.
  chain_key-step :
      (n : ℕ) (shared last : Text)
      → chain_key (suc n) shared ≡ good last
      → (chain : Text) × (keys : Text × Text) × (chain_key n shared ≡ good chain)
        × (ratchet_step_b64 chain ≡ good keys)
        × (last ≡ keys.1)
  unfolding chain_key ◌>>=◌
  chain_key-step n shared last h = elim (Result-cases (chain_key n shared)) [
    | inr (m, e) ↦ absurd (ground (arith, e))
    | inl (chain, e) ↦ elim (Result-cases (ratchet_step_b64 chain)) [
      | inr (m, f) ↦ absurd (ground (arith, e, f))
      | inl (keys, f) ↦ (chain, keys, e, f, ground (arith, e, f))
    ]
  ]

  pub chain_key-before :
      (d n : ℕ) (shared last : Text)
      → chain_key (d + n) shared ≡ good last
      → (chain : Text) × (chain_key n shared ≡ good chain)
  chain_key-before zero n shared last h =
      (last, subst (λ (k : ℕ). chain_key k shared ≡ good last) (omega arith) h)
  chain_key-before (suc d) n shared last h =
      let moved : chain_key (suc (d + n)) shared ≡ good last =
        subst (λ (k : ℕ). chain_key k shared ≡ good last) (omega arith) h in
      let one = chain_key-step (d + n) shared last moved in chain_key-before d n shared one.0 one.2

  -- One round moves a session along its stream, where the stream goes on.
  pub skip_lem :
      (s : PeerSession) (next : Text)
      → suc s.recv_counter < u64_mod
      → chain_key s.recv_counter s.shared_key_b64 ≡ good s.recv_chain_key_b64
      → chain_key (suc s.recv_counter) s.shared_key_b64 ≡ good next
      → skip s ≡ good (record s { recv_chain_key_b64 = next; recv_counter = suc s.recv_counter })
  unfolding skip ◌>>=◌
  skip_lem s next fits here there =
      let one = chain_key-step s.recv_counter s.shared_key_b64 next there in
      let same : ◌≡◌ {A = Result Text} (good s.recv_chain_key_b64) (good (one.0)) =
        sym here ∙ one.2 in
      let chain : s.recv_chain_key_b64 ≡ one.0 = cc in
      let step : ratchet_step_b64 s.recv_chain_key_b64 ≡ good (one.1) =
        ap ratchet_step_b64 chain ∙ one.3 in
      let last : next ≡ (one.1).1 = one.4 in ground (arith, step, last)

  -- The messages before one's own are skipped, whatever was lost of them.
  pub skip_to-reaches :
      (rounds : ℕ) (s : PeerSession) (n : ℕ) (chain : Text)
      → s.recv_counter + rounds ≡ n
      → n < u64_mod
      → chain_key s.recv_counter s.shared_key_b64 ≡ good s.recv_chain_key_b64
      → chain_key n s.shared_key_b64 ≡ good chain
      → skip_to rounds n s ≡ good (record s { recv_chain_key_b64 = chain; recv_counter = n })
  unfolding skip_to
  skip_to-reaches zero s n chain e fits here there =
      let same : s.recv_counter ≡ n = omega arith in
      let moved : chain_key s.recv_counter s.shared_key_b64 ≡ good chain =
        ap (λ (k : ℕ). chain_key k s.shared_key_b64) same ∙ there in
      ground (arith, here, moved)
  skip_to-reaches (suc rounds) s n chain e fits here there =
      let ahead : rounds + suc s.recv_counter ≡ n = omega arith in
      let last : chain_key (rounds + suc s.recv_counter) s.shared_key_b64 ≡ good chain =
        ap (λ (k : ℕ). chain_key k s.shared_key_b64) ahead ∙ there in
      let before = chain_key-before rounds (suc s.recv_counter) s.shared_key_b64 chain last in
      let moved = record s { recv_chain_key_b64 = before.0; recv_counter = suc s.recv_counter } in
      let skipped : skip s ≡ good moved = skip_lem s (before.0) (omega arith) here (before.1) in
      let rest = skip_to-reaches rounds moved n chain (omega arith) fits (before.1) there in
      ground (arith, skipped, rest)

  -- The skipping of messages ends, and it ends where it should: a session that stands where its counters
  -- say, and that is not past the counter of an envelope, which fits a `u64`, reaches that counter, with
  -- the chain key that the stream from the shared key has there, if it goes so far. Nothing else of the
  -- session changes.
  pub catch_up-reaches :
      (s : PeerSession) (n : ℕ) (chain : Text)
      → s.recv_counter ≤ n
      → n < u64_mod
      → Follows s
      → chain_key n s.shared_key_b64 ≡ good chain
      → catch_up n s ≡ good (record s { recv_chain_key_b64 = chain; recv_counter = n })
  unfolding catch_up
  catch_up-reaches s n chain le fits follows there =
      skip_to-reaches (n - s.recv_counter) s n chain (omega arith) fits follows.receives there

  abbrev pub envelope_of : PeerSession → Text → RatchetEnvelope
  envelope_of s inner = record { v = 2; counter = s.send_counter; envelope_b64 = inner }

  abbrev pub after_seal : PeerSession → Text → PeerSession
  after_seal s chain = record s {
    send_chain_key_b64 = chain;
    send_counter = next_counter s.send_counter;
  }

  -- What has been made of a text that is sealed.
  pub seal_parts :
      (envelopes : Json RatchetEnvelope) (nonce : Bytes) (plaintext sealed : Text)
      (s s' : PeerSession)
      → seal envelopes nonce plaintext s ≡ good (sealed, s')
      → (keys : Text × Text) × (inner : Text) × (ratchet_step_b64 s.send_chain_key_b64 ≡ good keys)
        × (encrypt_text_to_b64 nonce (keys.0) plaintext ≡ good inner)
        × (sealed ≡ p.encode (as_bytes (envelopes.to_string (envelope_of s inner))))
        × (s' ≡ after_seal s (keys.1))
  unfolding seal ◌>>=◌
  seal_parts envelopes nonce plaintext sealed s s' h =
      elim (Result-cases (ratchet_step_b64 s.send_chain_key_b64)) [
        | inr (m, e) ↦ absurd (ground (arith, e))
        | inl (keys, e) ↦ elim (Result-cases (encrypt_text_to_b64 nonce (keys.0) plaintext)) [
          | inr (m, f) ↦ absurd (ground (arith, e, f))
          | inl (inner, f) ↦ (keys, inner, e, f, ground (arith, e, f), ground (arith, e, f))
        ]
      ]

  -- A session that has sent one more text stands one further in its stream.
  pub seal-Follows :
      (envelopes : Json RatchetEnvelope) (nonce : Bytes) (plaintext sealed : Text)
      (s s' : PeerSession)
      → suc s.send_counter < u64_mod
      → Follows s
      → seal envelopes nonce plaintext s ≡ good (sealed, s')
      → Follows s' × (s'.send_counter ≡ suc s.send_counter)
  seal-Follows envelopes nonce plaintext sealed s s' fits follows h =
      let parts = seal_parts envelopes nonce plaintext sealed s s' h in
      let keys = parts.0 in
      let count : next_counter s.send_counter ≡ suc s.send_counter = ground arith in
      let there = chain_key-suc s.send_counter s.shared_key_b64 _ keys follows.sends (parts.2) in
      let moved : chain_key (next_counter s.send_counter) s.shared_key_b64 ≡ good (keys.1) =
        ap (λ (n : ℕ). chain_key n s.shared_key_b64) count ∙ there in
      subst (λ t. Follows t × (t.send_counter ≡ suc s.send_counter)) (sym (parts.5))
        (record { sends = moved; receives = follows.receives }, count)
