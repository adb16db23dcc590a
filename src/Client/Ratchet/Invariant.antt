-- ===== src/Client/Ratchet/Invariant.antt =====
-- The sessions of crates/client-core/src/core.rs stand in their streams, whatever they read.
use rsmsg.Base.{
  ℕ, zero, suc, ◌-◌, ◌≤◌, ◌<◌, ◌≡◌, ap, subst, ◌∙◌, inl, inr, some, ltb, ◌==◌, nat_eq, Bool-cases,
  Option-cases, arith,
}
use rsmsg.Base.Text.{Text}
use rsmsg.Crypto.Primitives.{Bytes, Primitives}
use rsmsg.Crypto.Engine.{good, ◌>>=◌, ensure, ratchet_step_b64, decrypt_text_from_b64}
use rsmsg.Crypto.Agreement.{Result-cases}
use rsmsg.Client.Library.{Json, ClientLibrary}
use rsmsg.Client.Types.{PeerSession}
use rsmsg.Client.Vault.{or_error}
use rsmsg.Client.Ratchet.{
  RatchetEnvelope, u64_mod, next_counter, skip, skip_to, catch_up, open_envelope, open_plain,
  decrypt_with_session,
}
use rsmsg.Client.Ratchet.Chain.{Follows, chain_key, chain_key-suc}

module _ ⦃p : Primitives⦄ where
  abbrev pub after_step : PeerSession → Text → PeerSession
  after_step s chain = record s {
    recv_chain_key_b64 = chain;
    recv_counter = next_counter s.recv_counter;
  }

  -- A step of the stream moves the session along.
  after_step-Follows :
      (s : PeerSession) (keys : Text × Text)
      → suc s.recv_counter < u64_mod
      → Follows s
      → ratchet_step_b64 s.recv_chain_key_b64 ≡ good keys
      → Follows (after_step s (keys.1)) × (next_counter s.recv_counter ≡ suc s.recv_counter)
  after_step-Follows s keys fits follows step =
      let count : next_counter s.recv_counter ≡ suc s.recv_counter = ground arith in
      let there = chain_key-suc s.recv_counter s.shared_key_b64 _ keys follows.receives step in
      let moved : chain_key (next_counter s.recv_counter) s.shared_key_b64 ≡ good (keys.1) =
        ap (λ (n : ℕ). chain_key n s.shared_key_b64) count ∙ there in
      (record { sends = follows.sends; receives = moved }, count)

  skip-Follows :
      (s s' : PeerSession)
      → suc s.recv_counter < u64_mod
      → Follows s
      → skip s ≡ good s'
      → Follows s' × (s'.recv_counter ≡ suc s.recv_counter)
  unfolding skip ◌>>=◌
  skip-Follows s s' fits follows h = elim (Result-cases (ratchet_step_b64 s.recv_chain_key_b64)) [
    | inr (m, e) ↦ absurd (ground (arith, e))
    | inl (keys, e) ↦
        let new : after_step s (keys.1) ≡ s' = ground (arith, e) in
        subst (λ t. Follows t × (t.recv_counter ≡ suc s.recv_counter)) new
          (after_step-Follows s keys fits follows e)
  ]

  skip_to-Follows :
      (rounds counter : ℕ) (s s' : PeerSession)
      → counter < u64_mod
      → Follows s
      → skip_to rounds counter s ≡ good s'
      → Follows s' × (s.recv_counter ≤ s'.recv_counter)
  unfolding skip_to ◌>>=◌
  skip_to-Follows zero counter s s' fits follows h =
      let same : s ≡ s' = cc in
      subst (λ t. Follows t × (s.recv_counter ≤ t.recv_counter)) same (follows, omega arith)
  skip_to-Follows (suc rounds) counter s s' fits follows h =
      elim (Bool-cases (ltb s.recv_counter counter)) [
        | inr reached ↦
            let same : s ≡ s' = ground (arith, reached) in
            subst (λ t. Follows t × (s.recv_counter ≤ t.recv_counter)) same (follows, omega arith)
        | inl below ↦ elim (Result-cases (skip s)) [
          | inr (m, e) ↦ absurd (ground (arith, below, e))
          | inl (t, e) ↦
              let one = skip-Follows s t (ground arith) follows e in
              let rest : skip_to rounds counter t ≡ good s' = ground (arith, below, e) in
              let all = skip_to-Follows rounds counter t s' fits (one.0) rest in
              let count = one.1 in let grown = all.1 in (all.0, omega arith)
        ]
      ]

  catch_up-Follows :
      (counter : ℕ) (s s' : PeerSession)
      → counter < u64_mod
      → Follows s
      → catch_up counter s ≡ good s'
      → Follows s' × (s.recv_counter ≤ s'.recv_counter)
  unfolding catch_up
  catch_up-Follows counter s s' = skip_to-Follows (counter - s.recv_counter) counter s s'

  open_plain-Follows :
      (sealed plaintext : Text) (s s' : PeerSession)
      → Follows s
      → open_plain sealed s ≡ good (plaintext, s')
      → Follows s' × (s.recv_counter ≤ s'.recv_counter)
  unfolding open_plain ◌>>=◌
  open_plain-Follows sealed plaintext s s' follows h =
      elim (Result-cases (decrypt_text_from_b64 s.shared_key_b64 sealed)) [
        | inr (m, e) ↦ absurd (ground (arith, e))
        | inl (t, e) ↦
            let same : s ≡ s' = ground (arith, e) in
            subst (λ t. Follows t × (s.recv_counter ≤ t.recv_counter)) same (follows, omega arith)
      ]

  open_envelope-Follows :
      (e : RatchetEnvelope) (s s' : PeerSession) (plaintext : Text)
      → suc e.counter < u64_mod
      → Follows s
      → open_envelope e s ≡ good (plaintext, s')
      → Follows s' × (s'.recv_counter ≡ suc e.counter) × (s.recv_counter ≡ e.counter)
  unfolding open_envelope ensure ◌>>=◌
  open_envelope-Follows e s s' plaintext fits follows h =
      elim (Bool-cases (s.recv_counter == e.counter)) [
        | inr other ↦ absurd (ground (arith, other))
        | inl at ↦ elim (Result-cases (ratchet_step_b64 s.recv_chain_key_b64)) [
          | inr (m, f) ↦ absurd (ground (arith, at, f))
          | inl (keys, f) ↦ elim (Result-cases (decrypt_text_from_b64 (keys.0) e.envelope_b64)) [
            | inr (m, g) ↦ absurd (ground (arith, at, f, g))
            | inl (t, g) ↦
                let new : after_step s (keys.1) ≡ s' = ground (arith, at, f, g) in
                let here : s.recv_counter ≡ e.counter = ground arith in
                let one = after_step-Follows s keys (omega arith) follows f in
                let count = one.1 in
                subst
                  (λ t. Follows t × (t.recv_counter ≡ suc e.counter) × (s.recv_counter ≡ e.counter))
                  new (one.0, omega arith, here)
          ]
        ]
      ]

module _ ⦃p : Primitives⦄ ⦃lib : ClientLibrary⦄ (envelopes : Json RatchetEnvelope) where
  -- The counter of a text, where it has one, is not the last of a `u64`.
  abbrev pub HasRoom : Text → Type 0
  HasRoom sealed =
      (bytes : Bytes) (e : RatchetEnvelope)
      → p.decode sealed ≡ some bytes
      → envelopes.from_slice bytes ≡ some e
      → suc e.counter < u64_mod

  -- An envelope that is read leaves a session that stands where its counters say.
  pub decrypt-Follows :
      (sealed plaintext : Text) (s s' : PeerSession)
      → HasRoom sealed
      → Follows s
      → decrypt_with_session envelopes sealed s ≡ good (plaintext, s')
      → Follows s' × (s.recv_counter ≤ s'.recv_counter)
  unfolding decrypt_with_session or_error ◌>>=◌
  decrypt-Follows sealed plaintext s s' bounded follows h = elim (Option-cases (p.decode sealed)) [
    | inl bad ↦ absurd (ground (arith, bad))
    | inr (bytes, decoded) ↦ elim (Option-cases (envelopes.from_slice bytes)) [
      | inl plain ↦
          open_plain-Follows sealed plaintext s s' follows (ground (arith, decoded, plain))
      | inr (e, parsed) ↦ elim (Bool-cases (e.v == 2)) [
        | inr other ↦
            open_plain-Follows sealed plaintext s s' follows
              (ground (arith, decoded, parsed, other))
        | inl two ↦
            let fits = bounded bytes e decoded parsed in
            elim (Result-cases (catch_up e.counter s)) [
              | inr (m, f) ↦ absurd (ground (arith, decoded, parsed, two, f))
              | inl (t, f) ↦
                  let grown = catch_up-Follows e.counter s t (omega arith) follows f in
                  let le = grown.1 in
                  let opened : open_envelope e t ≡ good (plaintext, s') =
                    ground (arith, decoded, parsed, two, f) in
                  let last = open_envelope-Follows e t s' plaintext fits (grown.0) opened in
                  let count = last.1 in let here = last.2 in (last.0, omega arith)
            ]
      ]
    ]
  ]
