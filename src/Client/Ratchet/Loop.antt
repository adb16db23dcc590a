-- ===== src/Client/Ratchet/Loop.antt =====
-- The loop of `decrypt_with_session` in crates/client-core/src/core.rs: that its rounds suffice.
use rsmsg.Base.{ℕ, suc, ◌-◌, ◌<◌, ◌≡◌, inl, inr, ltb, if◌then◌else◌, Bool-cases, arith}
use rsmsg.Crypto.Primitives.{Primitives}
use rsmsg.Crypto.Engine.{good, ◌>>=◌, ratchet_step_b64}
use rsmsg.Crypto.Agreement.{Result-cases}
use rsmsg.Client.Types.{PeerSession}
use rsmsg.Client.Ratchet.{u64_mod, next_counter, skip, skip_to, catch_up}

module _ ⦃p : Primitives⦄ where
  -- A round that succeeds counts one message.
  pub skip_counter :
      (s s' : PeerSession) → skip s ≡ good s' → s'.recv_counter ≡ next_counter s.recv_counter
  unfolding skip ◌>>=◌
  skip_counter s s' h = elim (Result-cases (ratchet_step_b64 s.recv_chain_key_b64)) [
    | inl (keys, e) ↦ ground (arith, e)
    | inr (m, e) ↦ absurd (ground (arith, e))
  ]

  -- The `while` loop of the source is reached by its rounds, so no bound on them shows: while the
  -- counter of the session is below that of the envelope, which fits a `u64`, the chain moves on by
  -- one message and the loop goes on; it stops with the first error, and otherwise as soon as the
  -- counter is reached.
  pub catch_up_loop :
      (counter : ℕ) (s : PeerSession)
      → counter < u64_mod
      → catch_up counter s
        ≡ (if ltb s.recv_counter counter then skip s >>= catch_up counter else good s)
  unfolding catch_up skip_to
  catch_up_loop counter s fits = elim (Bool-cases (ltb s.recv_counter counter)) [
    | inr reached ↦
        let left : counter - s.recv_counter ≡ 0 = ground arith in rw left (ground (arith, reached))
    | inl below ↦
        let rounds : counter - s.recv_counter ≡ suc (counter - s.recv_counter - 1) = ground arith in
        elim (Result-cases (skip s)) [
          | inr (m, e) ↦ rw rounds (ground (arith, below, e))
          | inl (s', e) ↦
              let counted = skip_counter s s' e in
              let left : counter - s.recv_counter - 1 ≡ counter - s'.recv_counter = ground arith in
              rw rounds (ground (arith, below, e, left))
        ]
  ]
