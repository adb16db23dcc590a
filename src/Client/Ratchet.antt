-- ===== src/Client/Ratchet.antt =====
-- The ratchet of crates/client-core/src/core.rs: how a message for a peer is sealed in
-- `send_text_to_peer_with_id`, and how it is read in `decrypt_with_session`.
pub mod Loop
pub mod Chain
pub mod Exchange
pub mod Invariant
use rsmsg.Base.{
  ℕ, zero, suc, ◌+◌, ◌-◌, ◌%◌, ◌^◌, Bool, true, false, Option, none, some, not, ltb, if◌then◌else◌,
  ◌==◌, nat_eq,
}
use rsmsg.Base.Text.{Text, codes}
use rsmsg.Base.Utf8.{as_bytes}
use rsmsg.Crypto.Primitives.{Bytes, Primitives}
use rsmsg.Crypto.Engine.{
  Result, good, anyhow, ◌>>=◌, ◌>>◌, ensure, ratchet_step_b64, encrypt_text_to_b64,
  decrypt_text_from_b64,
}
use rsmsg.Client.Library.{Json, ClientLibrary}
use rsmsg.Client.Types.{PeerSession}
use rsmsg.Client.Vault.{or_error}

pub record RatchetEnvelope : Type 0 where
  pub v : ℕ
  pub counter : ℕ
  pub envelope_b64 : Text

-- `+= 1` on a `u64`.
abbrev pub u64_mod : ℕ
u64_mod = 18446744073709551616

abbrev pub next_counter : ℕ → ℕ
next_counter n = (n + 1) % u64_mod

module _ ⦃p : Primitives⦄ where
  -- The received chain moves on by one message.
  unfoldable pub skip : PeerSession → Result PeerSession
  unfolding ◌>>=◌
  skip session = ratchet_step_b64 session.recv_chain_key_b64 >>= λ keys. good (record session {
    recv_chain_key_b64 = keys.1;
    recv_counter = next_counter session.recv_counter;
  })

  -- The `while` loop, for a number of rounds.
  unfoldable pub skip_to : ℕ → ℕ → PeerSession → Result PeerSession
  unfolding skip ◌>>=◌
  skip_to zero counter session = good session
  skip_to (suc rounds) counter session = elim (ltb session.recv_counter counter) [
    | true ↦ skip session >>= skip_to rounds counter
    | false ↦ good session
  ]

  -- It runs for as many rounds as there are messages before the envelope's.
  unfoldable pub catch_up : ℕ → PeerSession → Result PeerSession
  unfolding skip_to
  catch_up counter session = skip_to (counter - session.recv_counter) counter session

  -- The message of the envelope, once the session has reached its counter.
  unfoldable pub open_envelope : RatchetEnvelope → PeerSession → Result (Text × PeerSession)
  unfolding ensure ◌>>=◌
  open_envelope envelope session = do
    ensure (session.recv_counter == envelope.counter) "stale ratchet message"
    keys ← ratchet_step_b64 session.recv_chain_key_b64
    plaintext ← decrypt_text_from_b64 (keys.0) envelope.envelope_b64
    good (
      plaintext,
      record session {
        recv_chain_key_b64 = keys.1;
        recv_counter = next_counter session.recv_counter;
      },
    )

  -- A message without a ratchet, under the shared key.
  unfoldable pub open_plain : Text → PeerSession → Result (Text × PeerSession)
  unfolding ◌>>=◌
  open_plain envelope_b64 session = do
    plaintext ← decrypt_text_from_b64 session.shared_key_b64 envelope_b64
    good (plaintext, session)

module _ ⦃p : Primitives⦄ (envelopes : Json RatchetEnvelope) where
  -- The sealed text, and the session that has moved on.
  unfoldable pub seal : Bytes → Text → PeerSession → Result (Text × PeerSession)
  unfolding ◌>>=◌
  seal nonce plaintext session = ratchet_step_b64 session.send_chain_key_b64 >>= λ keys.
      encrypt_text_to_b64 nonce (keys.0) plaintext >>= λ inner. good (
        p.encode (
            as_bytes (
              envelopes.to_string
                (record { v = 2; counter = session.send_counter; envelope_b64 = inner }))),
        record session {
          send_chain_key_b64 = keys.1;
          send_counter = next_counter session.send_counter;
        },
      )

module _ ⦃p : Primitives⦄ ⦃lib : ClientLibrary⦄ (envelopes : Json RatchetEnvelope) where
  -- What `decrypt_with_session` returns, and the session that it leaves: where it fails, the old one.
  unfoldable pub decrypt_with_session : Text → PeerSession → Result (Text × PeerSession)
  unfolding or_error catch_up open_envelope open_plain ◌>>=◌
  decrypt_with_session envelope_b64 session =
      or_error (p.decode envelope_b64) lib.decode_error >>= λ decoded.
      elim (envelopes.from_slice decoded) [
        | none ↦ open_plain envelope_b64 session
        | some envelope ↦ elim (envelope.v == 2) [
          | true ↦ catch_up envelope.counter session >>= open_envelope envelope
          | false ↦ open_plain envelope_b64 session
        ]
      ]
