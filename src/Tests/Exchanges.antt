-- ===== src/Tests/Exchanges.antt =====
-- Sessions of two clients at concrete inputs.
use rsmsg.Base.{
  ℕ, ◌≡◌, refl, ap, sym, subst, ◌∙◌, inl, inr, Bool-cases, Option, none, some, [], ◌∷◌, ◌++◌, ◌==◌,
  nat_eq, text_eq, ℕ_discrete, arith,
}
use rsmsg.Base.Text.{Text, codes}
use rsmsg.Base.Int.{pos}
use rsmsg.Base.Utf8.{as_bytes}
use rsmsg.Base.Dict.{get}
use rsmsg.Crypto.Primitives.{Bytes}
use rsmsg.Crypto.Engine.{
  good, anyhow, ◌>>=◌, or_anyhow, ensure, decode_key, ratchet_step_b64, encrypt_text_to_b64,
  encrypt_bytes_to_b64, encrypt_bytes,
}
use rsmsg.Client.Types.{PeerSession, PendingEnvelope}
use rsmsg.Client.Ratchet.{RatchetEnvelope, seal, catch_up, decrypt_with_session}
use rsmsg.Client.Ratchet.Chain.{Follows, chain_key, catch_up-reaches, envelope_of}
use rsmsg.Client.Ratchet.Exchange.{decrypt_stale}
use rsmsg.Client.Ratchet.Invariant.{HasRoom}
use rsmsg.Client.Core.{ClientCore}
use rsmsg.Client.Core.Peers.{new_session}
use rsmsg.Client.Core.Receiving.{decrypted, decrypt_pending_with_sessions}
use rsmsg.Client.Core.Reading.{Sends, quiet, lost, arrives, Delivery-read}
use rsmsg.Client.Core.Sending.{send_text_to_peer_with_id}
use rsmsg.Client.Core.Moves.{send_text_moves_on}
use rsmsg.Client.Core.Standing.{AllFollow, here, next, reads, Reach-AllFollow}
use rsmsg.Tests.Clients.{
  repeat, unary, encode_envelope, decode_envelope, toy_envelopes, toy-Reads, toy_lib, toy_net,
  setup, auth,
}
use rsmsg.Tests.Crypto.{toy_primitives, toy_laws, key, nonce}

abbrev chain : Bytes
chain = repeat 32 18

-- A session in which `n` messages, one or more, have been sent.
abbrev sent : ℕ → PeerSession
sent n = record {
  shared_key_b64 = key;
  send_chain_key_b64 = chain;
  recv_chain_key_b64 = key;
  send_counter = n;
  recv_counter = 0;
}

abbrev envelope : ℕ → Text → RatchetEnvelope
envelope n plaintext = record { v = 2; counter = n; envelope_b64 = nonce ++ (nonce ++ plaintext) }

abbrev sealed : ℕ → Text → Text
sealed n plaintext = as_bytes (unary (encode_envelope (envelope n plaintext)))

sends_first : Sends toy_envelopes (new_session key) (sent 1) (codes "one") (sealed 0 (codes "one"))
unfolding seal ratchet_step_b64 encrypt_text_to_b64 encrypt_bytes_to_b64 encrypt_bytes decode_key
    or_anyhow ensure ◌>>=◌ toy_primitives as_bytes nat_eq ℕ_discrete
sends_first = record {
  nonce = nonce;
  nonce_size = refl;
  is_text = (refl, (refl, (refl, tt)));
  room = omega arith;
  seals = refl;
}

sends_second : Sends toy_envelopes (sent 1) (sent 2) (codes "two") (sealed 1 (codes "two"))
unfolding seal ratchet_step_b64 encrypt_text_to_b64 encrypt_bytes_to_b64 encrypt_bytes decode_key
    or_anyhow ensure ◌>>=◌ toy_primitives as_bytes nat_eq ℕ_discrete
sends_second = record {
  nonce = nonce;
  nonce_size = refl;
  is_text = (refl, (refl, (refl, tt)));
  room = omega arith;
  seals = refl;
}

abbrev item : PendingEnvelope
item = record {
  message_id = codes "m2";
  from_device_uuid = codes "peer";
  envelope_b64 = sealed 1 (codes "two");
  created_at_unix_ms = pos 5;
}

abbrev client : ClientCore Bytes
client = record {
  local_password = none;
  peer_sessions = (codes "peer", new_session key) ∷ [];
  files = [];
  wire = record { world = []; seen = [] };
  draws = 0;
}

new_session-Follows : Follows (new_session key)
unfolding chain_key
new_session-Follows = record { sends = refl; receives = refl }

found : get (codes "peer") client.peer_sessions ≡ some (new_session key)
unfolding get text_eq ℕ_discrete
found = refl

-- The first of two texts is lost, and the second is read.
Delivery-read_example :
    (decrypt_pending_with_sessions setup (item ∷ []) client).0
    ≡ good (decrypted item (codes "two") ∷ [], codes "m2" ∷ [])
Delivery-read_example =
    Delivery-read setup (codes "peer") (new_session key) (new_session key) (item ∷ [])
      (decrypted item (codes "two") ∷ []) client toy_laws
      (λ t inner. toy-Reads encode_envelope decode_envelope (envelope_of t inner) refl)
      (lost (new_session key) (sent 1) (codes "one") (sealed 0 (codes "one")) sends_first (
        arrives (sent 1) (sent 2) (codes "two") (sealed 1 (codes "two")) item sends_second refl refl
          (quiet (sent 2))))
      new_session-Follows new_session-Follows refl (omega arith) found

abbrev ahead : PeerSession
ahead = record {
  shared_key_b64 = key;
  send_chain_key_b64 = key;
  recv_chain_key_b64 = chain;
  send_counter = 0;
  recv_counter = 5;
}

decrypt_stale_example :
    decrypt_with_session toy_envelopes (sealed 1 (codes "two")) ahead
    ≡ anyhow (codes "stale ratchet message")
unfolding sends_second
decrypt_stale_example =
    decrypt_stale toy_envelopes nonce (codes "two") (sealed 1 (codes "two")) (sent 1) (sent 2) ahead
      toy_laws
      (λ inner. toy-Reads encode_envelope decode_envelope (envelope_of (sent 1) inner) refl)
      (omega arith) (sends_second.seals)

third_chain : chain_key 3 key ≡ good chain
unfolding chain_key ratchet_step_b64 decode_key or_anyhow ensure ◌>>=◌ toy_primitives nat_eq
    ℕ_discrete
third_chain = refl

catch_up-reaches_example :
    catch_up 3 (new_session key)
    ≡ good (record (new_session key) { recv_chain_key_b64 = chain; recv_counter = 3 })
catch_up-reaches_example =
    catch_up-reaches (new_session key) 3 chain (omega arith) (omega arith) new_session-Follows
      third_chain

-- The session has moved on, though there is no route for messages.
send_text_moves_on_example :
    get
      (codes "peer")
      (send_text_to_peer_with_id setup auth
        (codes "peer")
        (codes "one")
        (codes "m1")
        client).1.peer_sessions
    ≡ some (sent 1)
unfolding seal ratchet_step_b64 encrypt_text_to_b64 encrypt_bytes_to_b64 encrypt_bytes decode_key
    or_anyhow ensure ◌>>=◌ toy_primitives as_bytes nat_eq text_eq ℕ_discrete
send_text_moves_on_example =
    send_text_moves_on setup auth (codes "peer") (codes "one") (codes "m1") client (new_session key)
      (sent 1) (sealed 0 (codes "one")) (codes "peer") found refl

start : AllFollow client.peer_sessions
unfolding get
start k t there = elim (Bool-cases (codes "peer" == k)) [
  | inl same ↦
      let here : new_session key ≡ t = ground (arith, same) in
      subst Follows here new_session-Follows
  | inr other ↦ absurd (ground (arith, other))
]

-- The item counts one message.
item_room : HasRoom toy_envelopes item.envelope_b64
unfolding toy_primitives
item_room bytes e decoded parsed =
    let back =
      (toy-Reads encode_envelope decode_envelope (envelope 1 (codes "two")) refl).from-to in
    let same : bytes ≡ sealed 1 (codes "two") = cc in
    let path : ◌≡◌ {A = Option RatchetEnvelope} (some e) (some (envelope 1 (codes "two"))) =
      sym parsed ∙ ap toy_envelopes.from_slice same ∙ back in
    let one : e ≡ envelope 1 (codes "two") = cc in
    let count : e.counter ≡ 1 = ap (λ (r : RatchetEnvelope). r.counter) one in omega arith

Reach-AllFollow_example :
    AllFollow (decrypt_pending_with_sessions setup (item ∷ []) client).1.peer_sessions
Reach-AllFollow_example =
    Reach-AllFollow setup start (next here (reads (item ∷ []) client (item_room, tt)))
