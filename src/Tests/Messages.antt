-- ===== src/Tests/Messages.antt =====
-- Messages and prekeys at concrete inputs.
use rsmsg.Base.{
  ◌==◌, nat_eq, text_eq, length, find?, any, filter, update_where, insert_by, sort_by, ℕ, ◌+◌, ◌≤◌,
  ◌≡◌, refl, true, false, none, some, [], ◌∷◌, arith, ℕ_discrete,
}
use rsmsg.Base.Text.{codes}
use rsmsg.Base.Int.{pos, clamp, int_eq}
use rsmsg.Server.State.{Uuid, Bytes, Server}
use rsmsg.Server.Monad.{done, ◌>>=◌, query, after, commit, transaction}
use rsmsg.Server.History.{run}
use rsmsg.Server.Domain.Messaging.{
  bundle_response, fetch_prekey_bundle, check_blocks, send_message, fetch_pending, ack_message,
}
use rsmsg.Server.Domain.Blocking.{refuse_blocked}
use rsmsg.Server.Services.Messages.{mark_all_delivered, pending_item, drain_pending_messages}
use rsmsg.Server.Repository.Devices.{find_device_bundle, device_exists, find_user_id_by_device_uuid}
use rsmsg.Server.Repository.Prekeys.{pick_lowest, consume_one_time_prekey}
use rsmsg.Server.Repository.Messages.{
  insert_message, epoch_ms, pending, fetch_pending_locked, mark_delivered, ack_messages,
}
use rsmsg.Server.Repository.UserBlocks.{block_direction}
use rsmsg.Server.Handout.{prekey_once}
use rsmsg.Server.Delivery.{message_row, MayWrite, send_accepted, accepted_waits}
use rsmsg.Server.Fetching.{item_of, Acked-never_fetched, sent_item, Waiting-fetched}
use rsmsg.Server.Lasting.Messages.{Acked, Waiting, DoesNotAck}
use rsmsg.Shared.Messaging.{
  FetchPrekeyBundleRequest, FetchPrekeyBundleResponse, SendMessageRequest, FetchPendingRequest,
  PendingMessageItem,
}
use rsmsg.Tests.World.{toy_library, toy_uuids, moment, bob, server, check_health, tables-WellFormed}

abbrev bundle_request : FetchPrekeyBundleRequest
bundle_request = record { user_id = bob; device_id = codes "laptop" }

abbrev bundle : ℕ → FetchPrekeyBundleResponse
bundle n = record {
  device_uuid = 1022 ∷ [];
  identity_key_b64 = 5 ∷ [];
  signing_identity_key_b64 = 6 ∷ [];
  signed_prekey_b64 = 7 ∷ [];
  signed_prekey_signature_b64 = 8 ∷ [];
  one_time_prekey = some (record { key_id = pos (70 + n); pubkey_b64 = n ∷ [] });
}

abbrev fetched_once : Server
fetched_once = after (fetch_prekey_bundle bundle_request moment server)

abbrev fetched_twice : Server
fetched_twice = after (fetch_prekey_bundle bundle_request moment fetched_once)

first_bundle : fetch_prekey_bundle bundle_request moment server ≡ done (bundle 1) fetched_once
unfolding fetch_prekey_bundle find_device_bundle consume_one_time_prekey pick_lowest bundle_response
    transaction commit query ◌>>=◌ toy_library nat_eq ℕ_discrete text_eq find? filter update_where
first_bundle = refl

second_bundle :
    fetch_prekey_bundle bundle_request moment (run fetched_once []) ≡ done (bundle 2) fetched_twice
unfolding run fetch_prekey_bundle find_device_bundle consume_one_time_prekey pick_lowest
    bundle_response transaction commit query ◌>>=◌ toy_library nat_eq ℕ_discrete text_eq find?
    filter update_where
second_bundle = refl

prekey_once_example : ¬ (pos 72 ≡ pos 71)
prekey_once_example =
    prekey_once toy_uuids bundle_request moment server (bundle 1) fetched_once
      (record { key_id = pos 71; pubkey_b64 = 1 ∷ [] }) [] bundle_request moment (bundle 2)
      fetched_twice (record { key_id = pos 72; pubkey_b64 = 2 ∷ [] }) tables-WellFormed first_bundle
      refl second_bundle refl refl

abbrev hello : SendMessageRequest
hello = record {
  message_id = codes "m1";
  from_device_uuid = 1011 ∷ [];
  to_device_uuid = 1022 ∷ [];
  envelope_b64 = 42 ∷ [];
}

abbrev sent : Server
sent = after (send_message 11 hello moment server)

hello-sent : send_message 11 hello moment server ≡ done (record { accepted = true }) sent
unfolding send_message check_blocks device_exists find_user_id_by_device_uuid block_direction
    refuse_blocked insert_message query ◌>>=◌ toy_library nat_eq ℕ_discrete text_eq find? any
hello-sent = refl

send_accepted_example :
    (to : Uuid) × (envelope : Bytes) × (id : Uuid) × (toy_library.parse_uuid hello.from_device_uuid
      ≡ some 11)
    × (toy_library.parse_uuid hello.to_device_uuid ≡ some to)
    × (toy_library.decode hello.envelope_b64 ≡ some envelope)
    × MayWrite 11 to server.db
    × (any (λ m. m.message_id == hello.message_id) server.db.messages ≡ false)
    × (sent.db ≡ record server.db {
      messages = message_row id moment.now hello.message_id 11 to envelope ∷ server.db.messages;
    })
send_accepted_example =
    send_accepted 11 hello moment server (record { accepted = true }) sent hello-sent refl

quiet : DoesNotAck hello.message_id 11 22 (42 ∷ []) check_health
quiet ids e acks = acks

accepted_waits_example : Waiting hello.message_id 11 22 (42 ∷ []) (run sent (check_health ∷ [])).db
unfolding toy_library
accepted_waits_example =
    accepted_waits 11 hello moment server (record { accepted = true }) sent 22 (42 ∷ [])
      (check_health ∷ []) hello-sent refl refl refl (quiet, tt)

abbrev laptop_fetch : FetchPendingRequest
laptop_fetch = record { device_uuid = 1022 ∷ []; limit = none }

abbrev hello_item : PendingMessageItem
hello_item = record {
  message_id = codes "m1";
  from_device_uuid = 1011 ∷ [];
  envelope_b64 = 42 ∷ [];
  created_at_unix_ms = pos 100_000;
}

abbrev delivered : Server
delivered = after (fetch_pending 22 laptop_fetch moment sent)

laptop_fetches :
    fetch_pending 22 laptop_fetch moment sent
    ≡ done (record { messages = hello_item ∷ [] }) delivered
unfolding send_message check_blocks device_exists find_user_id_by_device_uuid block_direction
    refuse_blocked insert_message fetch_pending drain_pending_messages fetch_pending_locked pending
    mark_all_delivered mark_delivered pending_item epoch_ms clamp transaction commit query ◌>>=◌
    toy_library nat_eq ℕ_discrete text_eq find? any filter sort_by insert_by update_where
laptop_fetches = refl

Waiting-sent : Waiting (codes "m1") 11 22 (42 ∷ []) sent.db
unfolding send_message check_blocks device_exists find_user_id_by_device_uuid block_direction
    refuse_blocked insert_message query ◌>>=◌ toy_library nat_eq ℕ_discrete text_eq find? any
Waiting-sent = refl

one_waits : length (pending moment 22 sent.db.messages) ≤ clamp 1 500 (pos 100)
unfolding send_message check_blocks device_exists find_user_id_by_device_uuid block_direction
    refuse_blocked insert_message pending clamp query ◌>>=◌ toy_library nat_eq ℕ_discrete text_eq
    find? any filter sort_by insert_by
one_waits = omega arith

Waiting-fetched_example : any (sent_item (codes "m1") 11 (42 ∷ [])) (hello_item ∷ []) ≡ true
Waiting-fetched_example =
    Waiting-fetched (codes "m1") 11 22 (42 ∷ []) laptop_fetch moment sent
      (record { messages = hello_item ∷ [] }) delivered Waiting-sent (λ id. refl) one_waits
      laptop_fetches

abbrev read : Server
read =
    after (
      ack_message 22 (record { device_uuid = 1022 ∷ []; message_ids = codes "m1" ∷ [] }) moment
        sent)

read-Acked : Acked (codes "m1") read.db
unfolding send_message check_blocks device_exists find_user_id_by_device_uuid block_direction
    refuse_blocked insert_message ack_message ack_messages query ◌>>=◌ toy_library nat_eq ℕ_discrete
    text_eq find? any update_where
read-Acked = (refl, ((λ e. refl), tt))

abbrev fetched_nothing : Server
fetched_nothing = after (fetch_pending 22 laptop_fetch moment (run read []))

nothing_left :
    fetch_pending 22 laptop_fetch moment (run read [])
    ≡ done (record { messages = [] }) fetched_nothing
unfolding send_message check_blocks device_exists find_user_id_by_device_uuid block_direction
    refuse_blocked insert_message ack_message ack_messages fetch_pending drain_pending_messages
    fetch_pending_locked pending mark_all_delivered clamp transaction commit query ◌>>=◌ run
    toy_library nat_eq ℕ_discrete text_eq find? any filter sort_by insert_by update_where
nothing_left = refl

Acked-never_fetched_example : any (item_of (codes "m1")) [] ≡ false
Acked-never_fetched_example =
    Acked-never_fetched (codes "m1") read [] 22 laptop_fetch moment (record { messages = [] })
      fetched_nothing read-Acked nothing_left
