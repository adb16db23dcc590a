-- ===== src/Client/Transport/Socket.antt =====
-- crates/client-core/src/transport.rs: `ws_once`, which reads a WebSocket until it says "ready".
use rsmsg.Base.{true, false, Option, none, some, List, [], ◌∷◌, ◌++◌, ◌==◌, text_eq}
use rsmsg.Base.Text.{Text, codes}
use rsmsg.Base.Utf8.{as_bytes}
use rsmsg.Crypto.Primitives.{Bytes}
use rsmsg.Crypto.Engine.{Result, good, anyhow}
use rsmsg.Shared.Messaging.{PendingMessageItem}
use rsmsg.Client.Types.{ClientConfig, DeviceAuth, PendingEnvelope}
use rsmsg.Client.Library.{ClientLibrary}
use rsmsg.Client.Network.{Headers, SocketMessage, text, ping, close, other, broken, Network}
use rsmsg.Client.Act.{Act, give, lift, fail, ◌>>=◌, ◌>>◌}
use rsmsg.Client.Transport.{Wire, auth_headers}
use rsmsg.Client.Transport.Messages.{to_envelope}

-- What the loop has collected when it ends, or the error with which it returns.
unfoldable pub read_messages :
    (Bytes → Option PendingMessageItem)
    → List PendingEnvelope
    → List SocketMessage
    → Result (List PendingEnvelope)
unfolding to_envelope
read_messages read out [] = good out
read_messages read out (broken e ∷ messages) = anyhow e
read_messages read out (close ∷ messages) = good out
read_messages read out (other ∷ messages) = read_messages read out messages
read_messages read out (ping none ∷ messages) = read_messages read out messages
read_messages read out (ping (some e) ∷ messages) = anyhow e
read_messages read out (text s ∷ messages) = elim (s == codes "ready") [
  | true ↦ good out
  | false ↦ elim (read (as_bytes s)) [
    | none ↦ read_messages read out messages
    | some item ↦ read_messages read (out ++ to_envelope item ∷ []) messages
  ]
]

module _ ⦃lib : ClientLibrary⦄ ⦃net : Network⦄ (cfg : ClientConfig) where
  abbrev pub ws_url : Text
  ws_url = cfg.ws_base ++ codes "/v1/ws"

  unfoldable pub check_address : Act (Wire net.World) (Unit {0})
  unfolding give fail
  check_address = elim (net.bad_address ws_url) [ none ↦ give tt | some e ↦ fail e ]

  unfoldable pub connect : Headers → Act (Wire net.World) (List SocketMessage)
  connect headers w =
      let answer = net.connect ws_url headers w.world in (answer.0, record w { world = answer.1 })

  unfoldable pub ws_once : DeviceAuth → Act (Wire net.World) (List PendingEnvelope)
  unfolding check_address auth_headers connect read_messages ◌>>=◌
  ws_once auth = do
    check_address
    headers ← auth_headers auth
    messages ← connect headers
    lift (read_messages net.pending_item [] messages)
