-- ===== src/Client/SessionStore.antt =====
-- crates/client-core/src/session_store.rs: the sessions with the peers, in their file.
pub mod RoundTrip
use rsmsg.Base.{
  ℕ, Bool, true, false, Option, none, some, List, [], ◌∷◌, map, ltb, leb, if◌then◌else◌, unwrap_or,
  sort_by, ◌==◌, nat_eq,
}
use rsmsg.Base.Text.{Text}
use rsmsg.Base.Dict.{insert}
use rsmsg.Crypto.Primitives.{Bytes, Primitives}
use rsmsg.Crypto.Engine.{Result}
use rsmsg.Client.Library.{Json, ClientLibrary}
use rsmsg.Client.Storage.{Files, Host}
use rsmsg.Client.Types.{PeerSession, StoredPeerSession}
use rsmsg.Client.Vault.{VaultFile, load_json, save_json}

-- `HashMap<String, PeerSession>`; the order stands for the one in which it iterates.
abbrev pub Sessions : Type 0
Sessions = List (Text × PeerSession)

unfoldable pub from_stored : StoredPeerSession → PeerSession
from_stored s = record {
  shared_key_b64 = s.shared_key_b64;
  send_chain_key_b64 = unwrap_or s.send_chain_key_b64 s.shared_key_b64;
  recv_chain_key_b64 = unwrap_or s.recv_chain_key_b64 s.shared_key_b64;
  send_counter = s.send_counter;
  recv_counter = s.recv_counter;
}

unfoldable pub to_stored : Text × PeerSession → StoredPeerSession
to_stored (peer_device_uuid, session) = record {
  peer_device_uuid = peer_device_uuid;
  shared_key_b64 = session.shared_key_b64;
  send_chain_key_b64 = some session.send_chain_key_b64;
  recv_chain_key_b64 = some session.recv_chain_key_b64;
  send_counter = session.send_counter;
  recv_counter = session.recv_counter;
}

-- `collect` into a map: a later item with the same key replaces an earlier one.
unfoldable pub collect_from : Sessions → List StoredPeerSession → Sessions
unfolding from_stored
collect_from sessions [] = sessions
collect_from sessions (s ∷ items) =
    collect_from (insert s.peer_device_uuid (from_stored s) sessions) items

-- The order of `String`: that of UTF-8, which is that of the scalar values.
unfoldable pub text_le : Text → Text → Bool
text_le [] t = true
text_le (c ∷ s) [] = false
text_le (c ∷ s) (d ∷ t) = let rest = text_le s t in if c == d then rest else ltb c d

abbrev pub item_le : StoredPeerSession → StoredPeerSession → Bool
item_le a b = text_le a.peer_device_uuid b.peer_device_uuid

-- The items that are saved, in the order of their keys.
unfoldable pub stored_items : Sessions → List StoredPeerSession
unfolding to_stored
stored_items sessions = sort_by item_le (map to_stored sessions)

module _ ⦃p : Primitives⦄ ⦃lib : ClientLibrary⦄ (vaults : Json VaultFile)
    (j : Json (List StoredPeerSession)) (host : Host) where
  unfoldable pub load : Text → Option Text → Files → Sessions
  unfolding load_json collect_from
  load path password files = elim (load_json vaults j host path password files) [
    | none ↦ []
    | some items ↦ collect_from [] items
  ]

  unfoldable pub save : Bytes → Bytes → Text → Sessions → Option Text → Files → Result Files
  unfolding save_json stored_items
  save salt nonce path sessions password files =
      save_json vaults j host salt nonce path (stored_items sessions) password files
