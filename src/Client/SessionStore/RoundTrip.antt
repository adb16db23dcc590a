-- ===== src/Client/SessionStore/RoundTrip.antt =====
-- crates/client-core/src/session_store.rs: the sessions that are saved are loaded again.
use rsmsg.Base.{
  ◌≡◌, ◌≢◌, refl, ◌∙◌, inl, inr, false, Bool, Option, none, some, List, [], ◌∷◌, map, if◌then◌else◌,
  ◌==◌, nat_eq, text_eq, length, insert_by, sort_by, Bool-cases, arith,
}
use rsmsg.Base.Text.{Text}
use rsmsg.Base.Dict.{get, insert, get-insert}
use rsmsg.Crypto.Primitives.{Bytes, Primitives, PrimitiveLaws}
use rsmsg.Crypto.Engine.{good}
use rsmsg.Client.Library.{Json, Reads, ClientLibrary}
use rsmsg.Client.Storage.{Files, Host}
use rsmsg.Client.Types.{PeerSession, StoredPeerSession}
use rsmsg.Client.Vault.{VaultFile}
use rsmsg.Client.Vault.RoundTrip.{load-save_locked}
use rsmsg.Client.SessionStore.{
  Sessions, from_stored, to_stored, collect_from, item_le, stored_items, load, save,
}

-- The keys of a map are distinct.
abbrev pub HasKeys : Sessions → Type 0
HasKeys [] = Unit {0}
HasKeys ((k, v) ∷ m) = (get k m ≡ none) × HasKeys m

-- The session that the items hold for a peer.
lookup_item : Text → List StoredPeerSession → Option PeerSession
lookup_item k [] = none
lookup_item k (s ∷ items) =
    if s.peer_device_uuid == k then some (from_stored s) else lookup_item k items

abbrev HasPeers : List StoredPeerSession → Type 0
HasPeers [] = Unit {0}
HasPeers (s ∷ items) = (lookup_item s.peer_device_uuid items ≡ none) × HasPeers items

lookup_item-to_stored : (k : Text) (m : Sessions) → lookup_item k (map to_stored m) ≡ get k m
unfolding lookup_item to_stored from_stored get
lookup_item-to_stored k [] = refl
lookup_item-to_stored k ((j, v) ∷ m) = ground (arith, lookup_item-to_stored k m)

HasPeers-to_stored : (m : Sessions) → HasKeys m → HasPeers (map to_stored m)
unfolding to_stored
HasPeers-to_stored [] h = tt
HasPeers-to_stored ((k, v) ∷ m) h = (lookup_item-to_stored k m ∙ h.0, HasPeers-to_stored m h.1)

-- A peer that is not among the items but the first is not among the rest, and is not the first.
lookup_item-cons_none :
    (k : Text) (t : StoredPeerSession) (items : List StoredPeerSession)
    → lookup_item k (t ∷ items) ≡ none
    → (lookup_item k items ≡ none) × (t.peer_device_uuid ≢ k)
unfolding lookup_item
lookup_item-cons_none k t items h = (ground arith, λ same. ground arith)

module _ (le : StoredPeerSession → StoredPeerSession → Bool) where
  lookup_item-insert_by :
      (k : Text) (s : StoredPeerSession) (items : List StoredPeerSession)
      → lookup_item s.peer_device_uuid items ≡ none
      → lookup_item k (insert_by le s items)
        ≡ (if s.peer_device_uuid == k then some (from_stored s) else lookup_item k items)
  unfolding lookup_item insert_by
  lookup_item-insert_by k s [] h = refl
  lookup_item-insert_by k s (t ∷ items) h =
      let (fresh, other) = lookup_item-cons_none s.peer_device_uuid t items h in
      let rest = lookup_item-insert_by k s items fresh in
      elim (Bool-cases (le s t)) [
        | inl first ↦ rw first refl
        | inr later ↦ rw later (ground (arith, rest))
      ]

  HasPeers-insert_by :
      (s : StoredPeerSession) (items : List StoredPeerSession)
      → lookup_item s.peer_device_uuid items ≡ none
      → HasPeers items
      → HasPeers (insert_by le s items)
  unfolding insert_by
  HasPeers-insert_by s [] h u = (h, tt)
  HasPeers-insert_by s (t ∷ items) h u =
      let (fresh, other) = lookup_item-cons_none s.peer_device_uuid t items h in
      let there = lookup_item-insert_by t.peer_device_uuid s items fresh in
      elim (Bool-cases (le s t)) [
        | inl first ↦ rw first (h, u)
        | inr later ↦ rw later (ground (arith, there, u.0), HasPeers-insert_by s items fresh u.1)
      ]

  -- Sorting changes no session.
  lookup_item-sort_by :
      (k : Text) (items : List StoredPeerSession)
      → HasPeers items
      → (lookup_item k (sort_by le items) ≡ lookup_item k items) × HasPeers (sort_by le items)
  unfolding lookup_item sort_by
  lookup_item-sort_by k [] h = (refl, tt)
  lookup_item-sort_by k (s ∷ items) h =
      let (there, peers) = lookup_item-sort_by k items h.1 in
      let (own, _) = lookup_item-sort_by s.peer_device_uuid items h.1 in
      let fresh : lookup_item s.peer_device_uuid (sort_by le items) ≡ none = own ∙ h.0 in
      let placed = lookup_item-insert_by k s (sort_by le items) fresh in
      (ground (arith, placed, there), HasPeers-insert_by s (sort_by le items) fresh peers)

get-collect_from :
    (k : Text) (m : Sessions) (items : List StoredPeerSession)
    → HasPeers items
    → get k (collect_from m items)
      ≡ (elim (lookup_item k items) [ some v ↦ some v | none ↦ get k m ])
unfolding lookup_item collect_from
get-collect_from k m [] h = refl
get-collect_from k m (s ∷ items) h =
    let rest = get-collect_from k (insert s.peer_device_uuid (from_stored s) m) items h.1 in
    let placed = get-insert s.peer_device_uuid k (from_stored s) m in
    ground (arith, rest, placed, h.0)

-- What is collected from the items of a map is the map.
pub get-collect_stored :
    (k : Text) (m : Sessions) → HasKeys m → get k (collect_from [] (stored_items m)) ≡ get k m
unfolding stored_items get
get-collect_stored k m h =
    let items = map to_stored m in
    let (sorted, peers) = lookup_item-sort_by item_le k items (HasPeers-to_stored m h) in
    let collected = get-collect_from k [] (sort_by item_le items) peers in
    let stored = lookup_item-to_stored k m in ground (arith, collected, sorted, stored)

module _ ⦃p : Primitives⦄ ⦃lib : ClientLibrary⦄ (vaults : Json VaultFile)
    (j : Json (List StoredPeerSession)) (host : Host) (salt nonce : Bytes) (path : Text)
    (sessions : Sessions) (files files' : Files) where
  -- The sessions that are saved under a password are loaded with it, each peer's as it was, and without
  -- the password no session is loaded.
  pub load-save_sessions :
      (password : Text)
      → PrimitiveLaws p
      → length nonce ≡ 24
      → host.unreadable path ≡ false
      → HasKeys sessions
      → Reads j (stored_items sessions)
      → ((vault : VaultFile) → Reads vaults vault)
      → save vaults j host salt nonce path sessions (some password) files ≡ good files'
      → ((k : Text) → get k (load vaults j host path (some password) files') ≡ get k sessions)
        × (load vaults j host path none files' ≡ [])
  unfolding save load
  load-save_sessions password laws size readable keys reads reads_vault h =
      let (loaded, locked) =
        load-save_locked vaults j host salt nonce path (stored_items sessions) files files' laws
          size readable reads password reads_vault h in
      (λ k. ground (arith, loaded, get-collect_stored k sessions keys), ground (arith, locked))
