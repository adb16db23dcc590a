-- ===== src/Tests/Stores.antt =====
-- What clients keep, at concrete inputs.
use rsmsg.Base.{◌≡◌, refl, none, some, List, [], ◌∷◌, ◌++◌, nat_eq, text_eq, ℕ_discrete}
use rsmsg.Base.Text.{Text, codes}
use rsmsg.Base.Utf8.{as_bytes}
use rsmsg.Base.Dict.{get, insert}
use rsmsg.Crypto.Engine.{◌>>=◌, or_anyhow}
use rsmsg.Client.Types.{StoredPeerSession}
use rsmsg.Client.Library.{Json, Reads}
use rsmsg.Client.Storage.{Files}
use rsmsg.Client.Vault.{VaultFile, save_json}
use rsmsg.Client.SessionStore.{Sessions, stored_items, load, save}
use rsmsg.Client.SessionStore.RoundTrip.{load-save_sessions}
use rsmsg.Client.Core.Peers.{new_session}
use rsmsg.Tests.Clients.{repeat, toy_vaults, toy_vault-Reads, single, toy_lib, open_host}
use rsmsg.Tests.Crypto.{toy_primitives, toy_laws, key, nonce}

abbrev kept : Sessions
kept = (codes "b", new_session key) ∷ (codes "a", new_session key) ∷ []

abbrev sessions_json : Json (List StoredPeerSession)
sessions_json = single (codes "[]") (stored_items kept)

sessions_read : Reads sessions_json (stored_items kept)
unfolding as_bytes text_eq ℕ_discrete
sessions_read = record { from-to = refl; from-to_pretty = refl; pretty_text = (refl, (refl, tt)) }

abbrev vault : VaultFile
vault = record {
  version = 1;
  salt_b64 = repeat 16 9;
  nonce_b64 = nonce;
  ciphertext_b64 = nonce ++ codes "[]";
}

abbrev saved : Files
saved = (codes "sessions", as_bytes (toy_vaults.to_string_pretty vault)) ∷ []

load-save_sessions_example :
    ((k : Text)
      → get k (load toy_vaults sessions_json open_host (codes "sessions") (some (codes "pw")) saved)
        ≡ get k kept)
    × (load toy_vaults sessions_json open_host (codes "sessions") none saved ≡ [])
unfolding save save_json or_anyhow ◌>>=◌ toy_primitives as_bytes insert get text_eq ℕ_discrete
load-save_sessions_example =
    load-save_sessions toy_vaults sessions_json open_host (repeat 16 9) nonce (codes "sessions")
      kept [] saved (codes "pw") toy_laws refl refl (refl, (refl, tt)) sessions_read toy_vault-Reads
      refl
