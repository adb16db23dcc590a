-- ===== src/Client/Types/Address.antt =====
-- crates/client-core/src/types.rs: the addresses of `for_server`.
use rsmsg.Base.{
  ◌≡◌, ◌⊎◌, refl, inl, inr, true, ◌||◌, some, [], ◌∷◌, ◌++◌, nat_eq, Bool-cases, Option-cases,
  arith,
}
use rsmsg.Base.Text.{Text, codes, trim, strip_prefix}
use rsmsg.Client.Types.{
  ClientConfig, for_server, with_scheme, ws_base_of, starts_with, trim_end_slashes,
}

strip_prefix_sound : (prefix s rest : Text) → strip_prefix prefix s ≡ some rest → s ≡ prefix ++ rest
unfolding strip_prefix
strip_prefix_sound [] s rest e = cc
strip_prefix_sound (c ∷ prefix) [] rest e = cc
strip_prefix_sound (c ∷ prefix) (d ∷ s) rest e = ground (arith, strip_prefix_sound prefix s rest)

strip_prefix-append : (prefix rest : Text) → strip_prefix prefix (prefix ++ rest) ≡ some rest
unfolding strip_prefix
strip_prefix-append [] rest = refl
strip_prefix-append (c ∷ prefix) rest = ground (arith, strip_prefix-append prefix rest)

abbrev pub https : Text
https = codes "https://"

abbrev pub http : Text
http = codes "http://"

abbrev pub wss : Text
wss = codes "wss://"

abbrev pub ws : Text
ws = codes "ws://"

abbrev pub Matches : Text → Text → Type 0
Matches http_base ws_base =
    ((rest : Text) × (http_base ≡ https ++ rest) × (ws_base ≡ wss ++ rest))
    ⊎ ((rest : Text) × (http_base ≡ http ++ rest) × (ws_base ≡ ws ++ rest))

-- The two bases of an address that has a scheme.
ws_base-Matches :
    (base : Text)
    → (starts_with http base || starts_with https base) ≡ true
    → Matches base (ws_base_of base)
unfolding ws_base_of
ws_base-Matches base h = elim (Option-cases (strip_prefix https base)) [
  | inr (rest, e) ↦ inl (rest, strip_prefix_sound https base rest e, ground (arith, e))
  | inl no_https ↦ elim (Option-cases (strip_prefix http base)) [
    | inr (rest, e) ↦ inr (rest, strip_prefix_sound http base rest e, ground (arith, no_https, e))
    | inl no_http ↦ absurd (ground (arith, no_https, no_http))
  ]
]

with_scheme_starts :
    (base : Text)
    → (starts_with http (with_scheme base) || starts_with https (with_scheme base)) ≡ true
unfolding with_scheme
with_scheme_starts base = elim (Bool-cases (starts_with http base || starts_with https base)) [
  | inl fine ↦ rw fine fine
  | inr bare ↦ rw bare (ground (arith, strip_prefix-append http base))
]

-- Whatever address is given, the client talks to one server over both: the addresses are those of https
-- and wss, or of http and ws, with the same rest, and the paths of the files are those of the defaults.
pub for_server_lem :
    (local_default : ClientConfig) (server : Text)
    → Matches (for_server local_default server).http_base (for_server local_default server).ws_base
      × ((for_server local_default server).session_store_path ≡ local_default.session_store_path)
      × ((for_server local_default server).key_store_path ≡ local_default.key_store_path)
unfolding for_server
for_server_lem local_default server =
    let base = with_scheme (trim_end_slashes (trim server)) in
    (ws_base-Matches base (with_scheme_starts (trim_end_slashes (trim server))), refl, refl)
