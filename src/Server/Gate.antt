-- ===== src/Server/Gate.antt =====
-- The order of versions, and the gate of version_gate.rs in front of the router.
use rsmsg.Base.{
  ◌==◌, nat_eq, text_eq, ℕ_discrete, Bool-cases, Option-cases, ◌<◌, ◌≡◌, refl, sym, subst, ◌⊎◌, inl,
  inr, true, false, not, ◌&&◌, some, arith,
}
use rsmsg.Base.Text.{Text, codes}
use rsmsg.Base.Int.{int_eq}
use rsmsg.Server.State.{Server}
use rsmsg.Server.Monad.{Moment}
use rsmsg.Server.Library.{Library}
use rsmsg.Server.Auth.{Headers}
use rsmsg.Server.VersionGate.{
  parse_digits, parse_u64, first_part, later_parts, next_number, Version, parse_version, newer,
  version_gt, require_supported_client,
}
use rsmsg.Server.Handlers.Router.{Route, path_of, too_old, serve}
use rsmsg.Server.VersionGate

comparable : (u v : Version) → (newer u v ≡ true) ⊎ ((newer v u ≡ true) ⊎ (u ≡ v))
unfolding newer
comparable u v = elim (Bool-cases (newer u v)) [
  | inl e ↦ inl e
  | inr e ↦ elim (Bool-cases (newer v u)) [ inl f ↦ inr (inl f) | inr f ↦ inr (inr (ground arith)) ]
]

-- `newer` is a strict order of which any two versions are comparable: no version is newer than itself,
-- of two versions that differ exactly one is newer, and what is newer than a newer version is newer.
pub newer_order :
    (u v w : Version)
    → (newer u u ≡ false)
      × ((newer u v && newer v u) ≡ false)
      × ((newer u v && newer v w && not (newer u w)) ≡ false)
      × ((newer u v ≡ true) ⊎ ((newer v u ≡ true) ⊎ (u ≡ v)))
unfolding newer
newer_order u v w = (ground arith, ground arith, ground arith, comparable u v)

-- What is older, by the first number that differs.
abbrev pub Older : Version → Version → Type 0
Older v w =
    (v.major < w.major)
    ⊎ ((v.major ≡ w.major) × ((v.minor < w.minor) ⊎ ((v.minor ≡ w.minor) × (v.patch < w.patch))))

Older-newer : (v w : Version) → Older v w → newer w v ≡ true
unfolding newer
Older-newer v w (inl major) = ground arith
Older-newer v w (inr (major, inl minor)) = ground arith
Older-newer v w (inr (major, inr (minor, patch))) = ground arith

Older-version_gt : (v w : Text) → Older (parse_version v) (parse_version w) → version_gt w v ≡ true
unfolding version_gt
Older-version_gt v w old = Older-newer (parse_version v) (parse_version w) old

-- A minimum of which some number is not zero.
abbrev pub Minimum : Text → Type 0
Minimum text = Older (record { major = 0; minor = 0; patch = 0 }) (parse_version text)

zero_version : parse_version (codes "0.0.0") ≡ record { major = 0; minor = 0; patch = 0 }
unfolding parse_version next_number parse_u64 parse_digits first_part later_parts nat_eq ℕ_discrete
zero_version = refl

module _ ⦃lib : Library⦄ where
  -- Where a minimum above 0.0.0 is set, a client that names no version, or one that is older than the
  -- minimum by the first of their three numbers that differs, is turned away from every path but that of
  -- the health check, with the minimum version, and nothing of the server changes.
  pub outdated_turned_away :
      (t : Moment) (headers : Headers) (route : Route) (s : Server)
      → (path_of route == codes "/health") ≡ false
      → Minimum s.min_client_version
      → ((v : Text)
          → headers.client_version ≡ some v
          → Older (parse_version v) (parse_version s.min_client_version))
      → serve t headers route s ≡ (too_old (VersionGate.upgrade_required s.min_client_version), s)
  unfolding serve require_supported_client
  outdated_turned_away t headers route s path set old =
      let minimum =
        Older-version_gt (codes "0.0.0") s.min_client_version
          (subst (λ z. Older z (parse_version s.min_client_version)) (sym zero_version) set) in
      elim (Option-cases headers.client_version) [
        | inl e ↦ ground (arith, e, minimum, path)
        | inr (v, e) ↦
            let gt = Older-version_gt v s.min_client_version (old v e) in
            ground (arith, e, gt, minimum, path)
      ]
