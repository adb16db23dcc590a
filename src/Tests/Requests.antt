-- ===== src/Tests/Requests.antt =====
-- Requests to the router at concrete inputs.
use rsmsg.Base.{nat_eq, text_eq, ◌≡◌, refl, subst, inl, none, some, [], ◌∷◌, arith, ℕ_discrete}
use rsmsg.Base.Text.{Text, codes}
use rsmsg.Server.Monad.{◌>>=◌, unauthorized, api_error}
use rsmsg.Server.Auth.{authorize_device, Headers}
use rsmsg.Server.History.{run}
use rsmsg.Server.VersionGate
use rsmsg.Server.VersionGate.{
  require_supported_client, parse_digits, parse_u64, first_part, later_parts, next_number, Version,
  parse_version, newer, version_gt,
}
use rsmsg.Server.Handlers.Device
use rsmsg.Server.WellFormed.{WellFormed}
use rsmsg.Server.WellFormed.Keys.{Keyed, run-Consistent}
use rsmsg.Server.Undone.Requests.{serve_error_undone}
use rsmsg.Server.Gate.{Older, Minimum, outdated_turned_away}
use rsmsg.Server.Handlers.Router.{
  dispatch, into_response, Route, device_logout, create_blob, path_of, too_old, serve,
}
use rsmsg.Tests.World.{toy_library, moment, server, check_health, tables-WellFormed, tables-Keyed}

run-Consistent_example :
    WellFormed (run server (check_health ∷ check_health ∷ [])).db
    × Keyed (run server (check_health ∷ check_health ∷ [])).db
run-Consistent_example =
    run-Consistent server (check_health ∷ check_health ∷ []) tables-WellFormed tables-Keyed

abbrev outdated : Headers
outdated = record { device_uuid = none; device_token = none; client_version = some (codes "0.9.9") }

outdated-Older :
    (v : Text)
    → some (codes "0.9.9") ≡ some v
    → Older (parse_version v) (parse_version (codes "1.0.0"))
unfolding parse_version next_number parse_u64 parse_digits first_part later_parts nat_eq ℕ_discrete
outdated-Older v e =
    let same : codes "0.9.9" ≡ v = ground arith in
    subst (λ v. Older (parse_version v) (parse_version (codes "1.0.0"))) same (inl (omega arith))

Minimum-set : Minimum (codes "1.0.0")
unfolding parse_version next_number parse_u64 parse_digits first_part later_parts nat_eq ℕ_discrete
Minimum-set = inl (omega arith)

outdated_turned_away_example :
    serve moment outdated create_blob server
    ≡ (too_old (VersionGate.upgrade_required (codes "1.0.0")), server)
unfolding path_of nat_eq ℕ_discrete text_eq
outdated_turned_away_example =
    outdated_turned_away moment outdated create_blob server refl Minimum-set outdated-Older

-- A logout with a token that is not known.
abbrev stranger : Headers
stranger = record {
  device_uuid = none;
  device_token = some (codes "guess");
  client_version = some (codes "1.2.0");
}

abbrev refused_request : Route
refused_request = device_logout (record { device_uuid = 1011 ∷ [] })

serve_error_undone_example : (serve moment stranger refused_request server).1.db ≡ server.db
unfolding serve into_response dispatch require_supported_client version_gt newer parse_version
    next_number parse_u64 parse_digits first_part later_parts path_of Device.device_logout
    authorize_device ◌>>=◌ nat_eq ℕ_discrete text_eq
serve_error_undone_example =
    serve_error_undone moment stranger refused_request server
      (api_error unauthorized "missing device credentials") (λ a. a) refl
