-- ===== src/Server/Devices.antt =====
-- Registering a device and logging it in: handlers/device.rs, domain/device.rs, repository/devices.rs.
use rsmsg.Base.{
  Bool-cases, find?, update_where, ◌≡◌, refl, ap, ◌∙◌, inl, inr, Bool, true, false, none, some,
  List, [], ◌∷◌, arith,
}
use rsmsg.Server.State.{Bytes, Device, Server}
use rsmsg.Server.Monad.{Moment, done, ◌>>=◌, query, after}
use rsmsg.Server.Library.{Library}
use rsmsg.Server.Auth.{Headers}
use rsmsg.Server.VersionGate.{require_supported_client}
use rsmsg.Server.Handlers.Router.{
  register_device, register_device_response, path_of, dispatch, success, into_response, serve,
}
use rsmsg.Server.Handlers.Device
use rsmsg.Server.Domain.Device as Domain
use rsmsg.Server.Repository.Devices.{named, set_keys, upsert_device}
use rsmsg.Shared.Device.{RegisterDeviceRequest}

-- The first device of that name is the one that is updated.
pub find?-renamed :
    (p : Device → Bool) (f : Device → Device) (ds : List Device) (v : Device)
    → ((x : Device) → p (f x) ≡ p x)
    → find? p ds ≡ some v
    → find? p (update_where p f ds) ≡ some (f v)
unfolding find? update_where
find?-renamed p f [] v same e = cc
find?-renamed p f (x ∷ ds) v same e = elim (Bool-cases (p x)) [
  | inl hit ↦
      let head : x ≡ v = ground (arith, hit) in
      let kept : p (f x) ≡ true = same x ∙ hit in rw (hit, kept) (ap (λ y. some (f y)) head)
  | inr miss ↦ ground (arith, miss, find?-renamed p f ds v same)
]

module _ ⦃lib : Library⦄ where
  handler_replaces :
      (headers : Headers) (payload : RegisterDeviceRequest) (t : Moment) (s : Server) (v : Device)
      (identity signing prekey signature : Bytes)
      → lib.decode payload.identity_key_b64 ≡ some identity
      → lib.decode payload.signing_identity_key_b64 ≡ some signing
      → lib.decode payload.signed_prekey_b64 ≡ some prekey
      → lib.decode payload.signed_prekey_signature_b64 ≡ some signature
      → find? (named payload.user_id payload.device_id) s.db.devices ≡ some v
      → t.outage s.calls ≡ false
      → (s' : Server) × (dispatch headers (register_device payload) t s
          ≡ done (register_device_response (record { device_uuid = lib.show_uuid v.id })) s')
        × (find? (named payload.user_id payload.device_id) s'.db.devices
            ≡ some (set_keys identity signing prekey signature v))
  unfolding dispatch Device.register_device Domain.register_device upsert_device query ◌>>=◌
  handler_replaces headers payload t s v identity signing prekey signature a b c d found up = (
    after (Device.register_device payload t s),
    ground (arith, a, b, c, d, found, up),
    ground (
      arith,
      a,
      b,
      c,
      d,
      found,
      up,
      find?-renamed (named payload.user_id payload.device_id)
          (set_keys identity signing prekey signature) s.db.devices v (λ x. refl) found,
    ),
  )

  -- Registering a device under a name that is taken needs no token: with any headers that the version
  -- gate lets pass, where the four keys of the request are base64 and no call of the database fails,
  -- the request is answered by the UUID of the device that has the name, and the keys of that device
  -- are replaced by those of the request.
  pub register_device_replaces :
      (headers : Headers) (payload : RegisterDeviceRequest) (t : Moment) (s : Server) (v : Device)
      (identity signing prekey signature : Bytes)
      → require_supported_client s.min_client_version
          (path_of (register_device payload))
          headers.client_version
        ≡ none
      → lib.decode payload.identity_key_b64 ≡ some identity
      → lib.decode payload.signing_identity_key_b64 ≡ some signing
      → lib.decode payload.signed_prekey_b64 ≡ some prekey
      → lib.decode payload.signed_prekey_signature_b64 ≡ some signature
      → find? (named payload.user_id payload.device_id) s.db.devices ≡ some v
      → t.outage s.calls ≡ false
      → (s' : Server) × (serve t headers (register_device payload) s
          ≡ (success (register_device_response (record { device_uuid = lib.show_uuid v.id })), s'))
        × (find? (named payload.user_id payload.device_id) s'.db.devices
            ≡ some (set_keys identity signing prekey signature v))
  unfolding serve into_response
  register_device_replaces headers payload t s v identity signing prekey signature pass a b c d
        found up =
      let (s', answer, keys) =
        handler_replaces headers payload t s v identity signing prekey signature a b c d found up in
      (s', ground (arith, pass, answer), keys)
