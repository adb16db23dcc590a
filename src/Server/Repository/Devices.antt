-- ===== src/Server/Repository/Devices.antt =====
-- crates/server/src/repository/devices.rs
use rsmsg.Base.{
  if◌then◌else◌, ◌==◌, nat_eq, text_eq, find?, any, update_where, Bool, ◌&&◌, Option, none, some,
  ◌∷◌,
}
use rsmsg.Base.Text.{Text}
use rsmsg.Base.Int.{int_eq}
use rsmsg.Server.State.{Uuid, Bytes, Device, Database}
use rsmsg.Server.Monad.{Query}

abbrev pub named : Text → Text → Device → Bool
named user_id device_id v = v.user_id == user_id && v.device_id == device_id

abbrev pub has_device : Uuid → Database → Bool
has_device device_uuid d = any (λ v. v.id == device_uuid) d.devices

abbrev pub set_keys : Bytes → Bytes → Bytes → Bytes → Device → Device
set_keys identity signing prekey signature v = record v {
  identity_key = identity;
  signing_identity_key = signing;
  signed_prekey = prekey;
  signed_prekey_signature = signature;
}

-- The keys of one row are replaced, or a row is added under a new id. An id that is taken violates
-- the primary key.
unfoldable pub upsert_device : Text → Text → Bytes → Bytes → Bytes → Bytes → Query Uuid
upsert_device user_id device_id identity signing prekey signature t n d =
    elim (find? (named user_id device_id) d.devices) [
      | some old ↦ some (
        old.id,
        record d {
          devices =
              update_where (named user_id device_id) (set_keys identity signing prekey signature)
                d.devices;
        },
      )
      | none ↦
          if has_device (t.fresh n) d
          then none
          else some (
            t.fresh n,
            record d {
              devices =
                  record {
                    id = t.fresh n;
                    user_id = user_id;
                    device_id = device_id;
                    identity_key = identity;
                    signing_identity_key = signing;
                    signed_prekey = prekey;
                    signed_prekey_signature = signature;
                  }
                  ∷ d.devices;
            },
          )
    ]

unfoldable pub find_device_uuid : Text → Text → Query (Option Uuid)
find_device_uuid user_id device_id t n d = elim (find? (named user_id device_id) d.devices) [
  | none ↦ some (none, d)
  | some v ↦ some (some v.id, d)
]

-- The id and the four keys.
abbrev pub Bundle : Type 0
Bundle = Uuid × Bytes × Bytes × Bytes × Bytes

unfoldable pub find_device_bundle : Text → Text → Query (Option Bundle)
find_device_bundle user_id device_id t n d = elim (find? (named user_id device_id) d.devices) [
  | none ↦ some (none, d)
  | some v ↦ some (
    some (v.id, v.identity_key, v.signing_identity_key, v.signed_prekey, v.signed_prekey_signature),
    d,
  )
]

unfoldable pub device_exists : Uuid → Query Bool
device_exists device_uuid t n d = some (has_device device_uuid d, d)

abbrev pub owner_of : Uuid → Database → Option Text
owner_of device_uuid d = elim (find? (λ v. v.id == device_uuid) d.devices) [
  | none ↦ none
  | some v ↦ some v.user_id
]

unfoldable pub find_user_id_by_device_uuid : Uuid → Query (Option Text)
find_user_id_by_device_uuid device_uuid t n d = some (owner_of device_uuid d, d)
