-- ===== src/Server/Publishing.antt =====
-- The keys that a device registers are those of its bundle: domain/device.rs and domain/messaging.rs.
use rsmsg.Base.{ℕ, Bool-cases, Option-cases, find?, ◌≡◌, refl, ap, sym, ◌∙◌, inl, inr, some, arith}
use rsmsg.Base.Text.{Text}
use rsmsg.Server.State.{Uuid, Bytes, Device, Database, Server}
use rsmsg.Server.Monad.{Moment, done, pure}
use rsmsg.Server.Monad.Done.{ok_or_then, query_then, transaction_done}
use rsmsg.Server.Library.{Library}
use rsmsg.Server.Repository.Devices.{
  Bundle, named, has_device, set_keys, upsert_device, find_device_bundle,
}
use rsmsg.Server.Devices.{find?-renamed}
use rsmsg.Server.Domain.Device.{register_device}
use rsmsg.Server.Domain.Messaging.{bundle_response, fetch_prekey_bundle}
use rsmsg.Shared.Device.{RegisterDeviceRequest, RegisterDeviceResponse}
use rsmsg.Shared.Messaging.{FetchPrekeyBundleResponse}

abbrev bundle_of : Device → Bundle
bundle_of v =
    (v.id, v.identity_key, v.signing_identity_key, v.signed_prekey, v.signed_prekey_signature)

-- The row has the keys.
pub record Holds (i s k g : Bytes) (v : Device) : Type 0 where
  pub identity : v.identity_key ≡ i
  pub signing : v.signing_identity_key ≡ s
  pub prekey : v.signed_prekey ≡ k
  pub signature : v.signed_prekey_signature ≡ g

upsert_found :
    (user_id device_id : Text) (i s k g : Bytes) (t : Moment) (n : ℕ) (d d' : Database) (id : Uuid)
    → upsert_device user_id device_id i s k g t n d ≡ some (id, d')
    → (v : Device) × (find? (named user_id device_id) d'.devices ≡ some v)
      × (v.id ≡ id)
      × Holds i s k g v
unfolding upsert_device find?
upsert_found user_id device_id i s k g t n d d' id h =
    elim (Option-cases (find? (named user_id device_id) d.devices)) [
      | inr (old, e) ↦
          let kept =
            find?-renamed (named user_id device_id) (set_keys i s k g) d.devices old (λ x. refl)
              e in
          (
            set_keys i s k g old,
            ground (arith, e, kept),
            ground (arith, e),
            record { identity = refl; signing = refl; prekey = refl; signature = refl },
          )
      | inl e ↦ elim (Bool-cases (has_device (t.fresh n) d)) [
        | inl taken ↦ absurd (ground (arith, e, taken))
        | inr new ↦ (
          record {
            id = t.fresh n;
            user_id = user_id;
            device_id = device_id;
            identity_key = i;
            signing_identity_key = s;
            signed_prekey = k;
            signed_prekey_signature = g;
          },
          ground (arith, e, new),
          ground (arith, e, new),
          record { identity = refl; signing = refl; prekey = refl; signature = refl },
        )
      ]
    ]

module _ ⦃lib : Library⦄ where
  -- What a registration that is answered by success leaves.
  pub record Registered (payload : RegisterDeviceRequest) (r : RegisterDeviceResponse) (s : Server)
      : Type 0 where
    pub row : Device
    pub identity : lib.decode payload.identity_key_b64 ≡ some row.identity_key
    pub signing : lib.decode payload.signing_identity_key_b64 ≡ some row.signing_identity_key
    pub prekey : lib.decode payload.signed_prekey_b64 ≡ some row.signed_prekey
    pub signature :
        lib.decode payload.signed_prekey_signature_b64 ≡ some row.signed_prekey_signature
    pub stored : find? (named payload.user_id payload.device_id) s.db.devices ≡ some row
    pub uuid : r.device_uuid ≡ lib.show_uuid row.id

  register_device-Registered :
      (payload : RegisterDeviceRequest) (t : Moment) (s : Server) (r : RegisterDeviceResponse)
      (s' : Server)
      → register_device payload t s ≡ done r s'
      → Registered payload r s'
  unfolding register_device pure
  register_device-Registered payload t s r s' h = ok_or_then _ _ _ _ h λ i a h1.
      ok_or_then _ _ _ _ h1 λ sg b h2. ok_or_then _ _ _ _ h2 λ k c h3.
        ok_or_then _ _ _ _ h3 λ g e h4. query_then _ _ h4 λ id d q h5.
          let (v, found, same, holds) =
            upsert_found payload.user_id payload.device_id i sg k g t s.calls s.db d id q in
          let left : s'.db ≡ d = ground (arith, h5) in
          record {
            row = v;
            identity = a ∙ ap some (sym holds.identity);
            signing = b ∙ ap some (sym holds.signing);
            prekey = c ∙ ap some (sym holds.prekey);
            signature = e ∙ ap some (sym holds.signature);
            stored =
                ap (λ d. find? (named payload.user_id payload.device_id) d.devices) left ∙ found;
            uuid = ground (arith, h5, same);
          }

  -- The bundle of a row.
  abbrev pub Shows : FetchPrekeyBundleResponse → Device → Type 0
  Shows b v =
      (b.device_uuid ≡ lib.show_uuid v.id)
      × (b.identity_key_b64 ≡ lib.encode v.identity_key)
      × (b.signing_identity_key_b64 ≡ lib.encode v.signing_identity_key)
      × (b.signed_prekey_b64 ≡ lib.encode v.signed_prekey)
      × (b.signed_prekey_signature_b64 ≡ lib.encode v.signed_prekey_signature)

  bundle-Shows :
      (user_id device_id : Text) (t : Moment) (s : Server) (b : FetchPrekeyBundleResponse)
      (s' : Server) (v : Device)
      → find? (named user_id device_id) s.db.devices ≡ some v
      → fetch_prekey_bundle (record { user_id = user_id; device_id = device_id }) t s ≡ done b s'
      → Shows b v
  unfolding fetch_prekey_bundle bundle_response find_device_bundle pure
  bundle-Shows user_id device_id t s b s' v found h =
      let (s1, h1, _) = transaction_done _ t s b s' h in
      query_then _ _ h1 λ o d q h2. ok_or_then _ _ _ _ h2 λ row e h3.
        query_then _ _ h3 λ one d' q' h4.
          let same : row ≡ bundle_of v = ground (arith, found) in
          (
            ground (arith, same),
            ground (arith, same),
            ground (arith, same),
            ground (arith, same),
            ground (arith, same),
          )

  -- The bundle that is fetched right after a registration has the keys of the registration.
  pub Registered-Shows :
      (payload : RegisterDeviceRequest) (t t' : Moment) (s s' s'' : Server)
      (r : RegisterDeviceResponse) (b : FetchPrekeyBundleResponse)
      → register_device payload t s ≡ done r s'
      → fetch_prekey_bundle
          (record { user_id = payload.user_id; device_id = payload.device_id })
          t'
          s'
        ≡ done b s''
      → (reg : Registered payload r s') × Shows b reg.row
  Registered-Shows payload t t' s s' s'' r b h k =
      let reg = register_device-Registered payload t s r s' h in
      (reg, bundle-Shows payload.user_id payload.device_id t' s' b s'' reg.row reg.stored k)
