-- ===== src/Server/WellFormed/Devices.antt =====
-- The constraints of the tables and the statements on devices, prekeys and blobs.
use rsmsg.Base.{
  ◌==◌, nat_eq, text_eq, Bool-cases, Option-cases, is_some, find?, any, filter, update_where, All,
  ℕ, suc, ◌<◌, ◌≡◌, refl, ap, ◌∙◌, inl, inr, Bool, true, false, List, [], ◌∷◌, arith,
}
use rsmsg.Base.Text.{Text}
use rsmsg.Base.Int.{ℤ, int_eq}
use rsmsg.Base.Rows.{
  find?-none_iff_any, All-mono, any-update_where, All-update_where, Distinct, Distinct-update_where,
}
use rsmsg.Server.State.{Uuid, Bytes, Device, OneTimePrekey, Database}
use rsmsg.Server.Keeps.{Maintains}
use rsmsg.Server.Repository.Devices.{named, has_device, set_keys, upsert_device}
use rsmsg.Server.Repository.Prekeys.{
  insert_one_time_prekey, is_available, pick_lowest, consume, consume_one_time_prekey,
}
use rsmsg.Server.Repository.Blobs.{insert_blob, is_owned, extend, append_blob_chunk}
use rsmsg.Server.WellFormed.{
  same_device, same_name, same_prekey, same_serial, same_blob, KnowsMessage, WellFormed,
}

-- The keys of a device are no part of its identity.
set_keys-Distinct :
    (p : Device → Bool) (i s k g : Bytes) (vs : List Device)
    → Distinct same_device vs
    → Distinct same_device (update_where p (set_keys i s k g) vs)
set_keys-Distinct p i s k g = Distinct-update_where same_device p _ (λ x y. refl) (λ x y. refl)

set_keys-Distinct_names :
    (p : Device → Bool) (i s k g : Bytes) (vs : List Device)
    → Distinct same_name vs
    → Distinct same_name (update_where p (set_keys i s k g) vs)
set_keys-Distinct_names p i s k g = Distinct-update_where same_name p _ (λ x y. refl) (λ x y. refl)

pub any-set_keys :
    (p : Device → Bool) (i s k g : Bytes) (id : Uuid) (vs : List Device)
    → any (λ v. v.id == id) (update_where p (set_keys i s k g) vs) ≡ any (λ v. v.id == id) vs
any-set_keys p i s k g id = any-update_where p _ (λ v. v.id == id) (λ v. refl)

-- The devices that a message names stay.
KnowsMessage-grows :
    (d : Database) (vs : List Device)
    → ((id : Uuid) → has_device id d ≡ true → any (λ v. v.id == id) vs ≡ true)
    → All (KnowsMessage d) d.messages
    → All (KnowsMessage (record d { devices = vs })) d.messages
KnowsMessage-grows d vs grows = All-mono _ _ (λ m k. (grows _ k.0, grows _ k.1)) d.messages

upsert_old :
    (i s k g : Bytes) (p : Device → Bool) (d : Database)
    → WellFormed d
    → WellFormed (record d { devices = update_where p (set_keys i s k g) d.devices })
upsert_old i s k g p d h = assumption (
  set_keys-Distinct p i s k g d.devices h.devices,
  set_keys-Distinct_names p i s k g d.devices h.names,
  KnowsMessage-grows d _ (λ id e. any-set_keys p i s k g id d.devices ∙ e) h.known,
)

upsert_new :
    (v : Device) (d : Database)
    → WellFormed d
    → has_device v.id d ≡ false
    → any (named v.user_id v.device_id) d.devices ≡ false
    → WellFormed (record d { devices = v ∷ d.devices })
unfolding any
upsert_new v d h fresh new =
    let kept = KnowsMessage-grows d (v ∷ d.devices) (λ id e. ground arith) h.known in
    ground (arith, kept)

pub upsert_device-WellFormed :
    (user_id device_id : Text) (i s k g : Bytes)
    → Maintains WellFormed (upsert_device user_id device_id i s k g)
unfolding upsert_device
upsert_device-WellFormed user_id device_id i s k g = record {
  at = λ t n d h. elim (Option-cases (find? (named user_id device_id) d.devices)) [
    | inr (v, e) ↦ rw (e, upsert_device) (upsert_old i s k g (named user_id device_id) d h)
    | inl e ↦
        rw (e, upsert_device)
          (elim (Bool-cases (has_device (t.fresh n) d)) [
            | inl taken ↦ rw taken tt
            | inr new ↦ rw new (
                upsert_new _ d h new
                  (find?-none_iff_any (named user_id device_id) d.devices ∙ ap is_some e))
          ])
  ];
}

serial_new :
    (next : ℕ) (ps : List OneTimePrekey)
    → All (λ p. p.id < next) ps
    → any (λ p. p.id == next) ps ≡ false
unfolding any
serial_new next [] h = refl
serial_new next (p ∷ ps) h = ground (arith, serial_new next ps h.1)

pub insert_one_time_prekey-WellFormed :
    (device : Uuid) (key_id : ℤ) (pubkey : Bytes)
    → Maintains WellFormed (insert_one_time_prekey device key_id pubkey)
unfolding insert_one_time_prekey
insert_one_time_prekey-WellFormed device key_id pubkey = record {
  at = λ t n d h.
      let below =
        All-mono (λ (p : OneTimePrekey). p.id < d.next_prekey) (λ p. p.id < suc d.next_prekey)
          (λ p b. omega arith) d.prekeys h.below in
      ground (arith, below, serial_new d.next_prekey d.prekeys h.below);
}

consume-Distinct :
    (p : OneTimePrekey → Bool) (now : ℕ) (ps : List OneTimePrekey)
    → Distinct same_prekey ps
    → Distinct same_prekey (update_where p (consume now) ps)
consume-Distinct p now = Distinct-update_where same_prekey p _ (λ x y. refl) (λ x y. refl)

consume-Distinct_serials :
    (p : OneTimePrekey → Bool) (now : ℕ) (ps : List OneTimePrekey)
    → Distinct same_serial ps
    → Distinct same_serial (update_where p (consume now) ps)
consume-Distinct_serials p now = Distinct-update_where same_serial p _ (λ x y. refl) (λ x y. refl)

consume_all-WellFormed :
    (p : OneTimePrekey → Bool) (now : ℕ) (d : Database)
    → WellFormed d
    → WellFormed (record d { prekeys = update_where p (consume now) d.prekeys })
consume_all-WellFormed p now d h = assumption (
  consume-Distinct p now d.prekeys h.prekeys,
  consume-Distinct_serials p now d.prekeys h.serials,
  All-update_where p (consume now) (λ q. q.id < d.next_prekey) (λ q b. b) d.prekeys h.below,
)

pub consume_one_time_prekey-WellFormed :
    (device : Uuid) → Maintains WellFormed (consume_one_time_prekey device)
unfolding consume_one_time_prekey
consume_one_time_prekey-WellFormed device = record {
  at = λ t n d h. elim (Option-cases (pick_lowest (filter (is_available t device) d.prekeys))) [
    | inl e ↦ rw (e, consume_one_time_prekey) h
    | inr (q, e) ↦ rw (e, consume_one_time_prekey) (consume_all-WellFormed _ t.now d h)
  ];
}

pub insert_blob-WellFormed :
    (owner : Uuid) (bytes : Bytes) → Maintains WellFormed (insert_blob owner bytes)
unfolding insert_blob
insert_blob-WellFormed owner bytes = record { at = λ t n d h. ground arith }

pub append_blob_chunk-WellFormed :
    (owner blob_id : Uuid) (chunk : Bytes)
    → Maintains WellFormed (append_blob_chunk owner blob_id chunk)
unfolding append_blob_chunk
append_blob_chunk-WellFormed owner blob_id chunk = record {
  at = λ t n d h. elim (Option-cases (find? (is_owned owner blob_id) d.blobs)) [
    | inl e ↦ rw (e, append_blob_chunk) h
    | inr (b, e) ↦
        rw (e, append_blob_chunk)
          (assumption (
            Distinct-update_where same_blob (is_owned owner blob_id) (extend chunk) (λ x y. refl)
              (λ x y. refl) d.blobs h.blobs))
  ];
}
