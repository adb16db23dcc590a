-- ===== src/Server/Repository/Prekeys.antt =====
-- crates/server/src/repository/prekeys.rs
use rsmsg.Base.{
  leb, if◌then◌else◌, ◌==◌, nat_eq, text_eq, is_none, any, filter, update_where, ℕ, suc, Bool, not,
  ◌&&◌, Option, none, some, List, [], ◌∷◌,
}
use rsmsg.Base.Int.{ℤ, int_eq}
use rsmsg.Server.State.{Uuid, Bytes, OneTimePrekey}
use rsmsg.Server.Monad.{Moment, Query}
use rsmsg.Server.Repository.Devices.{has_device}

-- Nothing is inserted where the device has that key id already. The device must exist.
unfoldable pub insert_one_time_prekey : Uuid → ℤ → Bytes → Query ℕ
insert_one_time_prekey device_uuid key_id pubkey t n d =
    if any (λ p. p.device_ref == device_uuid && p.key_id == key_id) d.prekeys
    then some (0, d)
    else if has_device device_uuid d
    then some (
      1,
      record d {
        prekeys =
            record {
              id = d.next_prekey;
              device_ref = device_uuid;
              key_id = key_id;
              pubkey = pubkey;
              consumed_at = none;
            }
            ∷ d.prekeys;
        next_prekey = suc d.next_prekey;
      },
    )
    else none

abbrev pub is_available : Moment → Uuid → OneTimePrekey → Bool
is_available t device_uuid p =
    p.device_ref == device_uuid && is_none p.consumed_at && not (t.locked_prekey p.id)

-- The first row of `ORDER BY id`.
unfoldable pub pick_lowest : List OneTimePrekey → Option OneTimePrekey
pick_lowest [] = none
pick_lowest (p ∷ ps) = elim (pick_lowest ps) [
  | none ↦ some p
  | some q ↦ if leb p.id q.id then some p else some q
]

abbrev pub consume : ℕ → OneTimePrekey → OneTimePrekey
consume now p = record p { consumed_at = some now }

unfoldable pub consume_one_time_prekey : Uuid → Query (Option (ℤ × Bytes))
unfolding pick_lowest
consume_one_time_prekey device_uuid t n d =
    elim (pick_lowest (filter (is_available t device_uuid) d.prekeys)) [
      | none ↦ some (none, d)
      | some picked ↦ some (
        some (picked.key_id, picked.pubkey),
        record d { prekeys = update_where (λ p. p.id == picked.id) (consume t.now) d.prekeys },
      )
    ]
