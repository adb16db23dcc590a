-- ===== src/Tests/World.antt =====
-- A small world: stand-ins for the other packages, two users with a device each, and their tables.
use rsmsg.Base.{
  ◌==◌, nat_eq, text_eq, any, ℕ, ◌+◌, ◌-◌, refl, true, false, Option, none, some, [], ◌∷◌, arith,
  ℕ_discrete,
}
use rsmsg.Base.Text.{Text, codes}
use rsmsg.Base.Int.{pos, int_eq}
use rsmsg.Server.State.{Uuid, Device, OneTimePrekey, Database, Server}
use rsmsg.Server.Monad.{Moment}
use rsmsg.Server.Library.{Library, UuidLaws}
use rsmsg.Server.Auth.{Headers}
use rsmsg.Server.History.{Call, start}
use rsmsg.Server.WellFormed.{WellFormed}
use rsmsg.Server.WellFormed.Keys.{Keyed}
use rsmsg.Server.Handlers.Router.{health}

-- A UUID is printed as one character, past those of ASCII.
abbrev pub parse_one : Text → Option Uuid
parse_one [] = none
parse_one (c ∷ []) = some (c - 1000)
parse_one (c ∷ d ∷ s) = none

abbrev pub show_one : Uuid → Text
show_one u = (u + 1000) ∷ []

instance unfoldable pub toy_library : Library
toy_library = record {
  parse_uuid = parse_one;
  show_uuid = show_one;
  simple_uuid = show_one;
  encode = λ b. b;
  decode = λ s. some s;
  sha256_hex = λ s. s;
  argon2_hash = λ salt password. some password;
  parse_hash = λ hash. some hash;
  argon2_verify = λ password hash. password == hash;
  collate_le = λ a b. true;
  ilike = λ a b. a == b;
}

pub toy_uuids : UuidLaws toy_library
unfolding toy_library any
toy_uuids = record { parse-show = λ u. ground arith; show_colon = λ u. ground arith }

abbrev pub moment : Moment
moment = record {
  now = 100_000;
  outage = λ n. false;
  fresh = λ n. 500 + n;
  salt = codes "salt";
  locked_message = λ id. false;
  locked_prekey = λ id. false;
}

abbrev pub alice : Text
alice = codes "alice"

abbrev pub bob : Text
bob = codes "bob"

abbrev pub phone : Device
phone = record {
  id = 11;
  user_id = alice;
  device_id = codes "phone";
  identity_key = 1 ∷ [];
  signing_identity_key = 2 ∷ [];
  signed_prekey = 3 ∷ [];
  signed_prekey_signature = 4 ∷ [];
}

abbrev pub laptop : Device
laptop = record {
  id = 22;
  user_id = bob;
  device_id = codes "laptop";
  identity_key = 5 ∷ [];
  signing_identity_key = 6 ∷ [];
  signed_prekey = 7 ∷ [];
  signed_prekey_signature = 8 ∷ [];
}

abbrev pub prekey : ℕ → OneTimePrekey
prekey n = record {
  id = n;
  device_ref = 22;
  key_id = pos (70 + n);
  pubkey = n ∷ [];
  consumed_at = none;
}

abbrev pub tables : Database
tables = record {
  users =
      record { id = 2; user_id = bob; password_hash = codes "secret" }
      ∷ record { id = 1; user_id = alice; password_hash = codes "hidden" }
      ∷ [];
  next_user = 3;
  devices = laptop ∷ phone ∷ [];
  prekeys = prekey 2 ∷ prekey 1 ∷ [];
  next_prekey = 3;
  messages = [];
  tokens =
      record {
        device_ref = 11;
        token_hash = codes "token";
        expires_at = 200_000;
        revoked_at = none;
      }
      ∷ [];
  blobs = record { id = 33; owner_device = 11; bytes = 9 ∷ 9 ∷ []; created_at = 1 } ∷ [];
  invites =
      record {
        id = 44;
        secret_hash = codes "welcome";
        expires_at = 200_000;
        used_at = none;
        used_by_user_id = none;
      }
      ∷ [];
  blocks = [];
}

abbrev pub server : Server
server = start tables (codes "1.0.0")

abbrev pub anyone : Headers
anyone = record { device_uuid = none; device_token = none; client_version = some (codes "1.2.0") }

abbrev pub from_phone : Headers
from_phone = record {
  device_uuid = some (show_one 11);
  device_token = some (codes "token");
  client_version = some (codes "1.2.0");
}

-- A request that changes no table.
abbrev pub check_health : Call
check_health = record { moment = moment; headers = anyone; route = health }

pub tables-WellFormed : WellFormed tables
unfolding any nat_eq ℕ_discrete text_eq int_eq
tables-WellFormed = record {
  users = (refl, (refl, tt));
  devices = (refl, (refl, tt));
  names = (refl, (refl, tt));
  prekeys = (refl, (refl, tt));
  serials = (refl, (refl, tt));
  below = (ground arith, (ground arith, tt));
  messages = tt;
  rows = tt;
  known = tt;
  tokens = (refl, tt);
  blobs = (refl, tt);
  blocks = tt;
  blockers = tt;
}

pub tables-Keyed : Keyed tables
unfolding any nat_eq ℕ_discrete
tables-Keyed = ((refl, (refl, tt)), (omega arith, (omega arith, tt)), (refl, tt))
