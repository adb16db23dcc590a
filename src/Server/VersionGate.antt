-- ===== src/Server/VersionGate.antt =====
-- crates/server/src/version_gate.rs
use rsmsg.Base.{
  ltb, leb, if◌then◌else◌, ◌==◌, nat_eq, text_eq, unwrap_or, is_empty, ℕ, ◌+◌, ◌-◌, ◌*◌, ◌^◌,
  String, Bool, not, ◌&&◌, ◌||◌, Option, none, some, [], ◌∷◌,
}
use rsmsg.Base.Text.{Text, codes}
use rsmsg.Base.Int.{int_eq}

-- `str::parse::<u64>`: digits, after a sign perhaps, below 2^64.
abbrev pub u64_limit : ℕ
u64_limit = 2 ^ 64

abbrev pub is_digit : ℕ → Bool
is_digit c = leb b'0' c && leb c b'9'

unfoldable pub parse_digits : ℕ → Text → Option ℕ
parse_digits acc [] = some acc
parse_digits acc (c ∷ s) =
    let next = acc * 10 + (c - b'0') in
    let rest = parse_digits next s in if is_digit c && ltb next u64_limit then rest else none

unfoldable pub parse_u64 : Text → Option ℕ
unfolding parse_digits
parse_u64 [] = none
parse_u64 (c ∷ s) =
    if c == b'+' && not (is_empty s) then parse_digits 0 s else parse_digits 0 (c ∷ s)

abbrev pub is_separator : ℕ → Bool
is_separator c = c == b'.' || (c == b'-' || c == b'+')

-- `split(['.', '-', '+'])`: there is always a first part.
unfoldable pub first_part : Text → Text
first_part [] = []
first_part (c ∷ s) = let rest = first_part s in if is_separator c then [] else c ∷ rest

unfoldable pub later_parts : Text → Option Text
later_parts [] = none
later_parts (c ∷ s) = let rest = later_parts s in if is_separator c then some s else rest

-- `parts.next().unwrap_or_default()`, and the parts that are left.
unfoldable pub next_number : Option Text → ℕ × Option Text
unfolding parse_u64 first_part later_parts
next_number none = (0, none)
next_number (some s) = (unwrap_or (parse_u64 (first_part s)) 0, later_parts s)

pub record Version : Type 0 where
  pub major : ℕ
  pub minor : ℕ
  pub patch : ℕ

unfoldable pub parse_version : Text → Version
unfolding next_number
parse_version version =
    let (a, rest) = next_number (some version) in
    let (b, rest') = next_number rest in
    let (c, rest'') = next_number rest' in record { major = a; minor = b; patch = c }

-- `>` on triples.
unfoldable pub newer : Version → Version → Bool
newer v w =
    ltb w.major v.major
    || (v.major == w.major && (ltb w.minor v.minor || (v.minor == w.minor && ltb w.patch v.patch)))

unfoldable pub version_gt : Text → Text → Bool
unfolding parse_version newer
version_gt left right = newer (parse_version left) (parse_version right)

-- The body of the answer to a client that is too old.
pub record UpgradeRequired : Type 0 where
  pub error : String
  pub minimum_version : Text
  pub update_url : String

unfoldable pub upgrade_required : Text → UpgradeRequired
upgrade_required minimum = record {
  error = "client version is no longer supported";
  minimum_version = minimum;
  update_url = "https://kevindev64.ru/rsmsg-downloads/stable/manifest.json";
}

-- What the middleware does with a request: `none` hands it on.
unfoldable pub require_supported_client : Text → Text → Option Text → Option UpgradeRequired
unfolding version_gt upgrade_required
require_supported_client minimum path version =
    if path == codes "/health" || not (version_gt minimum (codes "0.0.0"))
    then none
    else elim version [
      | none ↦ some (upgrade_required minimum)
      | some v ↦ if version_gt minimum v then some (upgrade_required minimum) else none
    ]
