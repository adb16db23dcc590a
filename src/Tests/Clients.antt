-- ===== src/Tests/Clients.antt =====
-- Stand-ins for what the clients take from other packages: JSON in unary, a network that stores one
-- blob, and a system with one kind of file.
use rsmsg.Base.{
  ℕ, zero, suc, ◌+◌, ◌≡◌, refl, ap, ◌∙◌, true, false, Option, none, some, [], ◌∷◌, ◌++◌, length,
  take, drop, if◌then◌else◌, ◌==◌, nat_eq, text_eq, ℕ_discrete, arith,
}
use rsmsg.Base.Text.{Text, codes}
use rsmsg.Base.Utf8.{as_bytes, IsText}
use rsmsg.Crypto.Primitives.{Bytes}
use rsmsg.Crypto.Engine.{good}
use rsmsg.Crypto.Agreement.{take-length, drop-length}
use rsmsg.Server.Handlers.Router.{Route}
use rsmsg.Client.Types.{ClientConfig, DeviceAuth}
use rsmsg.Client.Library.{Json, Reads, ClientLibrary}
use rsmsg.Client.Storage.{Host, other_unix}
use rsmsg.Client.Vault.{VaultFile}
use rsmsg.Client.Ratchet.{RatchetEnvelope}
use rsmsg.Client.Network.{Reply, unreachable, replied, Network}
use rsmsg.Client.Core.{Setup}

abbrev pub repeat : ℕ → ℕ → Bytes
repeat zero b = []
repeat (suc n) b = b ∷ repeat n b

-- A text in unary: the digits of each of its values and a separator, and an end.
unfoldable pub ones : ℕ → Text → Text
ones zero s = s
ones (suc n) s = b'1' ∷ ones n s

unfoldable pub unary : Text → Text
unfolding ones
unary [] = b'.' ∷ []
unary (c ∷ s) = ones c (b'0' ∷ unary s)

unfoldable pub read_unary : ℕ → Bytes → Option Text
read_unary n [] = none
read_unary n (b ∷ bs) = elim (b == b'1') [
  | true ↦ read_unary (suc n) bs
  | false ↦ elim (b == b'0') [
    | true ↦ elim (read_unary 0 bs) [ none ↦ none | some s ↦ some (n ∷ s) ]
    | false ↦ some []
  ]
]

as_bytes-ones : (n : ℕ) (s : Text) → as_bytes (ones n s) ≡ ones n (as_bytes s)
unfolding as_bytes ones
as_bytes-ones zero s = refl
as_bytes-ones (suc n) s = ap (λ t. b'1' ∷ t) (as_bytes-ones n s)

as_bytes-unary : (s : Text) → as_bytes (unary s) ≡ unary s
unfolding as_bytes unary
as_bytes-unary [] = refl
as_bytes-unary (c ∷ s) =
    as_bytes-ones c (b'0' ∷ unary s) ∙ ap (λ t. ones c (b'0' ∷ t)) (as_bytes-unary s)

ones-IsText : (n : ℕ) (s : Text) → IsText s → IsText (ones n s)
unfolding ones
ones-IsText zero s h = h
ones-IsText (suc n) s h = (refl, ones-IsText n s h)

unary-IsText : (s : Text) → IsText (unary s)
unfolding unary
unary-IsText [] = (refl, tt)
unary-IsText (c ∷ s) = ones-IsText c (b'0' ∷ unary s) (refl, unary-IsText s)

read_unary-ones :
    (n m : ℕ) (s t : Text)
    → read_unary 0 s ≡ some t
    → read_unary m (ones n (b'0' ∷ s)) ≡ some ((n + m) ∷ t)
unfolding read_unary ones
read_unary-ones zero m s t h = ground (arith, h)
read_unary-ones (suc n) m s t h = ground (arith, read_unary-ones n (suc m) s t h)

read_unary-unary : (s : Text) → read_unary 0 (unary s) ≡ some s
unfolding read_unary unary nat_eq ℕ_discrete
read_unary-unary [] = refl
read_unary-unary (c ∷ s) = ground (arith, read_unary-ones c 0 (unary s) s, read_unary-unary s)

module _ {T : Type 0} (encode : T → Text) (decode : Text → Option T) where
  unfoldable pub read_json : Bytes → Option T
  unfolding read_unary
  read_json b = elim (read_unary 0 b) [ none ↦ none | some s ↦ decode s ]

  abbrev pub toy_json : Json T
  toy_json = record {
    to_string = λ v. unary (encode v);
    to_string_pretty = λ v. unary (encode v);
    from_slice = read_json;
  }

  pub toy-Reads : (v : T) → decode (encode v) ≡ some v → Reads toy_json v
  unfolding read_json
  toy-Reads v e =
      let bytes = as_bytes-unary (encode v) in
      let back = read_unary-unary (encode v) in
      record {
        from-to = ground (arith, bytes, back, e);
        from-to_pretty = ground (arith, bytes, back, e);
        pretty_text = unary-IsText (encode v);
      }

abbrev pub encode_envelope : RatchetEnvelope → Text
encode_envelope e = e.v ∷ e.counter ∷ e.envelope_b64

abbrev pub decode_envelope : Text → Option RatchetEnvelope
decode_envelope [] = none
decode_envelope (v ∷ []) = none
decode_envelope (v ∷ c ∷ s) = some (record { v = v; counter = c; envelope_b64 = s })

abbrev pub toy_envelopes : Json RatchetEnvelope
toy_envelopes = toy_json encode_envelope decode_envelope

abbrev pub encode_vault : VaultFile → Text
encode_vault v =
    v.version
    ∷ length v.salt_b64
    ∷ (v.salt_b64 ++ (length v.nonce_b64 ∷ (v.nonce_b64 ++ v.ciphertext_b64)))

abbrev decode_rest : ℕ → Text → Text → Option VaultFile
decode_rest version salt [] = none
decode_rest version salt (m ∷ s) =
    some (record {
      version = version;
      salt_b64 = salt;
      nonce_b64 = take m s;
      ciphertext_b64 = drop m s;
    })

abbrev pub decode_vault : Text → Option VaultFile
decode_vault [] = none
decode_vault (v ∷ []) = none
decode_vault (v ∷ n ∷ s) = decode_rest v (take n s) (drop n s)

abbrev pub toy_vaults : Json VaultFile
toy_vaults = toy_json encode_vault decode_vault

pub toy_vault-Reads : (v : VaultFile) → Reads toy_vaults v
toy_vault-Reads v = toy-Reads encode_vault decode_vault v back
  where
    back : decode_vault (encode_vault v) ≡ some v
    back =
        let rest = length v.nonce_b64 ∷ (v.nonce_b64 ++ v.ciphertext_b64) in
        let one = take-length (length v.salt_b64) v.salt_b64 rest refl in
        let two = drop-length (length v.salt_b64) v.salt_b64 rest refl in
        let three = take-length (length v.nonce_b64) v.nonce_b64 v.ciphertext_b64 refl in
        let four = drop-length (length v.nonce_b64) v.nonce_b64 v.ciphertext_b64 refl in
        ground (arith, one, two, three, four)

-- JSON of which one text is read, as one value.
abbrev pub single : {T : Type 0} → Text → T → Json T
single s v = record {
  to_string = λ _. s;
  to_string_pretty = λ _. s;
  from_slice = λ b. if b == as_bytes s then some v else none;
}

abbrev pub unread : {T : Type 0} → Json T
unread = record { to_string = λ _. []; to_string_pretty = λ _. []; from_slice = λ _. none }

instance abbrev pub toy_lib : ClientLibrary
toy_lib = record {
  derive_key = λ password salt. some (repeat 32 4);
  random = λ size n. repeat size 3;
  new_v4 = λ n. n ∷ [];
  decode_error = codes "Invalid byte";
  os = codes "linux";
  arch = codes "x86_64";
  is_header_value = λ value. true;
  error_field = λ bytes. none;
  json_error = codes "error decoding response body";
  lossy_text = λ bytes. bytes;
}

abbrev pub open_host : Host
open_host = record {
  var = λ name. none;
  target_os = other_unix;
  unreadable = λ path. false;
  refusal = λ path. none;
}

abbrev pub config : ClientConfig
config = record {
  http_base = codes "http://localhost";
  ws_base = codes "ws://localhost";
  session_store_path = codes "sessions";
  key_store_path = codes "keys";
}

abbrev pub auth : DeviceAuth
auth = record { device_uuid = codes "me"; auth_token = codes "token" }

abbrev pub setup : Setup
setup = record {
  config = config;
  host = open_host;
  vaults = toy_vaults;
  stored_sessions = unread;
  stored_keys = unread;
  envelopes = toy_envelopes;
  payloads = unread;
}

abbrev ok_reply : Bytes → Reply
ok_reply bytes = replied (record {
  success = true;
  status = codes "200 OK";
  content_length = none;
  chunks = bytes ∷ [];
  broken = none;
})

-- A server of one blob.
abbrev pub blob_server : Route → Bytes → Reply × Bytes
blob_server Route.create_blob w = (ok_reply [], [])
blob_server (Route.append_blob_chunk payload) w = (ok_reply [], w ++ payload.chunk_b64)
blob_server (Route.fetch_blob_bytes payload) w = (ok_reply w, w)
blob_server route w = (unreachable (codes "no route"), w)

instance abbrev pub toy_net : Network
toy_net = record {
  World = Bytes;
  exchange = λ req w. blob_server req.body w;
  bad_address = λ url. none;
  connect = λ url headers w. (good [], w);
  create_blob = λ b. some (record { blob_id = codes "blob" });
  append_blob_chunk = λ b. some (record { size = 0 });
  register_device = λ b. none;
  user_register = λ b. none;
  user_login = λ b. none;
  user_search = λ b. none;
  user_online = λ b. none;
  device_login = λ b. none;
  device_logout = λ b. none;
  upload_prekeys = λ b. none;
  send_message = λ b. none;
  block_user = λ b. none;
  unblock_user = λ b. none;
  blocked_users = λ b. none;
  fetch_prekey_bundle = λ b. none;
  resolve_user = λ b. none;
  resolve_device = λ b. none;
  fetch_pending = λ b. none;
  message_status = λ b. none;
  send_call_signal = λ b. none;
  fetch_call_signals = λ b. none;
  pending_item = λ b. none;
}
