-- ===== src/Client/Core/Signing.antt =====
-- crates/client-core/src/core.rs: what a device registers, and what its peers check.
use rsmsg.Base.{ℕ, suc, ◌≡◌, sym, ap, ◌∙◌, inl, inr, length, Option, some, Option-cases, arith}
use rsmsg.Base.Text.{Text}
use rsmsg.Crypto.Primitives.{Bytes, Primitives, PrimitiveLaws}
use rsmsg.Crypto.Engine.{
  good, or_anyhow, generate_x25519_keypair, generate_ed25519_keypair, sign_prekey_b64,
  verify_prekey_signature_b64, decode_key, prekey_signature_payload,
}
use rsmsg.Crypto.Engine
use rsmsg.Crypto.Agreement.{Result-cases, verify-sign_prekey}
use rsmsg.Server.State.{Server}
use rsmsg.Server.Monad.{Moment, done}
use rsmsg.Server.Library.{Library}
use rsmsg.Server.Domain.Device.{register_device}
use rsmsg.Server.Domain.Messaging.{fetch_prekey_bundle}
use rsmsg.Server.Publishing.{Registered-Shows}
use rsmsg.Shared.Device.{RegisterDeviceRequest, RegisterDeviceResponse}
use rsmsg.Shared.Messaging.{FetchPrekeyBundleResponse}
use rsmsg.Client.Types.{LocalDeviceKeys}
use rsmsg.Client.Library.{ClientLibrary}
use rsmsg.Client.Network.{Network}
use rsmsg.Client.Act.{◌>>=◌}
use rsmsg.Client.Core.{Setup, ClientCore, draw}
use rsmsg.Client.Core.Keys.{generate_local_device_keys, build_register_request}

module _ ⦃p : Primitives⦄ where
  sign_prekey-encoded :
      (private prekey signature : Text)
      → sign_prekey_b64 private prekey ≡ good signature
      → (g : Bytes) × (signature ≡ p.encode g)
  unfolding sign_prekey_b64 or_anyhow Engine.◌>>=◌
  sign_prekey-encoded private prekey signature h = elim (Result-cases (decode_key private)) [
    | inr (m, e) ↦ absurd (ground (arith, e))
    | inl (key, e) ↦ elim (Option-cases (p.decode prekey)) [
      | inl f ↦ absurd (ground (arith, e, f))
      | inr (k, f) ↦ (p.sign key (prekey_signature_payload k), ground (arith, e, f))
    ]
  ]

  -- What a request carries is base64 of bytes.
  pub record Encoded (req : RegisterDeviceRequest) : Type 0 where
    pub identity : Bytes
    pub signing : Bytes
    pub prekey : Bytes
    pub signature : Bytes
    pub identity_text : req.identity_key_b64 ≡ p.encode identity
    pub signing_text : req.signing_identity_key_b64 ≡ p.encode signing
    pub prekey_text : req.signed_prekey_b64 ≡ p.encode prekey
    pub signature_text : req.signed_prekey_signature_b64 ≡ p.encode signature

module _ ⦃p : Primitives⦄ ⦃lib : ClientLibrary⦄ ⦃net : Network⦄ (setup : Setup) where
  -- What a device asks to register of the keys that it has generated.
  registered_prekey :
      (user_id device_id : Text) (keys : LocalDeviceKeys) (req : RegisterDeviceRequest)
      (s t t' : ClientCore net.World)
      → PrimitiveLaws p
      → ((n : ℕ) → length (lib.random 32 n) ≡ 32)
      → generate_local_device_keys setup s ≡ (good keys, t)
      → build_register_request setup user_id device_id keys t ≡ (good req, t')
      → (verify_prekey_signature_b64 req.signing_identity_key_b64 req.signed_prekey_b64
            req.signed_prekey_signature_b64
          ≡ good tt)
        × (req.identity_key_b64 ≡ keys.identity_public_b64)
        × (req.user_id ≡ user_id)
        × (req.device_id ≡ device_id)
        × Encoded req
  unfolding generate_x25519_keypair generate_ed25519_keypair generate_local_device_keys
      build_register_request draw or_anyhow ◌>>=◌
  registered_prekey user_id device_id keys req s t t' laws sizes h k =
      let random = lib.random 32 (suc (suc s.draws)) in
      let pair = generate_ed25519_keypair random in
      let signed = (generate_x25519_keypair (lib.random 32 (suc s.draws))).public_b64 in
      elim (Result-cases (sign_prekey_b64 pair.private_b64 signed)) [
        | inr (m, e) ↦ absurd (ground (arith, e))
        | inl (signature, e) ↦
            let valid =
              verify-sign_prekey random signed signature laws (sizes (suc (suc s.draws))) e in
            let (g, encoded) = sign_prekey-encoded pair.private_b64 signed signature e in
            (
              ground (arith, e, valid),
              ground (arith, e),
              ground (arith, e),
              ground (arith, e),
              record {
                identity = p.x25519_public (lib.random 32 s.draws);
                signing = p.ed25519_public random;
                prekey = p.x25519_public (lib.random 32 (suc s.draws));
                signature = g;
                identity_text = ground (arith, e);
                signing_text = ground (arith, e);
                prekey_text = ground (arith, e);
                signature_text = ground (arith, e, encoded);
              },
            )
      ]

  -- The server reads and prints base64 as the clients do.
  pub record SameBase64 (server : Library) : Type 0 where
    pub decodes : (text : Text) → server.decode text ≡ p.decode text
    pub encodes : (bytes : Bytes) → server.encode bytes ≡ p.encode bytes

  reencode :
      (server : Library) (text : Text) (x y : Bytes)
      → PrimitiveLaws p
      → SameBase64 server
      → text ≡ p.encode x
      → server.decode text ≡ some y
      → server.encode y ≡ text
  reencode server text x y laws same encoded decoded =
      let back : ◌≡◌ {A = Option Bytes} (some x) (some y) =
        sym (laws.decode-encode x)
        ∙ ap p.decode (sym encoded)
        ∙ sym (same.decodes text)
        ∙ decoded in
      let equal : x ≡ y = cc in same.encodes y ∙ ap p.encode (sym equal) ∙ sym encoded

  -- What is registered can be trusted by peers: a device registers with keys that it has generated, the
  -- server answers by success, and so it does to a request for the bundle of that device that comes right
  -- after. Then the signed prekey of the bundle passes the check of the peer, and the bundle has the
  -- identity key of the device and the UUID that it was answered by.
  pub bundle_verifies :
      (server : Library) (user_id device_id : Text) (keys : LocalDeviceKeys)
      (req : RegisterDeviceRequest) (c c' c'' : ClientCore net.World) (t t' : Moment)
      (s s' s'' : Server) (r : RegisterDeviceResponse) (b : FetchPrekeyBundleResponse)
      → PrimitiveLaws p
      → ((n : ℕ) → length (lib.random 32 n) ≡ 32)
      → SameBase64 server
      → generate_local_device_keys setup c ≡ (good keys, c')
      → build_register_request setup user_id device_id keys c' ≡ (good req, c'')
      → register_device ⦃lib = server⦄ req t s ≡ done r s'
      → fetch_prekey_bundle ⦃lib = server⦄
          (record { user_id = user_id; device_id = device_id })
          t'
          s'
        ≡ done b s''
      → (verify_prekey_signature_b64 b.signing_identity_key_b64 b.signed_prekey_b64
            b.signed_prekey_signature_b64
          ≡ good tt)
        × (b.identity_key_b64 ≡ keys.identity_public_b64)
        × (b.device_uuid ≡ r.device_uuid)
  bundle_verifies server user_id device_id keys req c c' c'' t t' s s' s'' r b laws sizes same made
        built registered fetched =
      let (valid, identity, user, device, texts) =
        registered_prekey user_id device_id keys req c c' c'' laws sizes made built in
      let asked : fetch_prekey_bundle ⦃lib = server⦄
            (record { user_id = req.user_id; device_id = req.device_id }) t' s'
          ≡ done b s'' =
        ap
          (λ u.
            fetch_prekey_bundle ⦃lib = server⦄ (record { user_id = u; device_id = req.device_id })
              t' s')
          user
        ∙ ap
            (λ v.
              fetch_prekey_bundle ⦃lib = server⦄ (record { user_id = user_id; device_id = v }) t'
                s')
            device
        ∙ fetched in
      let (reg, (uuid, i, sg, k, g)) =
        Registered-Shows ⦃lib = server⦄ req t t' s s' s'' r b registered asked in
      let identity_back =
        i ∙ reencode server _ texts.identity _ laws same texts.identity_text reg.identity in
      let signing_back =
        sg ∙ reencode server _ texts.signing _ laws same texts.signing_text reg.signing in
      let prekey_back =
        k ∙ reencode server _ texts.prekey _ laws same texts.prekey_text reg.prekey in
      let signature_back =
        g ∙ reencode server _ texts.signature _ laws same texts.signature_text reg.signature in
      (
        ap (λ x. verify_prekey_signature_b64 x b.signed_prekey_b64 b.signed_prekey_signature_b64)
              signing_back
            ∙ ap
                (λ x.
                  verify_prekey_signature_b64 req.signing_identity_key_b64 x
                    b.signed_prekey_signature_b64)
                prekey_back
            ∙ ap (verify_prekey_signature_b64 req.signing_identity_key_b64 req.signed_prekey_b64)
                signature_back
            ∙ valid,
        identity_back ∙ identity,
        uuid ∙ sym reg.uuid,
      )
