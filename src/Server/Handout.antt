-- ===== src/Server/Handout.antt =====
-- One-time prekeys are handed out: repository/prekeys.rs and domain/messaging.rs.
use rsmsg.Base.{
  ◌==◌, nat_eq, text_eq, Option-cases, filter, update_where, ℕ, ◌≡◌, refl, sym, ap, subst, ◌∙◌, inl,
  inr, true, Option, none, some, List, [], ◌∷◌, arith,
}
use rsmsg.Base.Int.{ℤ, int_eq}
use rsmsg.Base.Settled.{Among, Among-filter, Among-any, All-Among, Settled, Settled-marked}
use rsmsg.Base.Unique.{Distinct-Implies}
use rsmsg.Server.State.{Uuid, Bytes, OneTimePrekey, Database, Server}
use rsmsg.Server.Monad.{Moment, done, pure, ok_or}
use rsmsg.Server.Monad.Done.{bind_done, query_done, transaction_done}
use rsmsg.Server.Library.{Library, UuidLaws}
use rsmsg.Server.History.{Call, run}
use rsmsg.Server.WellFormed.{same_prekey, WellFormed}
use rsmsg.Server.Repository.Prekeys.{is_available, pick_lowest, consume, consume_one_time_prekey}
use rsmsg.Server.Repository.Devices.{Bundle, find_device_bundle}
use rsmsg.Shared.Device.{PrekeyUploadItem}
use rsmsg.Shared.Messaging.{FetchPrekeyBundleRequest, FetchPrekeyBundleResponse}
use rsmsg.Server.Domain.Messaging.{bundle_response, fetch_prekey_bundle}
use rsmsg.Server.Lasting.Prekeys.{is_key, is_consumed, Spent, run-Spent}

pick_lowest-Among :
    (ps : List OneTimePrekey) (p : OneTimePrekey) → pick_lowest ps ≡ some p → Among p ps
unfolding pick_lowest
pick_lowest-Among [] p e = cc
pick_lowest-Among (q ∷ ps) p e = elim (Option-cases (pick_lowest ps)) [
  | inl none_left ↦ ground (arith, none_left)
  | inr (r, found) ↦ ground (arith, found, pick_lowest-Among ps r found)
]

-- The row that is picked is one of the device, and not consumed.
picked_row :
    (t : Moment) (device : Uuid) (ps : List OneTimePrekey) (q : OneTimePrekey)
    → pick_lowest (filter (is_available t device) ps) ≡ some q
    → Among q ps × (q.device_ref ≡ device) × (q.consumed_at ≡ none)
picked_row t device ps q e =
    let (m, free) = Among-filter (is_available t device) ps q (pick_lowest-Among _ q e) in
    (m, ground arith, ground arith)

consume_spends :
    (device : Uuid) (t : Moment) (n : ℕ) (d : Database) (key_id : ℤ) (pubkey : Bytes)
    (d' : Database)
    → WellFormed d
    → consume_one_time_prekey device t n d ≡ some (some (key_id, pubkey), d')
    → Spent device key_id d'
unfolding consume_one_time_prekey
consume_spends device t n d key_id pubkey d' w h =
    elim (Option-cases (pick_lowest (filter (is_available t device) d.prekeys))) [
      | inl nothing ↦ absurd (ground (arith, nothing))
      | inr (q, e) ↦
          let (m, owned, free) = picked_row t device d.prekeys q e in
          let id : key_id ≡ q.key_id = ground (arith, e) in
          let key : is_key device key_id q ≡ true = ground arith in
          let now : d'.prekeys ≡ update_where (λ p. p.id == q.id) (consume t.now) d.prekeys =
            ground (arith, e) in
          subst (Settled (is_key device key_id) (is_consumed device key_id)) (sym now) (
            Settled-marked (is_key device key_id) (is_consumed device key_id) (λ p. p.id == q.id)
              (consume t.now) (λ x. refl) (λ x. refl) d.prekeys
              (Among-any (is_key device key_id) d.prekeys q m key)
              (Distinct-Implies same_prekey (is_key device key_id) _ (λ x y kx ky. ground arith)
                d.prekeys q w.prekeys m key (ground arith)))
    ]

consume_skips :
    (device : Uuid) (t : Moment) (n : ℕ) (d : Database) (key_id : ℤ) (pubkey : Bytes)
    (d' : Database)
    → Spent device key_id d
    → ¬ (consume_one_time_prekey device t n d ≡ some (some (key_id, pubkey), d'))
unfolding consume_one_time_prekey
consume_skips device t n d key_id pubkey d' spent h =
    elim (Option-cases (pick_lowest (filter (is_available t device) d.prekeys))) [
      | inl nothing ↦ ground (arith, nothing)
      | inr (q, e) ↦
          let (m, owned, free) = picked_row t device d.prekeys q e in
          let id : key_id ≡ q.key_id = ground (arith, e) in
          let key : is_key device key_id q ≡ true = ground arith in
          let taken = All-Among _ d.prekeys q spent.1 m key in ground (arith, taken)
    ]

module _ ⦃lib : Library⦄ where
  laws_injective : UuidLaws lib → (u v : Uuid) → lib.show_uuid u ≡ lib.show_uuid v → u ≡ v
  laws_injective laws u v e =
      let same : some u ≡ some v =
        sym (laws.parse-show u) ∙ ap lib.parse_uuid e ∙ laws.parse-show v in
      ground arith

  -- What a bundle that is handed out comes from.
  fetch_done :
      (payload : FetchPrekeyBundleRequest) (t : Moment) (s : Server) (r : FetchPrekeyBundleResponse)
      (s' : Server)
      → fetch_prekey_bundle payload t s ≡ done r s'
      → (b : Bundle) × (one : Option (ℤ × Bytes)) × (n : ℕ) × (r ≡ bundle_response b one)
        × (consume_one_time_prekey b.0 t n s.db ≡ some (one, s'.db))
  unfolding fetch_prekey_bundle find_device_bundle ok_or pure
  fetch_done payload t s r s' h =
      let (s1, ran, same) = transaction_done _ t s r s' h in
      let (found, s2, q1, rest1) = bind_done _ _ t _ r s1 ran in
      let (b, s3, q2, rest2) = bind_done _ _ t s2 r s1 rest1 in
      let (one, s4, q3, rest3) = bind_done _ _ t s3 r s1 rest2 in
      let (looked, _) = query_done _ t _ found s2 q1 in
      let (took, _) = query_done _ t s3 one s4 q3 in
      let kept : s3.db ≡ s.db = ground arith in
      let left : s'.db ≡ s4.db = ground arith in
      (
        b,
        one,
        s3.calls,
        ground arith,
        subst (λ d. consume_one_time_prekey b.0 t s3.calls d ≡ some (one, s'.db)) kept
            (took ∙ ap (λ d. some (one, d)) (sym left)),
      )

  -- A one-time prekey is handed out once: of two bundles of one device that are fetched from
  -- well-formed tables, the second after any requests that follow the first, the one-time prekeys have
  -- different ids. UUIDs are parsed back from their text.
  pub prekey_once :
      UuidLaws lib
      → (payload : FetchPrekeyBundleRequest) (t : Moment) (s : Server)
        (r : FetchPrekeyBundleResponse) (s' : Server) (k : PrekeyUploadItem) (cs : List Call)
        (again : FetchPrekeyBundleRequest) (t' : Moment) (r' : FetchPrekeyBundleResponse)
        (s'' : Server) (k' : PrekeyUploadItem)
      → WellFormed s.db
      → fetch_prekey_bundle payload t s ≡ done r s'
      → r.one_time_prekey ≡ some k
      → fetch_prekey_bundle again t' (run s' cs) ≡ done r' s''
      → r'.one_time_prekey ≡ some k'
      → r'.device_uuid ≡ r.device_uuid
      → ¬ (k'.key_id ≡ k.key_id)
  unfolding bundle_response
  prekey_once laws payload t s r s' k cs again t' r' s'' k' w first has second has' same ids =
      let (b, one, n, response, taken) = fetch_done payload t s r s' first in
      let (b', one', n', response', taken') = fetch_done again t' (run s' cs) r' s'' second in
      elim (Option-cases one) [
        | inl nothing ↦ absurd (ground (arith))
        | inr ((id, pubkey), e) ↦ elim (Option-cases one') [
          | inl nothing ↦ absurd (ground (arith))
          | inr ((id_2, pubkey'), e') ↦
              let shown : lib.show_uuid b'.0 ≡ lib.show_uuid b.0 = ground arith in
              let device : b'.0 ≡ b.0 = laws_injective laws b'.0 b.0 shown in
              let key : id_2 ≡ id = ground arith in
              let spent =
                run-Spent b.0 id s' cs
                  (consume_spends b.0 t n s.db id pubkey s'.db w (rw e at taken)) in
              consume_skips b.0 t' n' (run s' cs).db id pubkey' s''.db spent
                (rw (device, e', key) at taken')
        ]
      ]
