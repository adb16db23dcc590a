-- ===== src/Server/Signals.antt =====
-- The queue of call signals of domain/call_signaling.rs.
use rsmsg.Base.{
  ltb, if◌then◌else◌, ◌==◌, nat_eq, text_eq, Bool-cases, length, take, drop, filter, ℕ, zero, suc,
  ◌-◌, ◌≡◌, refl, sym, ap, ◌∙◌, inl, inr, Bool, false, not, ◌&&◌, Option, List, [], ◌∷◌, ◌++◌, map,
  append_assoc, append-nil, arith,
}
use rsmsg.Base.Text.{Text}
use rsmsg.Base.Int.{int_eq}
use rsmsg.Base.Unique.{length-append}
use rsmsg.Server.State.{Uuid, QueuedCallSignal, Server}
use rsmsg.Server.Monad.{Moment, done}
use rsmsg.Server.Domain.CallSignaling.{call_matches, drain_signals, take_signals}
use rsmsg.Shared.Call.{CallSignalItem}

abbrev pub wanted : Uuid → Option Text → QueuedCallSignal → Bool
wanted device call_id signal = signal.to_device_uuid == device && call_matches call_id signal

abbrev pub item_of : QueuedCallSignal → CallSignalItem
item_of signal = signal.item

take-nil : {A : Type 0} (n : ℕ) → take {A = A} n [] ≡ []
take-nil zero = refl
take-nil (suc n) = refl

-- The loop with its two lists: what is given out is the first of the wanted signals, up to the limit.
drain_given :
    (device : Uuid) (call_id : Option Text) (limit : ℕ) (queue : List QueuedCallSignal)
    (signals : List CallSignalItem) (retained : List QueuedCallSignal)
    → (drain_signals device call_id limit queue signals retained).0
      ≡ signals
        ++ map item_of (take (limit - length signals) (filter (wanted device call_id) queue))
unfolding drain_signals filter
drain_given device call_id limit [] signals retained =
    sym (append-nil signals)
    ∙ ap (λ xs. signals ++ map item_of xs) (sym (take-nil (limit - length signals)))
drain_given device call_id limit (signal ∷ queue) signals retained =
    elim (Bool-cases (wanted device call_id signal)) [
      | inr other ↦
          ground
            (arith, other, drain_given device call_id limit queue signals (retained ++ signal ∷ []))
      | inl mine ↦ elim (Bool-cases (ltb (length signals) limit)) [
        | inr full ↦
            let zero_left : limit - length signals ≡ 0 = ground arith in
            let ih = drain_given device call_id limit queue signals (retained ++ signal ∷ []) in
            rw (mine, full, zero_left) (rw zero_left at ih)
        | inl room ↦
            let size = length-append signals (signal.item ∷ []) in
            let left : limit - length (signals ++ signal.item ∷ []) ≡ limit - suc (length signals) =
              omega arith in
            let some_left : limit - length signals ≡ suc (limit - suc (length signals)) =
              ground arith in
            let ih =
              drain_given device call_id limit queue (signals ++ signal.item ∷ []) retained in
            rw (mine, room, some_left) (rw left at ih ∙ append_assoc signals (signal.item ∷ []) _)
      ]
    ]

-- The queue less the first k of the wanted signals.
abbrev pub leftover : (QueuedCallSignal → Bool) → ℕ → List QueuedCallSignal → List QueuedCallSignal
leftover p zero queue = queue
leftover p (suc k) [] = []
leftover p (suc k) (signal ∷ queue) =
    let taken = leftover p k queue in
    let kept = leftover p (suc k) queue in if p signal then taken else signal ∷ kept

leftover-nil : (p : QueuedCallSignal → Bool) (n : ℕ) → leftover p n [] ≡ []
leftover-nil p zero = refl
leftover-nil p (suc n) = refl

leftover-skip :
    (p : QueuedCallSignal → Bool) (n : ℕ) (signal : QueuedCallSignal)
    (queue : List QueuedCallSignal)
    → p signal ≡ false
    → leftover p n (signal ∷ queue) ≡ signal ∷ leftover p n queue
leftover-skip p zero signal queue e = refl
leftover-skip p (suc n) signal queue e = ground (arith, e)

drain_left :
    (device : Uuid) (call_id : Option Text) (limit : ℕ) (queue : List QueuedCallSignal)
    (signals : List CallSignalItem) (retained : List QueuedCallSignal)
    → (drain_signals device call_id limit queue signals retained).1
      ≡ retained ++ leftover (wanted device call_id) (limit - length signals) queue
unfolding drain_signals
drain_left device call_id limit [] signals retained =
    sym (append-nil retained)
    ∙ ap (λ xs. retained ++ xs)
        (sym (leftover-nil (wanted device call_id) (limit - length signals)))
drain_left device call_id limit (signal ∷ queue) signals retained =
    elim (Bool-cases (wanted device call_id signal)) [
      | inr other ↦
          let ih = drain_left device call_id limit queue signals (retained ++ signal ∷ []) in
          rw
            (
              other,
              leftover-skip (wanted device call_id) (limit - length signals) signal queue other,
            )
            (ih ∙ append_assoc retained (signal ∷ []) _)
      | inl mine ↦ elim (Bool-cases (ltb (length signals) limit)) [
        | inr full ↦
            let zero_left : limit - length signals ≡ 0 = ground arith in
            let ih = drain_left device call_id limit queue signals (retained ++ signal ∷ []) in
            rw (mine, full, zero_left) (rw zero_left at ih ∙ append_assoc retained (signal ∷ []) _)
        | inl room ↦
            let size = length-append signals (signal.item ∷ []) in
            let left : limit - length (signals ++ signal.item ∷ []) ≡ limit - suc (length signals) =
              omega arith in
            let some_left : limit - length signals ≡ suc (limit - suc (length signals)) =
              ground arith in
            let ih = drain_left device call_id limit queue (signals ++ signal.item ∷ []) retained in
            rw (mine, room, some_left) (ground (arith, mine, rw left at ih))
      ]
    ]

pair_eq : {A B : Type 0} (p : A × B) (a : A) {b : B} → p.0 ≡ a → p.1 ≡ b → p ≡ (a, b)
pair_eq p a e f = ground arith

filter-leftover :
    (p : QueuedCallSignal → Bool) (n : ℕ) (queue : List QueuedCallSignal)
    → (filter p (leftover p n queue) ≡ drop n (filter p queue))
      × (filter (λ x. not (p x)) (leftover p n queue) ≡ filter (λ x. not (p x)) queue)
unfolding filter
filter-leftover p zero queue = (refl, refl)
filter-leftover p (suc n) [] = (refl, refl)
filter-leftover p (suc n) (signal ∷ queue) = elim (Bool-cases (p signal)) [
  | inl hit ↦ ground (arith, hit, filter-leftover p n queue)
  | inr miss ↦ ground (arith, miss, filter-leftover p (suc n) queue)
]

-- A fetch gives out the oldest signals for the device and the call, as many as the limit allows, oldest
-- first. Of the signals for them, the later ones stay queued, and every other signal stays, each in its
-- order. Nothing else of the server changes.
pub take_signals_lem :
    (device : Uuid) (call_id : Option Text) (limit : ℕ) (t : Moment) (s : Server)
    → (left : List QueuedCallSignal) × (take_signals device call_id limit t s
        ≡ done
            (map item_of (take limit (filter (wanted device call_id) s.call_signals)))
            (record s { call_signals = left }))
      × (filter (wanted device call_id) left
          ≡ drop limit (filter (wanted device call_id) s.call_signals))
      × (filter (λ x. not (wanted device call_id x)) left
          ≡ filter (λ x. not (wanted device call_id x)) s.call_signals)
unfolding take_signals
take_signals_lem device call_id limit t s =
    let given = drain_given device call_id limit s.call_signals [] [] in
    let left = drain_left device call_id limit s.call_signals [] [] in
    let all : limit - 0 ≡ limit = omega arith in
    let rest = filter-leftover (wanted device call_id) limit s.call_signals in
    (
      leftover (wanted device call_id) limit s.call_signals,
      ap (λ x. done x.0 (record s { call_signals = x.1 }))
          (pair_eq _ _ (rw all at given) (rw all at left)),
      rest.0,
      rest.1,
    )
