-- ===== src/Base/Settled.antt =====
-- Rows that stay as they are once marked: a key is in the table, and its rows all carry the mark.
use rsmsg.Base.Equality.{Bool-cases}
use rsmsg.Base.Lists.{find?, any, filter, update_where, All}
use rsmsg.Base.Rows.{any-update_where, All-update_where}
use mathlib.Core.Path.{◌≡◌, sym, ◌∙◌, subst}
use mathlib.Core.Logic.{◌⊎◌, inl, inr}
use mathlib.Core.Bool.{Bool, true, ◌||◌}
use mathlib.Core.List.{List, [], ◌∷◌}
use mathlib.Core.Option.{some}
use native.Mathlib.Omega.{arith}

module _ {A : Type 0} where
  abbrev pub Implies : (A → Bool) → (A → Bool) → A → Type 0
  Implies p q x = p x ≡ true → q x ≡ true

  abbrev pub Among : A → List A → Type 0
  Among a [] = ⊥
  Among a (x ∷ xs) = (a ≡ x) ⊎ Among a xs

  pub Among-filter :
      (p : A → Bool) (xs : List A) (a : A) → Among a (filter p xs) → Among a xs × (p a ≡ true)
  unfolding filter
  Among-filter p [] a h = absurd h
  Among-filter p (x ∷ xs) a h = ground (arith, Among-filter p xs a)

  pub Among-any : (p : A → Bool) (xs : List A) (a : A) → Among a xs → p a ≡ true → any p xs ≡ true
  unfolding any
  Among-any p [] a h e = absurd h
  Among-any p (x ∷ xs) a h e = ground (arith, Among-any p xs a)

  pub All-Among {κ} : (P : A → Type κ) (xs : List A) (a : A) → All P xs → Among a xs → P a
  All-Among P [] a h m = absurd m
  All-Among P (x ∷ xs) a h (inl e) = subst P (sym e) h.0
  All-Among P (x ∷ xs) a h (inr m) = All-Among P xs a h.1 m

  pub find?-Among : (p : A → Bool) (xs : List A) (a : A) → find? p xs ≡ some a → Among a xs
  unfolding find?
  find?-Among p [] a e = cc
  find?-Among p (x ∷ xs) a e = ground (arith, find?-Among p xs a)

module _ {A : Type 0} (key mark : A → Bool) where
  abbrev pub Settled : List A → Type 0
  Settled xs = (any key xs ≡ true) × All (Implies key mark) xs

  pub Settled-update_where :
      (p : A → Bool) (f : A → A)
      → ((x : A) → key (f x) ≡ key x)
      → ((x : A) → mark x ≡ true → mark (f x) ≡ true)
      → (xs : List A) → Settled xs
      → Settled (update_where p f xs)
  Settled-update_where p f same keep xs h = (
    any-update_where p f key same xs ∙ h.0,
    All-update_where p f (Implies key mark) (λ x g k. keep x (g (sym (same x) ∙ k))) xs h.1,
  )

  -- The rows of the key are marked by the update itself.
  pub Settled-marked :
      (p : A → Bool) (f : A → A)
      → ((x : A) → key (f x) ≡ key x)
      → ((x : A) → mark (f x) ≡ true)
      → (xs : List A) → any key xs ≡ true
      → All (Implies key (λ x. p x || mark x)) xs
      → Settled (update_where p f xs)
  unfolding update_where
  Settled-marked p f same marks xs e h = (any-update_where p f key same xs ∙ e, marked xs h)
    where
      marked :
          (xs : List A)
          → All (Implies key (λ x. p x || mark x)) xs
          → All (Implies key mark) (update_where p f xs)
      marked [] h = tt
      marked (x ∷ xs) h = elim (Bool-cases (p x)) [
        | inl hit ↦ rw hit ((λ k. marks x), marked xs h.1)
        | inr miss ↦ rw miss ((λ k. rw miss at (h.0 k)), marked xs h.1)
      ]
