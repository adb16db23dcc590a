-- ===== src/Base/Rows.antt =====
-- Laws of tables: rows selected by a test, updated in place, and kept apart by a key.
use rsmsg.Base.Equality.{Bool-cases, is_some}
use rsmsg.Base.Lists.{find?, any, filter, update_where, All}
use mathlib.Core.Path.{◌≡◌, refl, ◌∙◌, ap, fun_ext}
use mathlib.Core.Logic.{inl, inr}
use mathlib.Core.Bool.{Bool, true, false}
use mathlib.Core.List.{List, [], ◌∷◌}
use mathlib.Core.Option.{some}
use native.Mathlib.Omega.{arith}

module _ {ℓ} {A : Type ℓ} where
  pub find?-none_iff_any : (p : A → Bool) (xs : List A) → any p xs ≡ is_some (find? p xs)
  unfolding any find?
  find?-none_iff_any p [] = refl
  find?-none_iff_any p (x ∷ xs) = ground (arith, find?-none_iff_any p xs)

  pub find?-sound : (p : A → Bool) (xs : List A) (x : A) → find? p xs ≡ some x → p x ≡ true
  unfolding find?
  find?-sound p [] x e = cc
  find?-sound p (y ∷ ys) x e = ground (arith, find?-sound p ys x)

  pub any-filter_le :
      (p q : A → Bool) (xs : List A) → any q xs ≡ false → any q (filter p xs) ≡ false
  unfolding any filter
  any-filter_le p q [] e = refl
  any-filter_le p q (x ∷ xs) e = ground (arith, any-filter_le p q xs)

  pub All-filter {κ} :
      (P : A → Type κ) (p : A → Bool) (xs : List A) → All P xs → All P (filter p xs)
  unfolding filter
  All-filter P p [] h = tt
  All-filter P p (x ∷ xs) h = ground (arith, All-filter P p xs h.1)

  pub All-of {κ} : (P : A → Type κ) → ((x : A) → P x) → (xs : List A) → All P xs
  All-of P f [] = tt
  All-of P f (x ∷ xs) = (f x, All-of P f xs)

  pub All-mono {κ μ} :
      (P : A → Type κ) (Q : A → Type μ)
      → ((x : A) → P x → Q x)
      → (xs : List A) → All P xs
      → All Q xs
  All-mono P Q f [] h = tt
  All-mono P Q f (x ∷ xs) h = (f x h.0, All-mono P Q f xs h.1)

  pub All-find? {κ} :
      (P : A → Type κ) (p : A → Bool) (xs : List A) (x : A) → All P xs → find? p xs ≡ some x → P x
  unfolding find?
  All-find? P p [] x h e = cc
  All-find? P p (y ∷ ys) x h e = elim (Bool-cases (p y)) [
    | inl hit ↦ ground (arith, h.0)
    | inr miss ↦ All-find? P p ys x h.1 (ground arith)
  ]

module _ {ℓ} {A : Type ℓ} (p : A → Bool) (f : A → A) where
  pub any-update_where :
      (q : A → Bool)
      → ((x : A) → q (f x) ≡ q x)
      → (xs : List A) → any q (update_where p f xs) ≡ any q xs
  unfolding any update_where
  any-update_where q e [] = refl
  any-update_where q e (x ∷ xs) = ground (arith, any-update_where q e xs, e x)

  pub All-update_where {κ} :
      (P : A → Type κ)
      → ((x : A) → P x → P (f x))
      → (xs : List A) → All P xs
      → All P (update_where p f xs)
  unfolding update_where
  All-update_where P e [] h = tt
  All-update_where P e (x ∷ xs) h = elim (Bool-cases (p x)) [
    | inl hit ↦ rw hit (e x h.0, All-update_where P e xs h.1)
    | inr miss ↦ rw miss (h.0, All-update_where P e xs h.1)
  ]

-- No two rows are the same by the test.
module _ {ℓ} {A : Type ℓ} (same : A → A → Bool) where
  abbrev pub Distinct : List A → Type 0
  Distinct [] = Unit
  Distinct (x ∷ xs) = (any (same x) xs ≡ false) × Distinct xs

  pub Distinct-update_where :
      (p : A → Bool) (f : A → A)
      → ((x y : A) → same (f x) y ≡ same x y)
      → ((x y : A) → same x (f y) ≡ same x y)
      → (xs : List A) → Distinct xs
      → Distinct (update_where p f xs)
  unfolding update_where
  Distinct-update_where p f l r [] h = tt
  Distinct-update_where p f l r (x ∷ xs) h = elim (Bool-cases (p x)) [
    | inl hit ↦ rw hit (
      any-update_where p f (same (f x)) (λ y. r (f x) y) xs ∙ any-same x xs ∙ h.0,
      Distinct-update_where p f l r xs h.1,
    )
    | inr miss ↦
        rw miss (
          any-update_where p f (same x) (λ y. r x y) xs ∙ h.0,
          Distinct-update_where p f l r xs h.1,
        )
  ]
    where
      any-same : (x : A) (ys : List A) → any (same (f x)) ys ≡ any (same x) ys
      any-same x ys = ap (λ q. any q ys) (fun_ext (l x))

  pub Distinct-filter : (p : A → Bool) (xs : List A) → Distinct xs → Distinct (filter p xs)
  unfolding filter
  Distinct-filter p [] h = tt
  Distinct-filter p (x ∷ xs) h =
      ground (arith, Distinct-filter p xs h.1, any-filter_le p (same x) xs h.0)
