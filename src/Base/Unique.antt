-- ===== src/Base/Unique.antt =====
-- The row that a unique key names, found by a test, and lists that are cut, sorted and joined.
use rsmsg.Base.Equality.{Bool-cases}
use rsmsg.Base.Lists.{length, filter, any, All, take, insert_by, sort_by}
use rsmsg.Base.Rows.{Distinct}
use rsmsg.Base.Settled.{Implies, Among, Among-any}
use Prim.Native.Nat.{ℕ, zero, suc, ◌+◌, ◌≤◌}
use mathlib.Core.Path.{◌≡◌, refl, sym, ◌∙◌, ap}
use mathlib.Core.Logic.{inl, inr}
use mathlib.Core.Bool.{Bool, true, false, not, ◌||◌}
use mathlib.Core.List.{List, [], ◌∷◌, ◌++◌, map}
use native.Mathlib.Omega.{arith}

module _ {A : Type 0} where
  pub any-Among :
      (p : A → Bool) (xs : List A) → any p xs ≡ true → (a : A) × Among a xs × (p a ≡ true)
  unfolding any
  any-Among p [] e = cc
  any-Among p (x ∷ xs) e = elim (Bool-cases (p x)) [
    | inl hit ↦ (x, inl refl, hit)
    | inr miss ↦ let (a, m, h) = any-Among p xs (ground (arith, miss)) in (a, inr m, h)
  ]

  pub any-none :
      (p q : A → Bool) (xs : List A)
      → any p xs ≡ false
      → ((x : A) → q x ≡ true → p x ≡ true)
      → (mark : A → Bool) → All (Implies q mark) xs
  unfolding any
  any-none p q [] e f mark = tt
  any-none p q (x ∷ xs) e f mark =
      ((λ h. ground (arith, f x h)), any-none p q xs (ground arith) f mark)

  -- Where no two rows are the same, and all rows of the key are, a marked row of the key is the only
  -- one.
  pub Distinct-Implies :
      (same : A → A → Bool) (key mark : A → Bool)
      → ((x y : A) → key x ≡ true → key y ≡ true → same x y ≡ true)
      → (xs : List A) (a : A) → Distinct same xs
      → Among a xs
      → key a ≡ true
      → mark a ≡ true
      → All (Implies key mark) xs
  Distinct-Implies same key mark f [] a h m k e = tt
  Distinct-Implies same key mark f (x ∷ xs) a h (inl eq) k e = (
    (λ _. ap mark (sym eq) ∙ e),
    any-none (same x) key xs h.0 (λ y. f x y (ap key (sym eq) ∙ k)) mark,
  )
  Distinct-Implies same key mark f (x ∷ xs) a h (inr m) k e = (
    (λ kx. absurd (ground (arith, h.0, Among-any (same x) xs a m (f x a kx k)))),
    Distinct-Implies same key mark f xs a h.1 m k e,
  )

  pub any-take_le :
      (p : A → Bool) (n : ℕ) (xs : List A) → any p xs ≡ false → any p (take n xs) ≡ false
  unfolding any
  any-take_le p zero xs e = refl
  any-take_le p (suc n) [] e = e
  any-take_le p (suc n) (x ∷ xs) e = ground (arith, any-take_le p n xs)

  any-insert_by :
      (le : A → A → Bool) (p : A → Bool) (x : A) (xs : List A)
      → any p (insert_by le x xs) ≡ (p x || any p xs)
  unfolding any insert_by
  any-insert_by le p x [] = refl
  any-insert_by le p x (y ∷ ys) = ground (arith, any-insert_by le p x ys)

  pub any-sort_by :
      (le : A → A → Bool) (p : A → Bool) (xs : List A) → any p (sort_by le xs) ≡ any p xs
  unfolding any sort_by
  any-sort_by le p [] = refl
  any-sort_by le p (x ∷ xs) =
      ground (arith, any-insert_by le p x (sort_by le xs), any-sort_by le p xs)

  pub any-map :
      {B : Type 0} (p : B → Bool) (f : A → B) (xs : List A)
      → any p (map f xs) ≡ any (λ x. p (f x)) xs
  unfolding any
  any-map p f [] = refl
  any-map p f (x ∷ xs) = ground (arith, any-map p f xs)

  pub length-map : {B : Type 0} (f : A → B) (xs : List A) → length (map f xs) ≡ length xs
  length-map f [] = refl
  length-map f (x ∷ xs) = ap suc (length-map f xs)

  pub length-take_le : (n : ℕ) (xs : List A) → length (take n xs) ≤ n
  length-take_le zero xs = omega arith
  length-take_le (suc n) [] = omega arith
  length-take_le (suc n) (x ∷ xs) = let le = length-take_le n xs in omega arith

  pub take-all : (n : ℕ) (xs : List A) → length xs ≤ n → take n xs ≡ xs
  take-all zero [] le = refl
  take-all zero (x ∷ xs) le = absurd (omega arith)
  take-all (suc n) [] le = refl
  take-all (suc n) (x ∷ xs) le = ap (λ ys. x ∷ ys) (take-all n xs (omega arith))

  pub any-filter :
      (q p : A → Bool) (xs : List A) (a : A)
      → Among a xs
      → p a ≡ true
      → q a ≡ true
      → any q (filter p xs) ≡ true
  unfolding any filter
  any-filter q p [] a m e f = absurd m
  any-filter q p (x ∷ xs) a m e f = ground (arith, any-filter q p xs a)

  pub any-filter-not : (p : A → Bool) (xs : List A) → any p (filter (λ x. not (p x)) xs) ≡ false
  unfolding any filter
  any-filter-not p [] = refl
  any-filter-not p (x ∷ xs) = ground (arith, any-filter-not p xs)

  pub length-append : (xs ys : List A) → length (xs ++ ys) ≡ length xs + length ys
  length-append [] ys = omega arith
  length-append (x ∷ xs) ys = let ih = length-append xs ys in omega arith
