-- ===== src/Base/Dict.antt =====
-- Maps with texts as keys, as association lists: `HashMap<String, V>` with `get`, `insert`,
-- `remove` and `contains_key`, and the laws of them.
use mathlib.Core.Path.{◌≡◌, refl}
use mathlib.Core.Bool.{Bool}
use mathlib.Core.List.{List, [], ◌∷◌}
use mathlib.Core.Option.{Option, none, some}
use native.Mathlib.Omega.{arith}
use rsmsg.Base.Equality.{◌==◌, text_eq, if◌then◌else◌, is_some}
use rsmsg.Base.Text.{Text}

module _ {V : Type 0} where
  unfoldable pub get : Text → List (Text × V) → Option V
  get key [] = none
  get key ((k, v) ∷ m) = if k == key then some v else get key m

  unfoldable pub insert : Text → V → List (Text × V) → List (Text × V)
  insert key v [] = (key, v) ∷ []
  insert key v ((k, old) ∷ m) = if k == key then (k, v) ∷ m else (k, old) ∷ insert key v m

  unfoldable pub remove : Text → List (Text × V) → List (Text × V)
  remove key [] = []
  remove key ((k, v) ∷ m) = let rest = remove key m in if k == key then rest else (k, v) ∷ rest

  unfoldable pub contains_key : Text → List (Text × V) → Bool
  unfolding get
  contains_key key m = is_some (get key m)

  pub get-insert :
      (key other : Text) (v : V) (m : List (Text × V))
      → get other (insert key v m) ≡ (if key == other then some v else get other m)
  unfolding get insert
  get-insert key other v [] = refl
  get-insert key other v ((k, old) ∷ m) = ground (arith, get-insert key other v m)

  pub get-remove :
      (key other : Text) (m : List (Text × V))
      → get other (remove key m) ≡ (if key == other then none else get other m)
  unfolding get remove
  get-remove key other [] = ground arith
  get-remove key other ((k, v) ∷ m) = ground (arith, get-remove key other m)
