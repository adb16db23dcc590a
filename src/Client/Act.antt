-- ===== src/Client/Act.antt =====
-- Code of the client that can fail and that changes a state: what it returns, with the state that it
-- leaves.
use rsmsg.Base.{◌≡◌, refl, sym, ap, ◌∙◌}
use rsmsg.Base.Text.{Text}
use rsmsg.Crypto.Engine.{Result, good, anyhow}

abbrev pub Act : Type 0 → Type 0 → Type 0
Act S A = S → Result A × S

unfoldable pub give : {S A : Type 0} → A → Act S A
give a s = (good a, s)

-- A result that touches no state.
unfoldable pub lift : {S A : Type 0} → Result A → Act S A
lift r s = (r, s)

unfoldable pub fail : {S A : Type 0} → Text → Act S A
fail e s = (anyhow e, s)

-- What follows an action: `?` returns its error.
unfoldable pub resume : {S A B : Type 0} → Result A × S → (A → Act S B) → Result B × S
resume (good a, s) f = f a s
resume (anyhow e, s) f = (anyhow e, s)

infixl 5 ◌>>=◌ ◌>>◌
-- Opening this opens `give`, `lift` and `fail` too.
unfoldable pub ◌>>=◌ : {S A B : Type 0} → Act S A → (A → Act S B) → Act S B
unfolding resume give lift fail
◌>>=◌ m f s = resume (m s) f

abbrev pub ◌>>◌ : {S B : Type 0} → Act S (Unit {0}) → Act S B → Act S B
m >> k = m >>= λ _. k

-- The state is read, and it is changed.
unfoldable pub state : {S : Type 0} → Act S S
state s = (good s, s)

unfoldable pub modify : {S : Type 0} → (S → S) → Act S (Unit {0})
modify f s = (good tt, f s)

-- `with_context`: the text of the error is the context.
unfoldable pub in_context : {S A : Type 0} → Text → Act S A → Act S A
unfolding resume
in_context context m s = elim ((m s).0) [
  | good a ↦ (good a, (m s).1)
  | anyhow e ↦ (anyhow context, (m s).1)
]

-- `let _ = ...`
unfoldable pub ignore_error : {S A : Type 0} → Act S A → Act S (Unit {0})
ignore_error m s = (good tt, (m s).1)

anyhow-ne-good : {B : Type 0} {e : Text} {b : B} → ¬ (◌≡◌ {A = Result B} (anyhow e) (good b))
anyhow-ne-good h = cc

-- What has gone well of a chain.
pub >>=-eq-good :
    {S A B : Type 0} (m : Act S A) (f : A → Act S B) (s s' : S) (b : B)
    → (m >>= f) s ≡ (good b, s')
    → (a : A) × (t : S) × (m s ≡ (good a, t)) × (f a t ≡ (good b, s'))
unfolding ◌>>=◌
>>=-eq-good {S} {A} m f s s' b h = split (m s) refl
  where
    split :
        (r : Result A × S)
        → m s ≡ r
        → (a : A) × (t : S) × (m s ≡ (good a, t)) × (f a t ≡ (good b, s'))
    split (good a, t) e = (a, t, e, ap (λ r. resume r f) (sym e) ∙ h)
    split (anyhow x, t) e =
        absurd (anyhow-ne-good (ap (λ r. r.0) (ap (λ r. resume r f) (sym e) ∙ h)))
