-- ===== src/Server/Monad/Done.antt =====
-- What a handler did where it returned, and what it left where it failed: the actions of the monad.
use rsmsg.Base.{
  Bool-cases, Option-cases, suc, String, ◌≡◌, refl, ◌⊎◌, inl, inr, Bool, true, false, Option, none,
  some, arith,
}
use rsmsg.Server.State.{Database, Server}
use rsmsg.Server.Monad.{
  StatusCode, ApiError, ApiResult, ok, err, Moment, Outcome, done, failed, M, guard, ok_or, ◌>>=◌,
  ◌>>◌, Query, query, commit, transaction,
}

-- What a chain, a statement and a transaction did where they returned.
pub bind_done :
    {A B : Type 0} (m : M A) (f : A → M B) (t : Moment) (s : Server) (b : B) (s' : Server)
    → (m >>= f) t s ≡ done b s'
    → (a : A) × (s'' : Server) × (m t s ≡ done a s'') × (f a t s'' ≡ done b s')
unfolding ◌>>=◌
bind_done m f t s b s' h = ground arith

pub query_done :
    {A : Type 0} (q : Query A) (t : Moment) (s : Server) (a : A) (s' : Server)
    → query q t s ≡ done a s'
    → (q t s.calls s.db ≡ some (a, s'.db)) × (s' ≡ record s { db = s'.db; calls = suc s.calls })
unfolding query
query_done q t s a s' h = ground arith

commit_done :
    {A : Type 0} (saved : Database) (t : Moment) (o : Outcome A) (a : A) (s' : Server)
    → commit saved t o ≡ done a s'
    → (s'' : Server) × (o ≡ done a s'') × (s'.db ≡ s''.db)
unfolding commit
commit_done saved t (failed e s) a s' h = cc
commit_done saved t (done b s) a s' h = (s, ground arith, ground arith)

pub transaction_done :
    {A : Type 0} (m : M A) (t : Moment) (s : Server) (a : A) (s' : Server)
    → transaction m t s ≡ done a s'
    → (s'' : Server) × (m t (record s { calls = suc s.calls }) ≡ done a s'') × (s'.db ≡ s''.db)
unfolding transaction query
transaction_done m t s a s' h = elim (Bool-cases (t.outage s.calls)) [
  | inl down ↦ absurd (ground (arith, down))
  | inr up ↦ commit_done s.db t (m t (record s { calls = suc s.calls })) a s' (ground (arith, up))
]

pub result_cases :
    {A : Type 0} (r : ApiResult A) → ((a : A) × (r ≡ ok a)) ⊎ ((e : ApiError) × (r ≡ err e))
result_cases (ok a) = inl (a, refl)
result_cases (err e) = inr (e, refl)

-- The first step of a chain that returned, and the rest.
module _ {B C : Type 0} {t : Moment} {s : Server} {r : B} {s' : Server} where
  pub guard_then :
      (b : Bool) (code : StatusCode) (message : String) (k : M B)
      → (guard b code message >> k) t s ≡ done r s'
      → (b ≡ true → k t s ≡ done r s' → C)
      → C
  unfolding ◌>>=◌
  guard_then true code message k h f = f refl h
  guard_then false code message k h f = cc

  pub ok_or_then :
      {A : Type 0} (o : Option A) (code : StatusCode) (message : String) (f : A → M B)
      → (ok_or o code message >>= f) t s ≡ done r s'
      → ((a : A) → o ≡ some a → f a t s ≡ done r s' → C)
      → C
  unfolding ◌>>=◌
  ok_or_then none code message f h g = cc
  ok_or_then (some a) code message f h g = g a refl h

  pub query_then :
      {A : Type 0} (q : Query A) (f : A → M B)
      → (query q >>= f) t s ≡ done r s'
      → ((a : A) (d : Database)
          → q t s.calls s.db ≡ some (a, d)
          → f a t (record s { db = d; calls = suc s.calls }) ≡ done r s'
          → C)
      → C
  unfolding ◌>>=◌ query
  query_then q f h g = elim (Bool-cases (t.outage s.calls)) [
    | inl down ↦ absurd (ground (arith, down))
    | inr up ↦ elim (Option-cases (q t s.calls s.db)) [
      | inl nothing ↦ absurd (ground (arith, up, nothing))
      | inr ((a, d), e) ↦ g a d e (ground (arith, up, e))
    ]
  ]

  pub bind_then :
      {A : Type 0} (m : M A) (f : A → M B)
      → (m >>= f) t s ≡ done r s'
      → ((a : A) (s1 : Server) → m t s ≡ done a s1 → f a t s1 ≡ done r s' → C)
      → C
  bind_then m f h g = let (a, s1, e, rest) = bind_done m f t s r s' h in g a s1 e rest

-- To split on what a handler ends with, and keep the equation.
pub Outcome-cases :
    {A : Type 0} (o : Outcome A)
    → ((a : A) × (s : Server) × (o ≡ done a s)) ⊎ ((e : ApiError) × (s : Server) × (o ≡ failed e s))
Outcome-cases (done a s) = inl (a, s, refl)
Outcome-cases (failed e s) = inr (e, s, refl)
