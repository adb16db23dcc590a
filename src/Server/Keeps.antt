-- ===== src/Server/Keeps.antt =====
-- Invariants of handlers: a rule for each way to build one, whether it returns or fails.
use rsmsg.Base.{
  if◌then◌else◌, Bool-cases, ℕ, suc, String, ◌≡◌, refl, inl, inr, Bool, true, false, Option, none,
  some,
}
use rsmsg.Server.State.{Database, Server}
use rsmsg.Server.Monad.{
  StatusCode, ApiResult, ok, err, Moment, Outcome, done, failed, M, pure, fail, guard, ok_or, lift,
  resume, ◌>>=◌, Query, answer, query, after, commit, transaction,
}

-- What a statement leaves where it succeeds.
abbrev pub Leaves : {A : Type 0} → (Database → Type 0) → Option (A × Database) → Type 0
Leaves P none = Unit
Leaves P (some (a, d)) = P d

-- A statement of the repository keeps `P`.
pub record Maintains {A : Type 0} (P : Database → Type 0) (q : Query A) : Type 0 where
  pub at : (t : Moment) (n : ℕ) (d : Database) → P d → Leaves P (q t n d)

-- A handler keeps `P`.
pub record Keeps {A : Type 0} (P : Server → Type 0) (m : M A) : Type 0 where
  pub at : (t : Moment) (s : Server) → P s → P (after (m t s))

module _ {P : Server → Type 0} where
  pub Keeps-pure : {A : Type 0} (a : A) → Keeps P (pure a)
  unfolding pure
  Keeps-pure a = record { at = λ t s h. h }

  pub Keeps-fail :
      {A : Type 0} (code : StatusCode) (message : String) → Keeps P (fail {A = A} code message)
  unfolding fail
  Keeps-fail code message = record { at = λ t s h. h }

  pub Keeps-guard :
      (b : Bool) (code : StatusCode) (message : String) → Keeps P (guard b code message)
  unfolding guard
  Keeps-guard true code message = record { at = λ t s h. h }
  Keeps-guard false code message = record { at = λ t s h. h }

  pub Keeps-ok_or :
      {A : Type 0} (o : Option A) (code : StatusCode) (message : String)
      → Keeps P (ok_or o code message)
  unfolding ok_or
  Keeps-ok_or none code message = record { at = λ t s h. h }
  Keeps-ok_or (some a) code message = record { at = λ t s h. h }

  pub Keeps-lift : {A : Type 0} (r : ApiResult A) → Keeps P (lift r)
  unfolding lift
  Keeps-lift (ok a) = record { at = λ t s h. h }
  Keeps-lift (err e) = record { at = λ t s h. h }

  pub Keeps-if :
      {A : Type 0} (b : Bool) (m k : M A) → Keeps P m → Keeps P k → Keeps P (if b then m else k)
  Keeps-if true m k hm hk = hm
  Keeps-if false m k hm hk = hk

  Keeps-resume :
      {A B : Type 0} (o : Outcome A) (f : A → M B)
      → ((a : A) → Keeps P (f a))
      → (t : Moment) → P (after o)
      → P (after (resume o f t))
  unfolding resume
  Keeps-resume (done a s') f hf t h = (hf a).at t s' h
  Keeps-resume (failed e s') f hf t h = h

  pub Keeps-bind :
      {A B : Type 0} (m : M A) (f : A → M B)
      → Keeps P m
      → ((a : A) → Keeps P (f a))
      → Keeps P (m >>= f)
  unfolding ◌>>=◌
  Keeps-bind m f hm hf = record { at = λ t s h. Keeps-resume (m t s) f hf t (hm.at t s h) }

  -- The rest of the block may use what the option holds.
  pub Keeps-bind-ok_or :
      {A B : Type 0} (o : Option A) (code : StatusCode) (message : String) (f : A → M B)
      → ((a : A) → o ≡ some a → Keeps P (f a))
      → Keeps P (ok_or o code message >>= f)
  unfolding ◌>>=◌
  Keeps-bind-ok_or none code message f hf = record { at = λ t s h. h }
  Keeps-bind-ok_or (some a) code message f hf = hf a refl

-- A predicate of the database, as one of the server.
pub record On (P : Database → Type 0) (s : Server) : Type 0 where
  pub get : P s.db

-- The invariants of the database.
Leaves-answer :
    {A : Type 0} (P : Database → Type 0) (s : Server) (o : Option (A × Database))
    → P s.db
    → Leaves P o
    → P (after (answer s o)).db
unfolding answer
Leaves-answer P s none h l = h
Leaves-answer P s (some (a, d)) h l = l

after-commit :
    {A : Type 0} (P : Database → Type 0) (saved : Database) (t : Moment) (o : Outcome A)
    → P saved
    → P (after o).db
    → P (after (commit saved t o)).db
unfolding commit
after-commit P saved t (failed e s) hs h = hs
after-commit P saved t (done a s) hs h = elim (Bool-cases (t.outage s.calls)) [
  | inl down ↦ rw (down, commit) hs
  | inr up ↦ rw (up, commit) h
]

module _ {P : Database → Type 0} where
  pub Keeps-query : {A : Type 0} (q : Query A) → Maintains P q → Keeps (On P) (query q)
  unfolding query
  Keeps-query q hq = record {
    at = λ t s h. record {
      get = elim (Bool-cases (t.outage s.calls)) [
        | inl down ↦ rw (down, query) h.get
        | inr up ↦
            rw (up, query)
              (Leaves-answer P (record s { calls = suc s.calls }) (q t s.calls s.db) h.get
                (hq.at t s.calls s.db h.get))
      ];
    };
  }

  pub Keeps-transaction : {A : Type 0} (m : M A) → Keeps (On P) m → Keeps (On P) (transaction m)
  unfolding transaction
  Keeps-transaction m hm = record {
    at = λ t s h. record {
      get = elim (Bool-cases (t.outage s.calls)) [
        | inl down ↦ rw (down, transaction, query) h.get
        | inr up ↦
            rw (up, transaction, query)
              (after-commit P s.db t (m t (record s { calls = suc s.calls })) h.get
                (hm.at t (record s { calls = suc s.calls }) (record { get = h.get })).get)
      ];
    };
  }

pub ruleset keeps_rules = (
  Keeps-pure, Keeps-fail, Keeps-guard, Keeps-ok_or, Keeps-lift, Keeps-if, Keeps-bind, Keeps-query,
  Keeps-transaction,
)
