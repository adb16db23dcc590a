-- ===== src/Server/Undone.antt =====
-- What handlers that fail leave of the tables: a rule for each way to build one.
pub mod Domain
pub mod Requests
use rsmsg.Base.{
  if◌then◌else◌, Bool-cases, suc, ◌≡◌, refl, ◌∙◌, inl, inr, Bool, true, false, Option, none, some,
}
use rsmsg.Server.State.{Database, Server}
use rsmsg.Server.Monad.{
  Moment, Outcome, done, failed, M, pure, resume, ◌>>=◌, Query, answer, query, after, commit,
  transaction,
}
use rsmsg.Server.Keeps.{Keeps, On}

-- A handler that keeps this for every `d` only reads.
abbrev pub Same : Database → Database → Type 0
Same d d' = d' ≡ d

abbrev pub Restored : {A : Type 0} → Server → Outcome A → Type 0
Restored s (done a s') = Unit
Restored s (failed e s') = s'.db ≡ s.db

pub record Undone {A : Type 0} (m : M A) : Type 0 where
  pub at : (t : Moment) (s : Server) → Restored s (m t s)

Restored-query : {A : Type 0} (s : Server) (o : Option (A × Database)) → Restored s (answer s o)
unfolding answer
Restored-query s none = refl
Restored-query s (some (a, d)) = tt

pub Undone-query : {A : Type 0} (q : Query A) → Undone (query q)
unfolding query
Undone-query q = record {
  at = λ t s. elim (Bool-cases (t.outage s.calls)) [
    | inl down ↦ rw (down, query) refl
    | inr up ↦ rw (up, query) (Restored-query (record s { calls = suc s.calls }) (q t s.calls s.db))
  ];
}

Restored-commit :
    {A : Type 0} (s : Server) (t : Moment) (o : Outcome A) → Restored s (commit s.db t o)
unfolding commit query
Restored-commit s t (failed e s') = refl
Restored-commit s t (done a s') = elim (Bool-cases (t.outage s'.calls)) [
  | inl down ↦ rw (down, commit, query) refl
  | inr up ↦ rw (up, commit, query) tt
]

pub Undone-transaction : {A : Type 0} (m : M A) → Undone (transaction m)
unfolding transaction query
Undone-transaction m = record {
  at = λ t s. elim (Bool-cases (t.outage s.calls)) [
    | inl down ↦ rw (down, transaction, query) refl
    | inr up ↦
        rw (up, transaction, query)
          (Restored-commit (record s { calls = suc s.calls }) t
            (m t (record s { calls = suc s.calls })))
  ];
}

Restored-after : {A : Type 0} (s : Server) (o : Outcome A) → (after o).db ≡ s.db → Restored s o
Restored-after s (done a s') h = tt
Restored-after s (failed e s') h = h

-- What only reads.
pub Undone-reads : {A : Type 0} (m : M A) → ((d : Database) → Keeps (On (Same d)) m) → Undone m
Undone-reads m hm = record {
  at = λ t s. Restored-after s (m t s) ((hm s.db).at t s (record { get = refl })).get;
}

Restored-trans :
    {A : Type 0} (s s' : Server) (o : Outcome A) → s'.db ≡ s.db → Restored s' o → Restored s o
Restored-trans s s' (done a s'') e h = tt
Restored-trans s s' (failed f s'') e h = h ∙ e

Restored-resume :
    {A B : Type 0} (s : Server) (t : Moment) (o : Outcome A) (f : A → M B)
    → (after o).db ≡ s.db
    → ((a : A) → Undone (f a))
    → Restored s (resume o f t)
unfolding resume
Restored-resume s t (done a s') f e hf = Restored-trans s s' (f a t s') e ((hf a).at t s')
Restored-resume s t (failed g s') f e hf = e

-- A handler that reads, then one that is undone.
pub Undone-bind :
    {A B : Type 0} (m : M A) (f : A → M B)
    → ((d : Database) → Keeps (On (Same d)) m)
    → ((a : A) → Undone (f a))
    → Undone (m >>= f)
unfolding ◌>>=◌
Undone-bind m f hm hf = record {
  at = λ t s. Restored-resume s t (m t s) f ((hm s.db).at t s (record { get = refl })).get hf;
}

Restored-map :
    {A B : Type 0} (s : Server) (t : Moment) (o : Outcome A) (g : A → B)
    → Restored s o
    → Restored s (resume o (λ a. pure (g a)) t)
unfolding resume pure
Restored-map s t (done a s') g h = tt
Restored-map s t (failed e s') g h = h

-- A handler that is undone, and a response from its value.
pub Undone-map : {A B : Type 0} (m : M A) (g : A → B) → Undone m → Undone (m >>= λ a. pure (g a))
unfolding ◌>>=◌
Undone-map m g hm = record { at = λ t s. Restored-map s t (m t s) g (hm.at t s) }

pub Undone-if :
    {A : Type 0} (b : Bool) (m k : M A) → Undone m → Undone k → Undone (if b then m else k)
Undone-if true m k hm hk = hm
Undone-if false m k hm hk = hk

pub ruleset undone_rules = (Undone-query, Undone-transaction, Undone-map, Undone-bind)
