-- ===== src/Intake/Postgres/Success.antt =====
-- Statements and transactions of internal/store/postgres.go that succeeded.
use doc_lens.Base.{String, ◌≡◌, refl, Option, some, none, arith, Result, ok, err, Exec, string_eq}
use doc_lens.Intake.Types.{StoreError}
use doc_lens.Intake.Database.{
  Database, Sql, Statement, Violation, unless, statement, query, transaction, kept, unless_fault,
  answer,
}
use doc_lens.Intake.Postgres.{wrap, control}

module _ {A : Type 0} where
  unless_fault_ok :
      (o : Option String) (wrap : String → StoreError) (m : Exec Database StoreError A)
      (d d' : Database) (a : A)
      → unless_fault o wrap m d ≡ (ok a, d')
      → m d ≡ (ok a, d')
  unless_fault_ok (some text) wrap m d d' a h = ground arith
  unless_fault_ok none wrap m d d' a h = h

  answer_ok :
      (q : Sql) (wrap : String → StoreError) (r : Result Violation (A × Database)) (d d' : Database)
      (a : A)
      → answer q wrap r d ≡ (ok a, d')
      → r ≡ ok (a, d')
  answer_ok q wrap (err v) d d' a h = ground arith
  answer_ok q wrap (ok (b, t)) d d' a h = ground arith

  pub statement_ok :
      (q : Sql) (s : Statement) (wrap : String → StoreError)
      (run : Database → Result Violation (A × Database)) (d d' : Database) (a : A)
      → statement q s wrap run d ≡ (ok a, d')
      → run d ≡ ok (a, d')
  unfolding statement
  statement_ok q s wrap run d d' a h =
      answer_ok q wrap (run d) d d' a (unless_fault_ok (q.fault s) wrap _ d d' a h)

  pub query_ok :
      (q : Sql) (s : Statement) (wrap : String → StoreError) (read : Database → A) (d d' : Database)
      (a : A)
      → query q s wrap read d ≡ (ok a, d')
      → (read d ≡ a) × (d ≡ d')
  unfolding query
  query_ok q s wrap read d d' a h =
      ground (arith, statement_ok q s wrap (λ t. ok (read t, t)) d d' a h)

  kept_ok :
      (r : Result StoreError A) (d t d' : Database) (a : A)
      → ◌≡◌ {A = Result StoreError A × Database} (r, kept r d t) (ok a, d')
      → (r ≡ ok a) × (t ≡ d')
  kept_ok (ok b) d t d' a h = ground arith
  kept_ok (err e) d t d' a h = ground arith

  pub transaction_ok :
      (body : Exec Database StoreError A) (d d' : Database) (a : A)
      → transaction body d ≡ (ok a, d')
      → body d ≡ (ok a, d')
  unfolding transaction
  transaction_ok body d d' a h = ground (arith, kept_ok (body d).0 d (body d).1 d' a h)

pub control_ok :
    (q : Sql) (s : Statement) (prefix : String) (d d' : Database)
    → control q s prefix d ≡ (ok tt, d')
    → d ≡ d'
unfolding control
control_ok q s prefix d d' h = (query_ok q s _ (λ t. tt) d d' tt h).1

pub unless_ok :
    {A : Type 0} (o : Option Violation) (a b : A) → unless o a ≡ ok b → (o ≡ none) × (a ≡ b)
unless_ok none a b h = (refl, ground arith)
unless_ok (some v) a b h = ground arith
