-- ===== src/Intake/Postgres/Moves.antt =====
-- Statements and transactions of internal/store/postgres.go, and a relation between the tables before and
-- after them.
use doc_lens.Base.{
  String, ◌≡◌, refl, subst, Bool, true, false, Option, none, some, arith, Result, ok, err, Exec,
  Preorder, Moves, check, string_eq,
}
use doc_lens.Intake.Types.{StoreError}
use doc_lens.Intake.Database.{
  Database, Sql, Statement, Violation, unless_fault, answer, kept, statement, query, transaction,
}
use doc_lens.Intake.Postgres.{wrap, control}

module _ {R : Database → Database → Type 0} ⦃p : Preorder R⦄ where
  pub Moves-test : (b : Bool) (e : StoreError) (d : Database) → Moves R (check b e) d
  unfolding check
  Moves-test true e d = record { at = p.reflexive d }
  Moves-test false e d = record { at = p.reflexive d }

  Moves-unless_fault :
      {A : Type 0} (o : Option String) (wrap : String → StoreError) (m : Exec Database StoreError A)
      (d : Database)
      → Moves R m d
      → Moves R (unless_fault o wrap m) d
  Moves-unless_fault (some text) wrap m d h = record { at = p.reflexive d }
  Moves-unless_fault none wrap m d h = record { at = h.at }

  Moves-answer :
      {A : Type 0} (q : Sql) (wrap : String → StoreError) (r : Result Violation (A × Database))
      (d : Database)
      → ((a : A) (d' : Database) → r ≡ ok (a, d') → R d d')
      → Moves R (answer q wrap r) d
  Moves-answer q wrap (err v) d h = record { at = p.reflexive d }
  Moves-answer q wrap (ok (a, d')) d h = record { at = h a d' refl }

  pub Moves-statement :
      {A : Type 0} (q : Sql) (s : Statement) (wrap : String → StoreError)
      (run : Database → Result Violation (A × Database)) (d : Database)
      → ((a : A) (d' : Database) → run d ≡ ok (a, d') → R d d')
      → Moves R (statement q s wrap run) d
  unfolding statement
  Moves-statement q s wrap run d h = record {
    at = (Moves-unless_fault (q.fault s) wrap _ d (Moves-answer q wrap (run d) d h)).at;
  }

  pub Moves-query :
      {A : Type 0} (q : Sql) (s : Statement) (wrap : String → StoreError) (read : Database → A)
      (d : Database)
      → Moves R (query q s wrap read) d
  unfolding query
  Moves-query q s wrap read d =
      Moves-statement q s wrap (λ t. ok (read t, t)) d
        (λ a d' e. subst (R d) (ground arith) (p.reflexive d))

  pub Moves-control :
      (q : Sql) (s : Statement) (prefix : String) (d : Database) → Moves R (control q s prefix) d
  unfolding control
  Moves-control q s prefix d = Moves-query q s _ _ d

  pub Moves-transaction :
      {A : Type 0} (body : Exec Database StoreError A) (d : Database)
      → Moves R body d
      → Moves R (transaction body) d
  unfolding transaction
  Moves-transaction {A = A} body d h = record { at = after (body d).0 (body d).1 h.at }
    where
      after : (r : Result StoreError A) (d' : Database) → R d d' → R d (kept r d d')
      after (ok a) d' h = h
      after (err e) d' h = p.reflexive d
