-- ===== src/Identity/Postgres.antt =====
-- `Postgres` of doclens-identity-service/internal/store/postgres.go, on the tables of
-- internal/store/migration.go. Each call is a transaction or one query, so it is one step; the
-- deadlines of the operations show as failing steps. A TIMESTAMPTZ column keeps a time in microseconds.
pub mod Refines
use doc_lens.Base.{
  micros, some_micros, ℕ, String, Bool, true, false, ◌||◌, not, List, [], ◌∷◌, ◌++◌, Option, none,
  some, any, ◌==◌, string_eq, if◌then◌else◌, Result, ok, err, Exec, pure, hex, ◌>>=◌, ◌>>◌,
}
use doc_lens.Identity.Users.{
  User, RefreshToken, UserError, user_exists, user_not_found, user_failure, UserStore, normal_email,
  or_now,
}

pub record TokenRow : Type 0 where
  pub token_hash : String
  pub user_id : String
  pub expires_at : ℕ
  pub created_at : ℕ

pub record Tables : Type 0 where
  pub users : List User
  pub refresh_tokens : List TokenRow

-- The steps of a call that the server or the connection may refuse.
pub data Step : Type 0 where
  begin insert_user select_user insert_token commit : Step

-- The steps that fail and the text of their errors, the errors of the constraints, and SHA-256 of a text.
pub record Server : Type 0 where
  pub fault : Step → Option String
  pub duplicate_token : String
  pub unknown_user : String
  pub sha256 : String → List ℕ

unfoldable pub hash_token : Server → String → String
hash_token q token = hex (q.sha256 token)

abbrev pub attempt : Server → Step → Exec Tables UserError Unit
attempt q s d = elim (q.fault s) [ some text ↦ (err (user_failure text), d) | none ↦ (ok tt, d) ]

-- The tables after a transaction with this result, from `d` to `d'`.
abbrev pub kept : {A : Type 0} → Result UserError A → Tables → Tables → Tables
kept (ok a) d d' = d'
kept (err e) d d' = d

-- `defer tx.Rollback(…)`
unfoldable pub transaction : {A : Type 0} → Exec Tables UserError A → Exec Tables UserError A
transaction body d = let (r, d') = body d in (r, kept r d d')

-- The user as it is inserted and returned.
unfoldable pub stored_user : ℕ → User → User
stored_user now user = record user {
  email = normal_email user.email;
  created_at = or_now now user.created_at;
}

-- The user as the row keeps it.
abbrev pub user_row : User → User
user_row user = record user { created_at = some_micros user.created_at }

-- The unique columns are the id and the address.
unfoldable pub add_user : User → Exec Tables UserError Unit
add_user user d =
    if any (λ row. row.id == user.id || row.email == user.email) d.users
    then (err user_exists, d)
    else (ok tt, record d { users = d.users ++ user_row user ∷ [] })

unfoldable pub create_in : Server → User → Exec Tables UserError User
create_in q user = do
  attempt q begin
  attempt q insert_user
  add_user user
  attempt q commit
  pure user

unfoldable pub create_user : Server → ℕ → User → Exec Tables UserError User
create_user q now user = transaction (create_in q (stored_user now user))

unfoldable pub find_user : String → List User → Option User
find_user email [] = none
find_user email (row ∷ rows) = if row.email == email then some row else find_user email rows

abbrev pub or_not_found : Option User → Exec Tables UserError User
or_not_found none d = (err user_not_found, d)
or_not_found (some user) d = (ok user, d)

unfoldable pub user_by_email : Server → String → Exec Tables UserError User
user_by_email q email d =
    (attempt q select_user >> or_not_found (find_user (normal_email email) d.users)) d

-- The hash is the key of the row, and the user must be there.
unfoldable pub add_token : Server → TokenRow → Exec Tables UserError Unit
add_token q row d =
    if any (λ other. other.token_hash == row.token_hash) d.refresh_tokens
    then (err (user_failure q.duplicate_token), d)
    else if not (any (λ user. user.id == row.user_id) d.users)
    then (err (user_failure q.unknown_user), d)
    else (ok tt, record d { refresh_tokens = d.refresh_tokens ++ row ∷ [] })

unfoldable pub save_in : Server → TokenRow → Exec Tables UserError Unit
save_in q row = do attempt q begin; attempt q insert_token; add_token q row; attempt q commit

unfoldable pub save_refresh_token : Server → RefreshToken → Exec Tables UserError Unit
save_refresh_token q token = transaction (
    save_in q (record {
      token_hash = hash_token q token.token;
      user_id = token.user_id;
      expires_at = micros token.expires_at;
      created_at = micros token.created_at;
    }))

abbrev pub postgres_users : Server → UserStore Tables
postgres_users q = record {
  create_user = create_user q;
  user_by_email = user_by_email q;
  save_refresh_token = save_refresh_token q;
}
