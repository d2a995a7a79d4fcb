-- ===== src/Identity/Users.antt =====
-- `Memory` of doclens-identity-service/internal/store/memory.go, and domain/domain.go. Times are
-- nanoseconds; `none` is Go's zero time.
use doc_lens.Base.{
  ℕ, String, Bool, false, List, [], Option, none, some, Assoc, lookup, insert, ok, err, Exec,
  trim_space, to_lower,
}

pub record User : Type 0 where
  pub id : String
  pub organization_id : String
  pub email : String
  pub password_hash : String
  pub roles : List String
  pub disabled : Bool
  pub created_at : Option ℕ

abbrev pub zero_user : User
zero_user = record {
  id = "";
  organization_id = "";
  email = "";
  password_hash = "";
  roles = [];
  disabled = false;
  created_at = none;
}

pub record RefreshToken : Type 0 where
  pub token : String
  pub user_id : String
  pub expires_at : ℕ
  pub created_at : ℕ

-- `ErrUserExists`, `ErrNotFound`, and any other error with its text.
pub data UserError : Type 0 where
  user_exists user_not_found : UserError
  user_failure : String → UserError

-- The interface `Store`. `create_user` takes what its `time.Now` returns.
pub record UserStore (S : Type 0) : Type 0 where
  pub create_user : ℕ → User → Exec S UserError User
  pub user_by_email : String → Exec S UserError User
  pub save_refresh_token : RefreshToken → Exec S UserError Unit

pub record Memory : Type 0 where
  pub users_by_id : Assoc User
  pub user_id_by_email : Assoc String
  pub refresh_tokens : Assoc RefreshToken

abbrev pub new_memory : Memory
new_memory = record { users_by_id = []; user_id_by_email = []; refresh_tokens = [] }

unfoldable pub normal_email : String → String
normal_email email = to_lower (trim_space email)

abbrev pub or_now : ℕ → Option ℕ → Option ℕ
or_now now none = some now
or_now now (some t) = some t

unfoldable pub add_user : User → Memory → Memory
add_user user m = record m {
  users_by_id = insert user.id user m.users_by_id;
  user_id_by_email = insert user.email user.id m.user_id_by_email;
}

unfoldable pub create_user : ℕ → User → Exec Memory UserError User
create_user now user m =
    let new = record user {
      email = normal_email user.email;
      created_at = or_now now user.created_at;
    } in
    elim (lookup (normal_email user.email) m.user_id_by_email) [
      | some _ ↦ (err user_exists, m)
      | none ↦ (ok new, add_user new m)
    ]

-- `m.usersByID[id]`, the zero value where there is none.
unfoldable pub user_at : String → Memory → User
user_at id m = elim (lookup id m.users_by_id) [ none ↦ zero_user | some user ↦ user ]

unfoldable pub user_by_email : String → Exec Memory UserError User
user_by_email email m = elim (lookup (normal_email email) m.user_id_by_email) [
  | none ↦ (err user_not_found, m)
  | some id ↦ (ok (user_at id m), m)
]

unfoldable pub save_refresh_token : RefreshToken → Exec Memory UserError Unit
save_refresh_token token m =
    (ok tt, record m { refresh_tokens = insert token.token token m.refresh_tokens })

abbrev pub memory_users : UserStore Memory
memory_users = record {
  create_user = create_user;
  user_by_email = user_by_email;
  save_refresh_token = save_refresh_token;
}
