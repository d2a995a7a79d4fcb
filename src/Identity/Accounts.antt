-- ===== src/Identity/Accounts.antt =====
-- `Identity` of doclens-identity-service/internal/service/identity.go
pub mod Login
use doc_lens.Base.{
  ℕ, ◌+◌, String, Bool, true, false, ◌||◌, ◌&&◌, not, List, [], ◌∷◌, Option, none, some, ◌==◌,
  string_eq, any, hex, if◌then◌else◌, Result, ok, err, Exec, ◌>>=◌, ◌>>◌, pure, raise, lift, check,
  trim_space, to_lower,
}
use Prim.Native.String.{◌++◌}
use doc_lens.Rpc.{Status, Code, error, invalid_argument, already_exists, internal, unauthenticated}
use doc_lens.Tokens.{Codec}
use doc_lens.Identity.Messages.{CreateUserRequest, LoginRequest, ProtoUser, LoginResponse}
use doc_lens.Identity.Passwords.{hash_password, verify_password}
use doc_lens.Identity.Issuer.{TokenIssuer, access_token, refresh_token}
use doc_lens.Identity.Users.{
  User, RefreshToken, UserError, user_exists, user_not_found, user_failure, UserStore,
}

-- The functions of Go's libraries that the service calls besides the codec's: whether
-- `mail.ParseAddress` accepts a text, and the two formats of a time (`none` is the zero time).
pub record Library : Type 0 where
  pub parses_address : String → Bool
  pub format_time : Option ℕ → String
  pub format_stamp : ℕ → String

-- What one call reads from the clock and from `crypto/rand`.
pub record Draws : Type 0 where
  pub now : ℕ
  pub salt : Result String (List ℕ)
  pub user_id : Option (List ℕ)
  pub refresh : Result String (List ℕ)

pub record Identity (S : Type 0) : Type 0 where
  pub store : UserStore S
  pub issuer : TokenIssuer
  pub access_token_ttl : ℕ
  pub refresh_token_ttl : ℕ

unfoldable pub normalize_email : Library → String → Option String
normalize_email l email =
    if l.parses_address (to_lower (trim_space email))
    then some (to_lower (trim_space email))
    else none

-- The loop of `cleanRoles`, with the roles seen.
unfoldable pub clean_from : List String → List String → List String
clean_from seen [] = []
clean_from seen (r ∷ rs) =
    let role = to_lower (trim_space r) in
    let skip = role == "" || any (λ s. s == role) seen in
    let rest = clean_from (if skip then seen else role ∷ seen) rs in
    if skip then rest else role ∷ rest

unfoldable pub clean_roles : List String → List String
clean_roles roles = clean_from [] roles

-- The roles of a new user: `member` where none is left.
abbrev pub or_member : List String → List String
or_member [] = "member" ∷ []
or_member (r ∷ rs) = r ∷ rs

unfoldable pub to_proto_user : Library → User → ProtoUser
to_proto_user l user = record {
  id = user.id;
  organization_id = user.organization_id;
  email = user.email;
  roles = user.roles;
  disabled = user.disabled;
  created_at = l.format_time user.created_at;
}

-- `newID`; without randomness the time serves.
unfoldable pub new_id : Codec → Library → String → Option (List ℕ) → ℕ → String
new_id c l prefix (some bytes) now = prefix ++ "_" ++ hex bytes
new_id c l prefix none now = prefix ++ "_" ++ hex (c.bytes (l.format_stamp now))

unfoldable pub new_user : Codec → Library → Draws → CreateUserRequest → String → String → User
new_user c l d req email password_hash = record {
  id = new_id c l "usr" d.user_id d.now;
  organization_id = trim_space req.organization_id;
  email = email;
  password_hash = password_hash;
  roles = or_member (clean_roles req.roles);
  disabled = false;
  created_at = some d.now;
}

-- The statuses for errors of the store and of the libraries.
abbrev pub create_error : UserError → Status
create_error user_exists = error already_exists "user already exists"
create_error user_not_found = error internal "create user"
create_error (user_failure _) = error internal "create user"

abbrev pub or_fail : {A E : Type 0} → (E → Status) → Result E A → Result Status A
or_fail f (ok a) = ok a
or_fail f (err e) = err (f e)

abbrev pub valid_email : Option String → Status → Result Status String
valid_email none e = err e
valid_email (some email) e = ok email

abbrev pub bad_login : Status
bad_login = error unauthenticated "invalid email or password"

-- A call of the store.
unfoldable pub on_users :
    {S A : Type 0} → Exec S UserError A → (UserError → Status) → Exec S Status A
on_users m f s = let (r, s') = m s in (or_fail f r, s')

module _ (c : Codec) (l : Library) {S : Type 0} (svc : Identity S) where
  unfoldable pub create_user : Draws → CreateUserRequest → Exec S Status ProtoUser
  create_user d req = do
    check (not (req.organization_id == "")) (error invalid_argument "organization_id is required")
    email ← lift (
        valid_email (normalize_email l req.email)
          (error invalid_argument "valid email is required"))
    password_hash ←
        lift (or_fail (λ e. error invalid_argument e) (hash_password c d.salt req.password))
    created ←
        on_users (svc.store.create_user d.now (new_user c l d req email password_hash)) create_error
    pure (to_proto_user l created)

  unfoldable pub login : Draws → LoginRequest → Exec S Status LoginResponse
  login d req = do
    email ← lift (valid_email (normalize_email l req.email) bad_login)
    check (not (req.password == "")) bad_login
    user ← on_users (svc.store.user_by_email email) (λ _. bad_login)
    check (not user.disabled && verify_password c user.password_hash req.password) bad_login
    access ← lift (
        or_fail (λ _. error internal "issue access token")
          (access_token c svc.issuer d.now svc.access_token_ttl user.id user.organization_id
            user.roles))
    refresh ← lift (or_fail (λ _. error internal "issue refresh token") (refresh_token c d.refresh))
    on_users
        (svc.store.save_refresh_token (record {
          token = refresh;
          user_id = user.id;
          expires_at = d.now + svc.refresh_token_ttl;
          created_at = d.now;
        }))
        (λ _. error internal "save refresh token")
    pure (record { access_token = access; refresh_token = refresh; user = to_proto_user l user })

  -- `SeedDevelopmentUser`: a user that exists already is no error.
  unfoldable pub ignore_existing : Result Status ProtoUser → Result Status Unit
  ignore_existing (ok user) = ok tt
  ignore_existing (err e) = if is_already_exists e.code then ok tt else err e
    where
      is_already_exists : Code → Bool
      is_already_exists already_exists = true
      is_already_exists _ = false

  unfoldable pub seed_development_user : Draws → String → String → String → Exec S Status Unit
  seed_development_user d organization_id email password s =
      let (r, s') =
        create_user d
          (record {
            organization_id = organization_id;
            email = email;
            password = password;
            roles = "admin" ∷ [];
          })
          s in
      (ignore_existing r, s')
