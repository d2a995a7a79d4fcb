-- ===== src/Identity/Accounts/Login.antt =====
-- A user that `CreateUser` made, at `Login`, over the in-memory store.
use doc_lens.Base.{
  ℕ, ◌≡◌, ◌⊎◌, refl, ap, ◌∙◌, String, Bool, true, false, not, ◌&&◌, inl, inr, none, some,
  Bool-cases, ok, err, ◌>>=◌, arith, ◌==◌, string_eq, trim_space, to_lower, trim_space_idem,
  to_lower_idem, trim_space-to_lower,
}
use doc_lens.Rpc.{error, unauthenticated}
use doc_lens.Tokens.{Codec}
use doc_lens.Identity.Messages.{LoginRequest}
use doc_lens.Identity.Issuer.{TokenIssuer}
use doc_lens.Identity.Passwords.{verify_password}
use doc_lens.Identity.Users.{
  User, user_not_found, Memory, memory_users, normal_email, user_by_email,
}
use doc_lens.Identity.Accounts.{Library, Draws, Identity, normalize_email, on_users, login}

abbrev pub with_memory : TokenIssuer → ℕ → ℕ → Identity Memory
with_memory issuer ttl refresh_ttl = record {
  store = memory_users;
  issuer = issuer;
  access_token_ttl = ttl;
  refresh_token_ttl = refresh_ttl;
}

valid_address :
    (l : Library) (email : String)
    → l.parses_address (to_lower (trim_space email)) ≡ true
    → normalize_email l email ≡ some (to_lower (trim_space email))
unfolding normalize_email
valid_address l email e = rw e refl

normal_twice : (email : String) → normal_email (to_lower (trim_space email)) ≡ normal_email email
unfolding normal_email
normal_twice email =
    ap to_lower (trim_space-to_lower (trim_space email) ∙ ap to_lower (trim_space_idem email))
    ∙ to_lower_idem (trim_space email)

invalid_address :
    (l : Library) (email : String)
    → l.parses_address (to_lower (trim_space email)) ≡ false
    → normalize_email l email ≡ none
unfolding normalize_email
invalid_address l email e = rw e refl

by_normal_email :
    (email : String) (m : Memory)
    → user_by_email (to_lower (trim_space email)) m ≡ user_by_email email m
unfolding user_by_email
by_normal_email email m = rw (user_by_email, normal_twice email) refl

bad_test :
    (user : User) (b : Bool)
    → (user.disabled ≡ true) ⊎ (b ≡ false)
    → (not user.disabled && b) ≡ false
bad_test user b h = ground arith

module _ (c : Codec) (l : Library) (issuer : TokenIssuer) (ttl refresh_ttl : ℕ) (d : Draws)
    (req : LoginRequest) (m : Memory) where
  -- An unknown address, a disabled account and a wrong password get the same answer, unauthenticated
  -- with the same text, and change nothing.
  pub login_refused :
      (user : User)
      → (user_by_email req.email m ≡ (err user_not_found, m))
        ⊎ ((user_by_email req.email m ≡ (ok user, m))
            × ((user.disabled ≡ true)
                ⊎ (verify_password c user.password_hash req.password ≡ false)))
      → login c l (with_memory issuer ttl refresh_ttl) d req m
        ≡ (err (error unauthenticated "invalid email or password"), m)
  unfolding login on_users ◌>>=◌
  login_refused user (inl unknown) =
      elim (Bool-cases (l.parses_address (to_lower (trim_space req.email)))) [
        | inr bad ↦ rw (invalid_address l req.email bad) refl
        | inl good ↦ elim (Bool-cases (req.password == "")) [
          | inl empty ↦ rw (valid_address l req.email good) (rw empty refl)
          | inr typed ↦
              rw (valid_address l req.email good)
                (rw typed (rw (by_normal_email req.email m) (rw unknown refl)))
        ]
      ]
  login_refused user (inr (known, wrong)) =
      elim (Bool-cases (l.parses_address (to_lower (trim_space req.email)))) [
        | inr bad ↦ rw (invalid_address l req.email bad) refl
        | inl good ↦ elim (Bool-cases (req.password == "")) [
          | inl empty ↦ rw (valid_address l req.email good) (rw empty refl)
          | inr typed ↦ rw (valid_address l req.email good) (
              rw typed
                (rw (by_normal_email req.email m) (rw known (rw (bad_test user _ wrong) refl))))
        ]
      ]
