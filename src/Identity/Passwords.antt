-- ===== src/Identity/Passwords.antt =====
-- doclens-identity-service/internal/auth/password.go. Constant-time comparison is equality here.
pub mod Roundtrip
use doc_lens.Base.{
  ℕ, String, Bool, true, false, ◌&&◌, List, [], ◌∷◌, ◌++◌, ◌==◌, string_eq, length, ltb, split,
  Result, ok, err, if◌then◌else◌, eqb,
}
use Prim.Native.String
use doc_lens.Tokens.{Codec}

abbrev pub password_scheme : String
password_scheme = "sha256"

-- `saltedSHA256`
abbrev pub salted_sha256 : Codec → List ℕ → List ℕ → List ℕ
salted_sha256 c salt password = c.sha256 (salt ++ password)

-- `ConstantTimeCompare`, and `hmac.Equal`: equal bytes.
unfoldable pub equal_bytes : List ℕ → List ℕ → Bool
equal_bytes [] [] = true
equal_bytes [] (_ ∷ _) = false
equal_bytes (_ ∷ _) [] = false
equal_bytes (a ∷ a_rest) (b ∷ b_rest) = eqb a b && equal_bytes a_rest b_rest

-- `HashPassword`; the salt is what `rand.Read` gives, or its error.
unfoldable pub hash_password : Codec → Result String (List ℕ) → String → Result String String
hash_password c random password =
    if ltb (length (c.bytes password)) 8
    then err "password must be at least 8 characters"
    else elim random [
      | err e ↦ err e
      | ok salt ↦ ok (
          String.◌++◌ password_scheme (
            String.◌++◌ "$" (
              String.◌++◌ (c.encode salt)
                (String.◌++◌ "$" (c.encode (salted_sha256 c salt (c.bytes password)))))))
    ]

unfoldable pub verify_sum : Codec → Result String (List ℕ) → Result String (List ℕ) → String → Bool
verify_sum c (err e) expected password = false
verify_sum c (ok salt) (err e) password = false
verify_sum c (ok salt) (ok expected) password =
    equal_bytes (salted_sha256 c salt (c.bytes password)) expected

unfoldable pub verify_parts : Codec → List String → String → Bool
verify_parts c (scheme ∷ salt ∷ sum ∷ []) password =
    scheme == password_scheme && verify_sum c (c.decode salt) (c.decode sum) password
verify_parts c _ password = false

-- `VerifyPassword`
unfoldable pub verify_password : Codec → String → String → Bool
verify_password c encoded password = verify_parts c (split encoded "$") password
