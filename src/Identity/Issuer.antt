-- ===== src/Identity/Issuer.antt =====
-- doclens-identity-service/internal/auth/jwt.go
use doc_lens.Base.{ℕ, pos, ◌+◌, ◌/◌, String, List, Result, ok, err}
use Prim.Native.String.{◌++◌}
use doc_lens.Tokens.{Claims, Codec}

pub record TokenIssuer : Type 0 where
  pub secret : List ℕ

unfoldable pub new_token_issuer : Codec → String → TokenIssuer
new_token_issuer c secret = record { secret = c.bytes secret }

unfoldable pub signing_input : Codec → List ℕ → List ℕ → String
signing_input c header payload = c.encode header ++ "." ++ c.encode payload

unfoldable pub sign_input : Codec → List ℕ → String → String
sign_input c secret input = input ++ "." ++ c.encode (c.hmac_sha256 (c.bytes input) secret)

unfoldable pub sign_parts :
    Codec → TokenIssuer → Result String (List ℕ) → Result String (List ℕ) → Result String String
unfolding sign_input signing_input
sign_parts c issuer (err e) payload = err e
sign_parts c issuer (ok header) (err e) = err e
sign_parts c issuer (ok header) (ok payload) =
    ok (sign_input c issuer.secret (signing_input c header payload))

unfoldable pub sign : Codec → TokenIssuer → Claims → Result String String
unfolding sign_parts
sign c issuer claims =
    sign_parts c issuer (c.marshal_header (record { algorithm = "HS256"; kind = "JWT" }))
      (c.marshal_claims claims)

-- The claims of `AccessToken`; `now` and `ttl` are nanoseconds.
unfoldable pub access_claims : ℕ → ℕ → String → String → List String → Claims
access_claims now ttl user_id organization_id roles = record {
  subject = user_id;
  organization_id = organization_id;
  roles = roles;
  expires_at = pos ((now + ttl) / 1_000_000_000);
}

unfoldable pub access_token :
    Codec → TokenIssuer → ℕ → ℕ → String → String → List String → Result String String
access_token c issuer now ttl user_id organization_id roles =
    sign c issuer (access_claims now ttl user_id organization_id roles)

-- `RefreshToken`, of what `rand.Read` gives.
unfoldable pub refresh_token : Codec → Result String (List ℕ) → Result String String
refresh_token c (err e) = err e
refresh_token c (ok random) = ok (c.encode random)
