-- ===== src/Gateway/Verifier.antt =====
-- doclens-api-gateway/internal/auth/jwt.go. `now` is the clock, in nanoseconds.
use doc_lens.Base.{
  ℕ, pos, ◌/◌, String, ◌&&◌, not, List, [], ◌∷◌, Option, none, some, ◌==◌, string_eq, ltb_ℤ, eqb,
  split, trim_space, if◌then◌else◌, Result, ok, err,
}
use Prim.Native.String.{◌++◌}
use Prim.Native.Char.{code}
use doc_lens.Tokens.{Claims, TokenHeader, Codec}
use doc_lens.Identity.Passwords.{equal_bytes}

pub record Verifier : Type 0 where
  pub secret : List ℕ

unfoldable pub new_verifier : Codec → String → Verifier
new_verifier c secret = record { secret = c.bytes secret }

-- `HasPrefix` and `TrimPrefix` in one: what follows the prefix.
unfoldable pub after_prefix : String → String → Option String
after_prefix String.[] s = some s
after_prefix (String.◌∷◌ p ps) String.[] = none
after_prefix (String.◌∷◌ p ps) (String.◌∷◌ a s) =
    let rest = after_prefix ps s in if eqb (code p) (code a) then rest else none

-- The checks on the claims: `now` in whole seconds.
unfoldable pub check_claims : ℕ → Result String Claims → Result String Claims
check_claims now (err e) = err ("parse claims: " ++ e)
check_claims now (ok claims) =
    if ltb_ℤ (pos 0) claims.expires_at && not (ltb_ℤ (pos (now / 1_000_000_000)) claims.expires_at)
    then err "expired token"
    else if claims.subject == ""
    then err "missing subject"
    else ok claims

unfoldable pub check_payload : Codec → ℕ → Result String (List ℕ) → Result String Claims
unfolding check_claims
check_payload c now (err e) = err ("decode payload: " ++ e)
check_payload c now (ok payload) = check_claims now (c.unmarshal_claims payload)

unfoldable pub check_signature :
    Codec → Verifier → ℕ → String → String → Result String (List ℕ) → Result String Claims
unfolding check_payload equal_bytes
check_signature c v now header payload (err e) = err ("decode signature: " ++ e)
check_signature c v now header payload (ok actual) =
    if equal_bytes actual (c.hmac_sha256 (c.bytes (header ++ "." ++ payload)) v.secret)
    then check_payload c now (c.decode payload)
    else err "invalid signature"

unfoldable pub check_algorithm :
    Codec
    → Verifier
    → ℕ
    → String
    → String
    → String
    → Result String TokenHeader
    → Result String Claims
unfolding check_signature
check_algorithm c v now header payload signature (err e) = err ("parse header: " ++ e)
check_algorithm c v now header payload signature (ok parsed) =
    if parsed.algorithm == "HS256"
    then check_signature c v now header payload (c.decode signature)
    else err "unsupported token algorithm"

unfoldable pub check_header :
    Codec → Verifier → ℕ → String → String → String → Result String (List ℕ) → Result String Claims
unfolding check_algorithm
check_header c v now header payload signature (err e) = err ("decode header: " ++ e)
check_header c v now header payload signature (ok bytes) =
    check_algorithm c v now header payload signature (c.unmarshal_header bytes)

unfoldable pub check_pieces : Codec → Verifier → ℕ → List String → Result String Claims
unfolding check_header
check_pieces c v now (header ∷ payload ∷ signature ∷ []) =
    check_header c v now header payload signature (c.decode header)
check_pieces c v now _ = err "malformed token"

-- `Verify`
unfoldable pub verify : Codec → Verifier → ℕ → String → Result String Claims
verify c v now token = check_pieces c v now (split token ".")

-- `VerifyBearer`
unfoldable pub verify_bearer : Codec → Verifier → ℕ → String → Result String Claims
verify_bearer c v now header = elim (after_prefix "Bearer " header) [
  | none ↦ err "missing bearer token"
  | some token ↦ verify c v now (trim_space token)
]
