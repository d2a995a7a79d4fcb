-- ===== src/Tokens.antt =====
-- What the tokens of doclens-identity-service/internal/auth/jwt.go and
-- doclens-api-gateway/internal/auth/jwt.go are made of. Bytes are numbers below 256; times in tokens
-- are seconds.
use doc_lens.Base.{ℕ, ℤ, String, List, Result, ok, ◌≡◌, Lacks}
use Prim.Native.Char.{Char}

pub record Claims : Type 0 where
  pub subject : String
  pub organization_id : String
  pub roles : List String
  pub expires_at : ℤ

pub record TokenHeader : Type 0 where
  pub algorithm : String
  pub kind : String

-- The functions of Go's libraries that both services call: `[]byte(s)`, unpadded base64 for URLs,
-- HMAC and hash with SHA-256, and JSON of the tokens' two parts. The errors are texts.
pub record Codec : Type 0 where
  pub bytes : String → List ℕ
  pub encode : List ℕ → String
  pub decode : String → Result String (List ℕ)
  pub sha256 : List ℕ → List ℕ
  pub hmac_sha256 : List ℕ → List ℕ → List ℕ
  pub marshal_header : TokenHeader → Result String (List ℕ)
  pub unmarshal_header : List ℕ → Result String TokenHeader
  pub marshal_claims : Claims → Result String (List ℕ)
  pub unmarshal_claims : List ℕ → Result String Claims

-- Decoding takes back what encoding made, of whatever bytes.
abbrev pub Decodes : Codec → Type 0
Decodes c = (b : List ℕ) → c.decode (c.encode b) ≡ ok b

-- The base64 alphabet has neither the dot of tokens nor the dollar of password hashes.
abbrev pub EncodesWithout : Char → Codec → Type 0
EncodesWithout separator c = (b : List ℕ) → Lacks separator (c.encode b)
