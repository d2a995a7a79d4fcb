-- ===== src/System/Tests.antt =====
-- The gateway, the identity service and both together at concrete inputs.
use doc_lens.Base.{
  ℕ, pos, suc, ◌+◌, ◌≡◌, refl, ap, ap₂, ◌∙◌, inl, arith, String, Bool, true, false, ◌&&◌, List, [],
  ◌∷◌, some, ◌==◌, string_eq, eq_iff, eqb_ℤ, eqb_ℤ_iff, int_eq, if◌then◌else◌, lookup, Result, ok,
  err, Lacks, differ,
}
use Prim.Native.Nat.{zero}
use Prim.Native.Char.{code}
use doc_lens.Base.{eqb}
use doc_lens.Rpc.{error, unauthenticated}
use doc_lens.Tokens.{Claims, TokenHeader, Codec, Decodes}
use doc_lens.Identity.Messages.{LoginRequest}
use doc_lens.Identity.Passwords.{equal_bytes, hash_password, verify_password}
use doc_lens.Identity.Passwords.Roundtrip.{verify_password-hash}
use doc_lens.Identity.Issuer.{
  TokenIssuer, access_claims, access_token, sign, sign_parts, sign_input, signing_input,
}
use doc_lens.Identity.Users.{zero_user, new_memory, user_by_email}
use doc_lens.Identity.Accounts.{Library, Draws, login}
use doc_lens.Identity.Accounts.Login.{with_memory, login_refused}
use doc_lens.Gateway.Verifier.{new_verifier, verify}
use doc_lens.System.Tokens.{RoundTrips, verify-access_token}

-- Bytes in unary: `n` is written as n letters and a mark.
abbrev letters : ℕ → String → String
letters zero rest = String.◌∷◌ "b" rest
letters (suc n) rest = String.◌∷◌ "a" (letters n rest)

abbrev unary : List ℕ → String
unary [] = String.[]
unary (n ∷ ns) = letters n (unary ns)

abbrev parse : ℕ → String → List ℕ
parse n String.[] = []
parse n (String.◌∷◌ c s) =
    let next = parse 0 s in let more = parse (suc n) s in if eqb (code c) 98 then n ∷ next else more

parse-letters : (n k : ℕ) (rest : String) → parse k (letters n rest) ≡ (k + n) ∷ parse 0 rest
parse-letters zero k rest = ap (λ v. v ∷ parse 0 rest) (omega arith)
parse-letters (suc n) k rest =
    parse-letters n (suc k) rest ∙ ap (λ v. v ∷ parse 0 rest) (omega arith)

parse-unary : (ns : List ℕ) → parse 0 (unary ns) ≡ ns
parse-unary [] = refl
parse-unary (n ∷ ns) = parse-letters n 0 (unary ns) ∙ ap₂ ◌∷◌ (omega arith) (parse-unary ns)

letters-Lacks_dot : (n : ℕ) (rest : String) → Lacks "." rest → Lacks "." (letters n rest)
letters-Lacks_dot zero rest h = (refl, h)
letters-Lacks_dot (suc n) rest h = (refl, letters-Lacks_dot n rest h)

unary-Lacks_dot : (ns : List ℕ) → Lacks "." (unary ns)
unary-Lacks_dot [] = tt
unary-Lacks_dot (n ∷ ns) = letters-Lacks_dot n (unary ns) (unary-Lacks_dot ns)

letters-Lacks_dollar : (n : ℕ) (rest : String) → Lacks "$" rest → Lacks "$" (letters n rest)
letters-Lacks_dollar zero rest h = (refl, h)
letters-Lacks_dollar (suc n) rest h = (refl, letters-Lacks_dollar n rest h)

unary-Lacks_dollar : (ns : List ℕ) → Lacks "$" (unary ns)
unary-Lacks_dollar [] = tt
unary-Lacks_dollar (n ∷ ns) = letters-Lacks_dollar n (unary ns) (unary-Lacks_dollar ns)

-- JSON that knows one header and one set of claims.
abbrev the_header : TokenHeader
the_header = record { algorithm = "HS256"; kind = "JWT" }

abbrev pub the_claims : Claims
the_claims = record {
  subject = "usr_1";
  organization_id = "org_1";
  roles = "member" ∷ [];
  expires_at = pos 60;
}

abbrev is_member : List String → Bool
is_member [] = false
is_member (r ∷ []) = r == "member"
is_member (r ∷ q ∷ rs) = false

is_member_only : (rs : List String) → is_member rs ≡ true → rs ≡ "member" ∷ []
is_member_only [] h = ground arith
is_member_only (r ∷ []) h = ap (λ v. v ∷ []) ((eq_iff r "member").0 h)
is_member_only (r ∷ q ∷ rs) h = ground arith

abbrev is_the_claims : Claims → Bool
is_the_claims k =
    k.subject == "usr_1"
    && k.organization_id == "org_1"
    && is_member k.roles
    && eqb_ℤ k.expires_at (pos 60)

abbrev pub a_codec : Codec
a_codec = record {
  bytes = λ s. 1 ∷ 2 ∷ 3 ∷ 4 ∷ 5 ∷ 6 ∷ 7 ∷ 8 ∷ [];
  encode = unary;
  decode = λ s. ok (parse 0 s);
  sha256 = λ b. b;
  hmac_sha256 = λ b secret. 1 ∷ [];
  marshal_header =
      λ h. if h.algorithm == "HS256" && h.kind == "JWT" then ok (1 ∷ []) else err "unknown header";
  unmarshal_header = λ b. ok the_header;
  marshal_claims = λ k. if is_the_claims k then ok (2 ∷ []) else err "unknown claims";
  unmarshal_claims = λ b. ok the_claims;
}

decodes : Decodes a_codec
decodes b = ap ok (parse-unary b)

claims_known :
    (k : Claims) (b : List ℕ)
    → a_codec.marshal_claims k ≡ ok b
    → Path (Result String Claims) (ok the_claims) (ok k)
claims_known k b e = ground (
  arith,
  eq_iff k.subject "usr_1",
  eq_iff k.organization_id "org_1",
  is_member_only k.roles,
  eqb_ℤ_iff k.expires_at (pos 60),
)

round_trips : RoundTrips a_codec
round_trips = record {
  header_back = λ h b e. ground (arith, eq_iff h.algorithm "HS256", eq_iff h.kind "JWT");
  claims_back = λ k b e. claims_known k b e;
}

-- The token of these claims: header, claims and signature in unary.
abbrev the_token : String
the_token = "ab.aab.ab"

verify-access_token_example :
    verify a_codec (new_verifier a_codec "secret") 30_000_000_000 the_token
    ≡ ok (access_claims 0 60_000_000_000 "usr_1" "org_1" ("member" ∷ []))
unfolding access_token access_claims sign sign_parts sign_input signing_input
verify-access_token_example =
    verify-access_token a_codec "secret" 0 60_000_000_000 30_000_000_000 "usr_1" "org_1"
      ("member" ∷ []) the_token decodes unary-Lacks_dot round_trips (differ "usr_1" "" refl)
      (omega arith) refl

abbrev the_hash : String
the_hash = "sha256$aaab$aaababaabaaabaaaabaaaaabaaaaaabaaaaaaabaaaaaaaab"

verify_password-hash_example :
    verify_password a_codec the_hash "another"
    ≡ equal_bytes
        (a_codec.sha256 (3 ∷ a_codec.bytes "another"))
        (a_codec.sha256 (3 ∷ a_codec.bytes "password"))
unfolding hash_password
verify_password-hash_example =
    verify_password-hash a_codec (3 ∷ []) "password" "another" the_hash decodes unary-Lacks_dollar
      refl

abbrev a_library : Library
a_library = record {
  parses_address = λ s. true;
  format_time = λ t. "then";
  format_stamp = λ t. "now";
}

abbrev some_draws : Draws
some_draws = record { now = 0; salt = ok (3 ∷ []); user_id = some (1 ∷ []); refresh = ok (9 ∷ []) }

abbrev an_issuer : TokenIssuer
an_issuer = record { secret = 7 ∷ [] }

abbrev a_login : LoginRequest
a_login = record { email = "a@b.c"; password = "password" }

login_refused_example :
    login a_codec a_library (with_memory an_issuer 60 90) some_draws a_login new_memory
    ≡ (err (error unauthenticated "invalid email or password"), new_memory)
unfolding user_by_email lookup
login_refused_example =
    login_refused a_codec a_library an_issuer 60 90 some_draws a_login new_memory zero_user
      (inl refl)
