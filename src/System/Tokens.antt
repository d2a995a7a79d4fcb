-- ===== src/System/Tokens.antt =====
-- A token that the identity service issues, at the gateway.
use doc_lens.Base.{
  ℕ, pos, ◌+◌, ◌/◌, ◌<◌, ◌≡◌, refl, sym, ap, ◌∙◌, ◌≢◌, String, List, [], ◌∷◌, true, false, ◌==◌,
  string_eq, eq_iff, split, split-join, join, Lacks, Result, ok, err, arith, ltb_ℤ,
}
use Prim.Native.String.{◌++◌}
use text.Mathlib.TextLemmas.{append_assoc}
use doc_lens.Tokens.{Claims, TokenHeader, Codec, Decodes, EncodesWithout}
use doc_lens.Identity.Issuer.{
  TokenIssuer, new_token_issuer, signing_input, sign_input, sign_parts, sign, access_claims,
  access_token,
}
use doc_lens.Identity.Passwords.{equal_bytes}
use doc_lens.Gateway.Verifier.{
  Verifier, new_verifier, check_claims, check_payload, check_signature, check_algorithm,
  check_header, check_pieces, verify,
}

split_token :
    (a b d : String)
    → Lacks "." a
    → Lacks "." b
    → Lacks "." d
    → split ((a ++ "." ++ b) ++ "." ++ d) "." ≡ a ∷ b ∷ d ∷ []
unfolding join
split_token a b d ha hb hd =
    ap (λ t. split t ".")
      (append_assoc a ("." ++ b) ("." ++ d) ∙ ap (λ t. a ++ t) (append_assoc "." b ("." ++ d)))
    ∙ split-join "." a (b ∷ d ∷ []) ha (hb, (hd, tt))

-- JSON takes back what it made, of the tokens' two parts.
pub record RoundTrips (c : Codec) : Type 0 where
  pub header_back :
      (h : TokenHeader) (b : List ℕ) → c.marshal_header h ≡ ok b → c.unmarshal_header b ≡ ok h
  pub claims_back :
      (k : Claims) (b : List ℕ) → c.marshal_claims k ≡ ok b → c.unmarshal_claims b ≡ ok k

equal_bytes_refl : (b : List ℕ) → equal_bytes b b ≡ true
unfolding equal_bytes
equal_bytes_refl [] = refl
equal_bytes_refl (a ∷ b) = ground (arith, equal_bytes_refl b)

abbrev hs256 : TokenHeader
hs256 = record { algorithm = "HS256"; kind = "JWT" }

claims_pass :
    (later : ℕ) (k : Claims)
    → ltb_ℤ (pos (later / 1_000_000_000)) k.expires_at ≡ true
    → (k.subject == "") ≡ false
    → check_claims later (ok k) ≡ ok k
unfolding check_claims
claims_pass later k fresh named = ground arith

-- The gateway's checks on the three pieces of a signed token.
pieces_pass :
    (c : Codec) (v : Verifier) (later : ℕ) (header payload : List ℕ) (k : Claims)
    → Decodes c
    → c.unmarshal_header header ≡ ok hs256
    → c.unmarshal_claims payload ≡ ok k
    → check_claims later (ok k) ≡ ok k
    → check_pieces c v later (
        c.encode header
        ∷ c.encode payload
        ∷ c.encode (c.hmac_sha256 (c.bytes (c.encode header ++ "." ++ c.encode payload)) v.secret)
        ∷ [])
      ≡ ok k
unfolding check_pieces check_header check_algorithm check_signature check_payload
pieces_pass c v later header payload k decodes h p pass =
    rw
      (
        decodes header,
        h,
        decodes (c.hmac_sha256 (c.bytes (c.encode header ++ "." ++ c.encode payload)) v.secret),
        equal_bytes_refl
            (c.hmac_sha256 (c.bytes (c.encode header ++ "." ++ c.encode payload)) v.secret),
        decodes payload,
        p,
      )
      pass

ok_text : (t token : String) → Path (Result String String) (ok t) (ok token) → t ≡ token
ok_text t token e = ground arith

module _ (c : Codec) (decodes : Decodes c) (lacks : EncodesWithout "." c)
    (json : RoundTrips c) where
  signed_verifies :
      (issuer : TokenIssuer) (v : Verifier) (later : ℕ) (k : Claims) (token : String)
      (h p : Result String (List ℕ))
      → c.marshal_header hs256 ≡ h
      → c.marshal_claims k ≡ p
      → issuer.secret ≡ v.secret
      → check_claims later (ok k) ≡ ok k
      → sign_parts c issuer h p ≡ ok token
      → verify c v later token ≡ ok k
  unfolding sign_parts sign_input signing_input verify
  signed_verifies issuer v later k token (err e) p eh ep same pass signed = ground arith
  signed_verifies issuer v later k token (ok h) (err e) eh ep same pass signed = ground arith
  signed_verifies issuer v later k token (ok h) (ok p) eh ep same pass signed =
      ap (verify c v later) (sym (ok_text _ token signed))
      ∙ rw (same, split_token (c.encode h) (c.encode p) _ (lacks h) (lacks p) (lacks _))
          (pieces_pass c v later h p k decodes (json.header_back hs256 h eh)
            (json.claims_back k p ep) pass)

-- While it is not expired, a token that the identity service issues to a user with a non-empty id verifies at a gateway
-- with the same secret, and gives the user's id, organization and roles back, and the expiry. It
-- rests on base64 taking back what it made and making no dot, and on JSON taking back the two parts.
pub verify-access_token :
    (c : Codec) (secret : String) (now ttl later : ℕ) (user_id organization_id : String)
    (roles : List String) (token : String)
    → Decodes c
    → EncodesWithout "." c
    → RoundTrips c
    → user_id ≢ ""
    → later / 1_000_000_000 < (now + ttl) / 1_000_000_000
    → access_token c (new_token_issuer c secret) now ttl user_id organization_id roles ≡ ok token
    → verify c (new_verifier c secret) later token
      ≡ ok (access_claims now ttl user_id organization_id roles)
unfolding access_token sign access_claims new_token_issuer new_verifier
verify-access_token c secret now ttl later user_id organization_id roles token decodes lacks json
      named fresh issued =
    let k : Claims = record {
      subject = user_id;
      organization_id = organization_id;
      roles = roles;
      expires_at = pos ((now + ttl) / 1_000_000_000);
    } in
    signed_verifies c decodes lacks json _ _ later k token (c.marshal_header hs256)
      (c.marshal_claims k) refl refl refl
      (claims_pass later k (ground (arith)) (ground (arith, eq_iff user_id ""))) issued
