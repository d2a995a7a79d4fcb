-- ===== src/Identity/Passwords/Roundtrip.antt =====
-- Passwords and their hashes.
use doc_lens.Base.{
  ℕ, String, true, ◌≡◌, refl, sym, ap, ◌∙◌, List, [], ◌∷◌, ◌++◌, ok, arith, split, split-join, join,
  string_eq,
}
use Prim.Native.String
use doc_lens.Tokens.{Codec, Decodes, EncodesWithout}
use doc_lens.Identity.Passwords.{
  password_scheme, salted_sha256, equal_bytes, hash_password, verify_sum, verify_parts,
  verify_password,
}

abbrev hash_text : Codec → List ℕ → String → String
hash_text c salt password = String.◌++◌ password_scheme (
    String.◌++◌ "$" (
      String.◌++◌ (c.encode salt)
        (String.◌++◌ "$" (c.encode (salted_sha256 c salt (c.bytes password))))))

split_hash :
    (c : Codec) (salt : List ℕ) (password : String)
    → EncodesWithout "$" c
    → split (hash_text c salt password) "$"
      ≡ password_scheme ∷ c.encode salt ∷ c.encode (salted_sha256 c salt (c.bytes password)) ∷ []
unfolding join
split_hash c salt password lacks =
    split-join "$" password_scheme _ (refl, (refl, (refl, (refl, (refl, (refl, tt))))))
      (lacks salt, (lacks (salted_sha256 c salt (c.bytes password)), tt))

equal_bytes_refl : (b : List ℕ) → equal_bytes b b ≡ true
unfolding equal_bytes
equal_bytes_refl [] = refl
equal_bytes_refl (a ∷ b) = ground (arith, equal_bytes_refl b)

hash_result :
    (c : Codec) (salt : List ℕ) (p h : String)
    → hash_password c (ok salt) p ≡ ok h
    → hash_text c salt p ≡ h
unfolding hash_password
hash_result c salt p h hashed = ground arith

verify_text :
    (c : Codec) (salt : List ℕ) (p q : String)
    → Decodes c
    → EncodesWithout "$" c
    → verify_password c (hash_text c salt p) q
      ≡ equal_bytes (salted_sha256 c salt (c.bytes q)) (salted_sha256 c salt (c.bytes p))
unfolding verify_password verify_parts verify_sum
verify_text c salt p q decodes lacks =
    rw (split_hash c salt p lacks, decodes salt, decodes (salted_sha256 c salt (c.bytes p))) refl

-- When a password was hashed, a password is verified against the result exactly as the hashes of
-- the salt followed by each of the two compare. It rests on base64 taking back what it made and making no dollar.
pub verify_password-hash :
    (c : Codec) (salt : List ℕ) (p q h : String)
    → Decodes c
    → EncodesWithout "$" c
    → hash_password c (ok salt) p ≡ ok h
    → verify_password c h q
      ≡ equal_bytes (c.sha256 (salt ++ c.bytes q)) (c.sha256 (salt ++ c.bytes p))
verify_password-hash c salt p q h decodes lacks hashed =
    ap (λ t. verify_password c t q) (sym (hash_result c salt p h hashed))
    ∙ verify_text c salt p q decodes lacks
