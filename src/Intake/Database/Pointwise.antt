-- ===== src/Intake/Database/Pointwise.antt =====
-- Two states of a table that have the same rows, each related to what it was.
use doc_lens.Base.{◌≡◌, refl, Bool, true, false, List, [], ◌∷◌, All, if◌then◌else◌, Preorder}
use doc_lens.Intake.Database.{update}

module _ {A : Type 0} where
  pub data Pointwise (R : A → A → Type 0) : List A → List A → Type 0 where
    nil : Pointwise R [] []
    both : {x y : A} {xs ys : List A} → R x y → Pointwise R xs ys → Pointwise R (x ∷ xs) (y ∷ ys)

  module _ {R : A → A → Type 0} ⦃p : Preorder R⦄ where
    pub Pointwise-refl : (xs : List A) → Pointwise R xs xs
    Pointwise-refl [] = nil
    Pointwise-refl (x ∷ xs) = both (p.reflexive x) (Pointwise-refl xs)

    pub Pointwise-trans :
        {xs ys zs : List A} → Pointwise R xs ys → Pointwise R ys zs → Pointwise R xs zs
    Pointwise-trans nil k = k
    Pointwise-trans (both h hs) (both k ks) = both (p.transitive _ _ _ h k) (Pointwise-trans hs ks)

    -- The rows that pass the test are changed as `R` allows.
    pub Pointwise-update :
        (P : A → Type 0) (test : A → Bool) (change : A → A) (xs : List A)
        → ((a : A) → P a → test a ≡ true → R a (change a))
        → All P xs
        → Pointwise R xs (update test change xs)
    unfolding update
    Pointwise-update P test change [] f h = nil
    Pointwise-update P test change (x ∷ xs) f (h, hs) =
        both (either (test x) refl) (Pointwise-update P test change xs f hs)
      where
        either : (b : Bool) → test x ≡ b → R x (if b then change x else x)
        either true e = f x h e
        either false e = p.reflexive x

    -- Whatever else holds of those rows.
    pub Pointwise-change :
        (test : A → Bool) (change : A → A) (xs : List A)
        → ((a : A) → test a ≡ true → R a (change a))
        → Pointwise R xs (update test change xs)
    unfolding update
    Pointwise-change test change [] f = nil
    Pointwise-change test change (x ∷ xs) f =
        both (either (test x) refl) (Pointwise-change test change xs f)
      where
        either : (b : Bool) → test x ≡ b → R x (if b then change x else x)
        either true e = f x e
        either false e = p.reflexive x

  -- What holds of the rows after an update, by the test.
  pub All-updated :
      (P Q : A → Type 0) (test : A → Bool) (change : A → A) (xs : List A)
      → ((a : A) → P a → test a ≡ true → Q (change a))
      → ((a : A) → P a → test a ≡ false → Q a)
      → All P xs
      → All Q (update test change xs)
  unfolding update
  All-updated P Q test change [] f g h = tt
  All-updated P Q test change (x ∷ xs) f g (h, hs) =
      (either (test x) refl, All-updated P Q test change xs f g hs)
    where
      either : (b : Bool) → test x ≡ b → Q (if b then change x else x)
      either true e = f x h e
      either false e = g x h e
