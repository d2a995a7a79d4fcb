-- ===== src/Intake/Database/Rows.antt =====
-- Laws of the statements on rows, for the tables of 001_initial.sql.
use doc_lens.Base.{
  ◌≡◌, refl, Bool, true, false, ◌||◌, List, [], ◌∷◌, ◌++◌, map, any, All, arith, if◌then◌else◌,
  some,
}
use doc_lens.Intake.Database.{update, select_all, select}

module _ {A : Type 0} where
  pub any-append : (p : A → Bool) (xs ys : List A) → any p (xs ++ ys) ≡ (any p xs || any p ys)
  any-append p [] ys = refl
  any-append p (x ∷ xs) ys = ground (arith, any-append p xs ys)

  -- A change that the test `p` does not see.
  pub any-update :
      (p test : A → Bool) (change : A → A) (xs : List A)
      → ((a : A) → p (change a) ≡ p a)
      → any p (update test change xs) ≡ any p xs
  unfolding update
  any-update p test change [] h = refl
  any-update p test change (x ∷ xs) h = ground (arith, any-update p test change xs h, h x)

  pub map-update :
      {B : Type 0} (f : A → B) (test : A → Bool) (change : A → A) (xs : List A)
      → ((a : A) → f (change a) ≡ f a)
      → map f (update test change xs) ≡ map f xs
  unfolding update
  map-update f test change [] h = refl
  map-update f test change (x ∷ xs) h = ground (arith, map-update f test change xs h, h x)

  pub All-append : (P : A → Type 0) (xs ys : List A) → All P xs → All P ys → All P (xs ++ ys)
  All-append P [] ys h k = k
  All-append P (x ∷ xs) ys (h, hs) k = (h, All-append P xs ys hs k)

  pub All-imp : (P Q : A → Type 0) (xs : List A) → ((a : A) → P a → Q a) → All P xs → All Q xs
  All-imp P Q [] f h = tt
  All-imp P Q (x ∷ xs) f (h, hs) = (f x h, All-imp P Q xs f hs)

  pub All-update :
      (P : A → Type 0) (test : A → Bool) (change : A → A) (xs : List A)
      → ((a : A) → P a → P (change a))
      → All P xs
      → All P (update test change xs)
  unfolding update
  All-update P test change [] f h = tt
  All-update P test change (x ∷ xs) f (h, hs) =
      (either (test x) h (f x h), All-update P test change xs f hs)
    where
      either : (b : Bool) → P x → P (change x) → P (if b then change x else x)
      either true a c = c
      either false a c = a

  pub update_none :
      (test : A → Bool) (change : A → A) (xs : List A)
      → any test xs ≡ false
      → update test change xs ≡ xs
  unfolding update
  update_none test change [] h = refl
  update_none test change (x ∷ xs) h = ground (arith, update_none test change xs)

  pub any_sub :
      (p r : A → Bool) (xs : List A)
      → ((a : A) → p a ≡ true → r a ≡ true)
      → any r xs ≡ false
      → any p xs ≡ false
  any_sub p r [] f h = refl
  any_sub p r (x ∷ xs) f h = ground (arith, any_sub p r xs f, f x)

  -- A row that alone passes, behind rows that do not.
  pub select_last :
      (p : A → Bool) (xs : List A) (y : A)
      → any p xs ≡ false
      → p y ≡ true
      → select p (xs ++ y ∷ []) ≡ some y
  unfolding select
  select_last p [] y h k = ground (arith, k)
  select_last p (x ∷ xs) y h k = ground (arith, select_last p xs y)

  pub select_all_last :
      (p : A → Bool) (xs : List A) (y : A)
      → any p xs ≡ false
      → p y ≡ true
      → select_all p (xs ++ y ∷ []) ≡ y ∷ []
  unfolding select_all
  select_all_last p [] y h k = ground (arith, k)
  select_all_last p (x ∷ xs) y h k = ground (arith, select_all_last p xs y)
