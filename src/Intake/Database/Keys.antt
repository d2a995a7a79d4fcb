-- ===== src/Intake/Database/Keys.antt =====
-- Rows told apart by a key, through the statements that pick and order them.
use doc_lens.Base.{
  ◌&&◌, nat_eq, ℕ, zero, suc, String, ◌≡◌, refl, ap, ◌∙◌, Bool, true, false, ◌||◌, not, List, [],
  ◌∷◌, any, All, arith, if◌then◌else◌, ◌==◌, string_eq, eq_iff,
}
use doc_lens.Intake.Database.{select_all, place, order_by, limit}

-- No row has the key of an earlier one.
abbrev pub Distinct : {A : Type 0} → (A → String) → List A → Type 0
Distinct key [] = Unit
Distinct key (x ∷ xs) = (any (λ y. key y == key x) xs ≡ false) × Distinct key xs

module _ {A : Type 0} where
  pub any-place :
      (p : A → Bool) (before : A → A → Bool) (a : A) (xs : List A)
      → any p (place before a xs) ≡ (p a || any p xs)
  unfolding place
  any-place p before a [] = refl
  any-place p before a (x ∷ xs) = ground (arith, any-place p before a xs)

  pub any-order_by :
      (p : A → Bool) (before : A → A → Bool) (xs : List A) → any p (order_by before xs) ≡ any p xs
  unfolding order_by
  any-order_by p before [] = refl
  any-order_by p before (x ∷ xs) =
      any-place p before x (order_by before xs)
      ∙ ap (λ (b : Bool). p x || b) (any-order_by p before xs)

  pub any-limit :
      (p : A → Bool) (n : ℕ) (xs : List A) → any p xs ≡ false → any p (limit n xs) ≡ false
  unfolding limit
  any-limit p n [] h = refl
  any-limit p zero (x ∷ xs) h = refl
  any-limit p (suc n) (x ∷ xs) h = ground (arith, any-limit p n xs)

  pub any-select_all :
      (p test : A → Bool) (xs : List A) → any p xs ≡ false → any p (select_all test xs) ≡ false
  unfolding select_all
  any-select_all p test [] h = refl
  any-select_all p test (x ∷ xs) h = ground (arith, any-select_all p test xs)

  pub without : (p r : A → Bool) (xs : List A) → any p xs ≡ false → any (λ x. p x && r x) xs ≡ false
  without p r [] h = refl
  without p r (x ∷ xs) h = ground (arith, without p r xs)

  pub any_none : (p : A → Bool) (xs : List A) → any p xs ≡ false → All (λ x. p x ≡ false) xs
  any_none p [] h = tt
  any_none p (x ∷ xs) h = (ground arith, any_none p xs (ground arith))

  Distinct-place :
      (key : A → String) (before : A → A → Bool) (a : A) (xs : List A)
      → any (λ y. key y == key a) xs ≡ false
      → Distinct key xs
      → Distinct key (place before a xs)
  unfolding place
  Distinct-place key before a [] h k = (refl, tt)
  Distinct-place key before a (b ∷ xs) h (k, ks) =
      either (before a b) (Distinct-place key before a xs (ground arith) ks)
    where
      either :
          (c : Bool)
          → Distinct key (place before a xs)
          → Distinct key (if c then a ∷ b ∷ xs else b ∷ place before a xs)
      either true rest = (h, (k, ks))
      either false rest = (
        ground (
          arith,
          any-place (λ y. key y == key b) before a xs,
          eq_iff (key a) (key b),
          eq_iff (key b) (key a),
        ),
        rest,
      )

  pub Distinct-order_by :
      (key : A → String) (before : A → A → Bool) (xs : List A)
      → Distinct key xs
      → Distinct key (order_by before xs)
  unfolding order_by
  Distinct-order_by key before [] h = tt
  Distinct-order_by key before (x ∷ xs) (h, hs) =
      Distinct-place key before x _ (any-order_by _ before xs ∙ h)
        (Distinct-order_by key before xs hs)

  pub Distinct-limit :
      (key : A → String) (n : ℕ) (xs : List A) → Distinct key xs → Distinct key (limit n xs)
  unfolding limit
  Distinct-limit key n [] h = tt
  Distinct-limit key zero (x ∷ xs) h = tt
  Distinct-limit key (suc n) (x ∷ xs) (h, hs) = (any-limit _ n xs h, Distinct-limit key n xs hs)

  pub Distinct-select_all :
      (key : A → String) (test : A → Bool) (xs : List A)
      → Distinct key xs
      → Distinct key (select_all test xs)
  unfolding select_all
  Distinct-select_all key test [] h = tt
  Distinct-select_all key test (x ∷ xs) (h, hs) =
      either (test x) (Distinct-select_all key test xs hs)
    where
      either :
          (b : Bool)
          → Distinct key (select_all test xs)
          → Distinct key (if b then x ∷ select_all test xs else select_all test xs)
      either true rest = (any-select_all _ test xs h, rest)
      either false rest = rest

  -- A row whose key one of the selected rows has passes the test itself.
  pub selected_only :
      (key : A → String) (test : A → Bool) (xs : List A)
      → Distinct key xs
      → All (λ x. (not (any (λ y. key y == key x) (select_all test xs)) || test x) ≡ true) xs
  unfolding select_all
  selected_only key test [] h = tt
  selected_only key test (x ∷ xs) (h, hs) = (
    ground (arith, any-select_all (λ y. key y == key x) test xs h),
    both xs (any_none (λ y. key y == key x) xs h) (selected_only key test xs hs),
  )
    where
      both :
          (ys : List A)
          → All (λ y. (key y == key x) ≡ false) ys
          → All (λ y. (not (any (λ z. key z == key y) (select_all test xs)) || test y) ≡ true) ys
          → All
              (λ y.
                (not (
                    any
                      (λ z. key z == key y)
                      (if test x then x ∷ select_all test xs else select_all test xs))
                  || test y)
                ≡ true)
              ys
      both [] other h = tt
      both (y ∷ ys) (other, others) (h, hs) =
          (ground (arith, eq_iff (key x) (key y), eq_iff (key y) (key x)), both ys others hs)

  -- Rows with the key of a row are that row, so they have its value.
  pub same_value :
      (key : A → String) (value : A → ℕ) (xs : List A)
      → Distinct key xs
      → All (λ x. any (λ y. key y == key x && not (value y == value x)) xs ≡ false) xs
  same_value key value [] h = tt
  same_value key value (x ∷ xs) (h, hs) = (
    ground (arith, without (λ y. key y == key x) (λ y. not (value y == value x)) xs h),
    both xs (any_none (λ y. key y == key x) xs h) (same_value key value xs hs),
  )
    where
      both :
          (ys : List A)
          → All (λ y. (key y == key x) ≡ false) ys
          → All (λ y. any (λ z. key z == key y && not (value z == value y)) xs ≡ false) ys
          → All (λ y. any (λ z. key z == key y && not (value z == value y)) (x ∷ xs) ≡ false) ys
      both [] other h = tt
      both (y ∷ ys) (other, others) (h, hs) = (
        ground (arith, h, other, eq_iff (key x) (key y), eq_iff (key y) (key x)),
        both ys others hs,
      )
