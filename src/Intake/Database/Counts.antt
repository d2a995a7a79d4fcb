-- ===== src/Intake/Database/Counts.antt =====
-- How many rows pass a test, through the statements that pick, order and change them.
use doc_lens.Base.{
  ℕ, zero, suc, ◌+◌, ◌-◌, ◌≤◌, ◌≡◌, refl, ap, ◌∙◌, Bool, true, false, ◌||◌, ◌&&◌, not, List, [],
  ◌∷◌, any, All, arith, String, ◌==◌, string_eq, eq_refl,
}
use doc_lens.Intake.Database.{update, select_all, place, order_by, limit}
use doc_lens.Intake.Database.Rows.{All-imp}

abbrev pub one_if : Bool → ℕ
one_if true = 1
one_if false = 0

module _ {A : Type 0} where
  abbrev pub count : (A → Bool) → List A → ℕ
  count p [] = 0
  count p (x ∷ xs) = one_if (p x) + count p xs

  -- The rows behind the first `n`.
  abbrev skip : ℕ → List A → List A
  skip n [] = []
  skip n (x ∷ xs) = elim n [ zero ↦ x ∷ xs | suc m ↦ skip m xs ]

  pub count_le :
      (p q : A → Bool) (xs : List A) → ((a : A) → p a ≡ true → q a ≡ true) → count p xs ≤ count q xs
  count_le p q [] h = omega arith
  count_le p q (x ∷ xs) h = either (p x) (q x) (h x) (count_le p q xs h)
    where
      either :
          (b c : Bool)
          → (b ≡ true → c ≡ true)
          → count p xs ≤ count q xs
          → one_if b + count p xs ≤ one_if c + count q xs
      either b c f k = ground arith

  pub count_le_on :
      (p q : A → Bool) (xs : List A)
      → All (λ a. (not (p a) || q a) ≡ true) xs
      → count p xs ≤ count q xs
  count_le_on p q [] h = omega arith
  count_le_on p q (x ∷ xs) (h, hs) = ground (arith, h, count_le_on p q xs hs)

  pub count_zero : (p : A → Bool) (xs : List A) → count p xs ≡ 0 → All (λ x. p x ≡ false) xs
  count_zero p [] h = tt
  count_zero p (x ∷ xs) h = (ground (arith, h), count_zero p xs (ground (arith, h)))

  count_none : (p : A → Bool) (xs : List A) → All (λ x. p x ≡ false) xs → count p xs ≡ 0
  count_none p [] h = refl
  count_none p (x ∷ xs) (h, hs) = ground (arith, count_none p xs hs)

  count-place :
      (p : A → Bool) (before : A → A → Bool) (a : A) (xs : List A)
      → count p (place before a xs) ≡ one_if (p a) + count p xs
  unfolding place
  count-place p before a [] = refl
  count-place p before a (x ∷ xs) = ground (arith, count-place p before a xs)

  count-order_by :
      (p : A → Bool) (before : A → A → Bool) (xs : List A)
      → count p (order_by before xs) ≡ count p xs
  unfolding order_by
  count-order_by p before [] = refl
  count-order_by p before (x ∷ xs) =
      count-place p before x (order_by before xs)
      ∙ ap (λ (n : ℕ). one_if (p x) + n) (count-order_by p before xs)

  count-limit :
      (p : A → Bool) (n : ℕ) (xs : List A) → count p xs ≡ count p (limit n xs) + count p (skip n xs)
  unfolding limit
  count-limit p n [] = refl
  count-limit p zero (x ∷ xs) = omega arith
  count-limit p (suc n) (x ∷ xs) = omega (arith, count-limit p n xs)

  count-skip : (p : A → Bool) (n : ℕ) (xs : List A) → count p (skip n xs) ≤ count (λ x. true) xs - n
  count-skip p n [] = omega arith
  count-skip p zero (x ∷ xs) = omega (arith, count_le p (λ x. true) (x ∷ xs) (λ a h. refl))
  count-skip p (suc n) (x ∷ xs) = omega (arith, count-skip p n xs)

  count-select_all :
      (p test : A → Bool) (xs : List A)
      → count p (select_all test xs) ≡ count (λ x. test x && p x) xs
  unfolding select_all
  count-select_all p test [] = refl
  count-select_all p test (x ∷ xs) = ground (arith, count-select_all p test xs)

  -- Rows that the change takes out of the test.
  pub count-update :
      (p test : A → Bool) (change : A → A) (xs : List A)
      → ((a : A) → p (change a) ≡ false)
      → count p (update test change xs) ≡ count (λ x. p x && not (test x)) xs
  unfolding update
  count-update p test change [] h = refl
  count-update p test change (x ∷ xs) h = ground (arith, count-update p test change xs h, h x)

  pub count-update_le :
      (p test : A → Bool) (change : A → A) (xs : List A)
      → ((a : A) → p (change a) ≡ false)
      → count p (update test change xs) ≤ count p xs
  count-update_le p test change xs h = ground (
    arith,
    count-update p test change xs h,
    count_le (λ x. p x && not (test x)) p xs (λ a k. ground arith),
  )

  -- Each row has the key of one of the rows.
  self_found : (key : A → String) (xs : List A) → All (λ x. any (λ y. key y == key x) xs ≡ true) xs
  self_found key [] = tt
  self_found key (x ∷ xs) =
      (ground (arith, eq_refl (key x)), All-imp _ _ xs (λ a h. ground arith) (self_found key xs))

  -- Of the rows that pass a test, those with the keys of the first `n` in some order are left out:
  -- at most the rest of them stays.
  pub count-left :
      (key : A → String) (test : A → Bool) (before : A → A → Bool) (n : ℕ) (xs : List A)
      → count
          (λ x.
            test x
            && not (any (λ y. key y == key x) (limit n (order_by before (select_all test xs)))))
          xs
        ≤ count test xs - n
  count-left key test before n xs = ground (
    arith,
    count-select_all out test xs,
    count-order_by out before (select_all test xs),
    count-limit out n (order_by before (select_all test xs)),
    count_none out first (All-imp _ _ first (λ a h. ground arith) (self_found key first)),
    count-skip out n (order_by before (select_all test xs)),
    count-order_by (λ x. true) before (select_all test xs),
    count-select_all (λ x. true) test xs,
    count_le (λ x. test x && true) test xs (λ a h. ground arith),
  )
    where
      first : List A
      first = limit n (order_by before (select_all test xs))

      out : A → Bool
      out x = not (any (λ y. key y == key x) first)
