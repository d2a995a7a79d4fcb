-- ===== src/Base/TextLaws.antt =====
-- Laws of trimming, lower-casing, splitting and joining.
use Prim.Native.Nat.{ℕ, zero, suc, ◌+◌, ◌-◌, ◌<◌, ◌≤◌}
use Prim.Native.Char.{Char, code}
use Prim.Native.String.{String, [], ◌∷◌, ◌++◌, char_at}
use Prim.Native.String.append
use mathlib.Core.Path.{◌≡◌, refl, ap, ap₂, ◌∙◌, sym}
use mathlib.Core.Logic.{◌⊎◌, ◌≢◌, inl, inr}
use text.Mathlib.TextEquality.{eq_iff}
use mathlib.Core.Bool.{Bool, true, false, not, ◌&&◌}
use mathlib.Core.List.{List}
use native.Mathlib.Omega.{arith}
use doc_lens.Base.Tests.{leb, eqb, eqb_iff, if◌then◌else◌, Bool-cases, ◌==◌, string_eq}
use doc_lens.Base.Lists.{All}
use doc_lens.Base.Text.{
  is_space, trim_left, trim_right, trim_space, before_trimmed, lower_letters, lower_char, to_lower,
  split, join,
}

trim_right_before :
    (c : Char) (s : String)
    → trim_right s ≡ s
    → trim_right (before_trimmed c s) ≡ before_trimmed c s
unfolding trim_right
trim_right_before c [] h = elim (Bool-cases (is_space (code c))) [
  | inl e ↦ rw e
  | inr e ↦ rw e (rw e)
]
trim_right_before c (d ∷ s) h = rw h

pub trim_right_idem : (s : String) → trim_right (trim_right s) ≡ trim_right s
unfolding trim_right
trim_right_idem [] = refl
trim_right_idem (c ∷ s) =
    unfold trim_right in trim_right_before c (trim_right s) (trim_right_idem s)

pub trim_left_idem : (s : String) → trim_left (trim_left s) ≡ trim_left s
unfolding trim_left
trim_left_idem [] = refl
trim_left_idem (c ∷ s) = ground (arith, trim_left_idem s)

-- A text that starts with no space still starts with none when its end is trimmed.
trim_left_before :
    (c : Char) (s : String)
    → is_space (code c) ≡ false
    → trim_left (before_trimmed c s) ≡ before_trimmed c s
unfolding trim_left
trim_left_before c [] h = ground arith
trim_left_before c (d ∷ s) h = ground arith

-- Trimming the end of a text that starts with no space adds none.
trim_left-trim_right :
    (s : String) → trim_left (trim_right (trim_left s)) ≡ trim_right (trim_left s)
unfolding trim_left trim_right
trim_left-trim_right [] = refl
trim_left-trim_right (c ∷ s) = elim (Bool-cases (is_space (code c))) [
  | inl e ↦ rw e (trim_left-trim_right s)
  | inr e ↦ rw e (trim_left_before c (trim_right s) e)
]

pub trim_space_idem : (s : String) → trim_space (trim_space s) ≡ trim_space s
unfolding trim_space
trim_space_idem s = rw trim_left-trim_right (trim_right_idem (trim_left s))

unfoldable pub passes_to : (ℕ → Bool) → ℕ → Bool
passes_to test zero = true
passes_to test (suc top) = let lower = passes_to test top in if test top then lower else false

pub passes_below :
    (test : ℕ → Bool) (top k : ℕ) → k < top → passes_to test top ≡ true → test k ≡ true
unfolding passes_to
passes_below test zero k below passed = absurd (omega arith)
passes_below test (suc top) k below passed = ground (arith, passes_below test top k)

letters_table : passes_to (λ k. eqb (code (char_at lower_letters k)) (k + 97)) 26 ≡ true
unfolding passes_to
letters_table = refl

code-letter : (k : ℕ) → k < 26 → code (char_at lower_letters k) ≡ k + 97
code-letter k h = (eqb_iff _ _).0 (passes_below _ 26 k h letters_table)

-- A lower-cased character is no capital, and is the character itself or 32 above it.
code-lower_char :
    (c : Char)
    → ((lower_char c ≡ c) × ((leb b'A' (code c) && leb (code c) b'Z') ≡ false))
      ⊎ ((code (lower_char c) ≡ code c + 32) × ((leb b'A' (code c) && leb (code c) b'Z') ≡ true))
unfolding lower_char
code-lower_char c = elim (Bool-cases (leb b'A' (code c) && leb (code c) b'Z')) [
  | inl e ↦ inr (rw e (code-letter (code c - 65) (ground arith) ∙ ground arith), e)
  | inr e ↦ inl (rw e, e)
]

lower_char_idem : (c : Char) → lower_char (lower_char c) ≡ lower_char c
lower_char_idem c = elim (code-lower_char c) [
  | inl (same, _) ↦ ap lower_char same
  | inr (up, low) ↦ elim (code-lower_char (lower_char c)) [
    | inl (same, _) ↦ same
    | inr (_, up') ↦ ground arith
  ]
]

-- No letter is a space.
letters_are_no_spaces : passes_to (λ n. if leb 65 n then not (is_space n) else true) 123 ≡ true
unfolding passes_to is_space
letters_are_no_spaces = refl

is_space_letter : (n : ℕ) → 65 ≤ n → n < 123 → is_space n ≡ false
is_space_letter n lo hi = ground (arith, passes_below _ 123 n hi letters_are_no_spaces)

is_space-lower_char : (c : Char) → is_space (code (lower_char c)) ≡ is_space (code c)
is_space-lower_char c = elim (code-lower_char c) [
  | inl (same, _) ↦ rw same
  | inr (up, low) ↦
      is_space_letter (code (lower_char c)) (ground arith) (ground arith)
      ∙ sym (is_space_letter (code c) (ground arith) (ground arith))
]

pub to_lower_idem : (s : String) → to_lower (to_lower s) ≡ to_lower s
unfolding to_lower
to_lower_idem [] = refl
to_lower_idem (c ∷ s) = ap₂ ◌∷◌ (lower_char_idem c) (to_lower_idem s)

trim_left-to_lower : (s : String) → trim_left (to_lower s) ≡ to_lower (trim_left s)
unfolding trim_left to_lower
trim_left-to_lower [] = refl
trim_left-to_lower (c ∷ s) = elim (Bool-cases (is_space (code c))) [
  | inl e ↦ rw (is_space-lower_char c, e) (trim_left-to_lower s)
  | inr e ↦ rw (is_space-lower_char c, e)
]

to_lower_before :
    (c : Char) (s : String)
    → before_trimmed (lower_char c) (to_lower s) ≡ to_lower (before_trimmed c s)
unfolding to_lower
to_lower_before c [] = elim (Bool-cases (is_space (code c))) [
  | inl e ↦ rw (is_space-lower_char c, e)
  | inr e ↦ rw (is_space-lower_char c, e)
]
to_lower_before c (d ∷ s) = refl

trim_right-to_lower : (s : String) → trim_right (to_lower s) ≡ to_lower (trim_right s)
unfolding trim_right to_lower
trim_right-to_lower [] = refl
trim_right-to_lower (c ∷ s) =
    ap (before_trimmed (lower_char c)) (trim_right-to_lower s) ∙ to_lower_before c (trim_right s)

pub trim_space-to_lower : (s : String) → trim_space (to_lower s) ≡ to_lower (trim_space s)
unfolding trim_space
trim_space-to_lower s = rw (trim_left-to_lower s) (trim_right-to_lower (trim_left s))

-- The separator does not occur in the text.
abbrev pub Lacks : Char → String → Type 0
Lacks sep [] = Unit
Lacks sep (c ∷ s) = (eqb (code c) (code sep) ≡ false) × Lacks sep s

-- Text up to the first separator is the first piece.
pub split-append :
    (w : String) (sep : Char) (s : String)
    → Lacks sep w
    → split (w ++ sep ∷ s) sep ≡ List.◌∷◌ w (split s sep)
unfolding split
split-append [] sep s h = rw append.nil (ground arith)
split-append (c ∷ w) sep s (h, t) = rw append.cons (rw (h, split-append w sep s t))

pub split-Lacks : (w : String) (sep : Char) → Lacks sep w → split w sep ≡ List.◌∷◌ w List.[]
unfolding split
split-Lacks [] sep h = refl
split-Lacks (c ∷ w) sep (h, t) = rw (h, split-Lacks w sep t)

pub Lacks-append : (sep : Char) (s t : String) → Lacks sep s → Lacks sep t → Lacks sep (s ++ t)
Lacks-append sep [] t h k = rw append.nil k
Lacks-append sep (c ∷ s) t (h, h') k = rw append.cons (h, Lacks-append sep s t h' k)

-- Splitting the join of pieces that lack the separator gives the pieces back.
pub split-join :
    (sep : Char) (w : String) (ws : List String)
    → Lacks sep w
    → All (Lacks sep) ws
    → split (join (List.◌∷◌ w ws) (sep ∷ [])) sep ≡ List.◌∷◌ w ws
unfolding join
split-join sep w List.[] h hs = split-Lacks w sep h
split-join sep w (List.◌∷◌ v vs) h (hv, hs) =
    rw (append.cons sep [] (join (List.◌∷◌ v vs) (sep ∷ [])), append.nil, split-append w sep _ h)
      (ap (List.◌∷◌ w) (split-join sep v vs hv hs))

-- Texts that the test tells apart are different.
pub differ : (s t : String) → (s == t) ≡ false → s ≢ t
differ s t h e = absurd (ground (arith, eq_iff s t))
