-- ===== src/Base/Text.antt =====
-- Go's `strings.TrimSpace`, `strings.ToLower`, `strings.Split` and `strings.Join` at a one-character
-- separator. A text is its characters (the services exchange valid UTF-8). `to_lower` maps the
-- ASCII letters and leaves other characters alone.
use Prim.Native.Nat.{ℕ, zero, suc, ◌-◌}
use Prim.Native.Char.{Char, code}
use Prim.Native.String.{String, [], ◌∷◌, ◌++◌, char_at}
use mathlib.Core.Path.{◌≡◌, refl}
use mathlib.Core.Bool.{Bool, ◌&&◌, ◌||◌}
use mathlib.Core.List.{List}
use doc_lens.Base.Tests.{leb, eqb, if◌then◌else◌}

-- `unicode.IsSpace`
unfoldable pub is_space : ℕ → Bool
is_space n =
    (leb 9 n && leb n 13)
    || eqb n 32
    || eqb n 0x85
    || eqb n 0xA0
    || eqb n 0x1680
    || (leb 0x2000 n && leb n 0x200a)
    || eqb n 0x2028
    || eqb n 0x2029
    || eqb n 0x202f
    || eqb n 0x205f
    || eqb n 0x3000

unfoldable pub trim_left : String → String
trim_left [] = []
trim_left (c ∷ s) = let rest = trim_left s in if is_space (code c) then rest else c ∷ s

-- Puts a character in front, unless it is a space that nothing follows.
abbrev pub before_trimmed : Char → String → String
before_trimmed c [] = if is_space (code c) then [] else c ∷ []
before_trimmed c (d ∷ s) = c ∷ d ∷ s

unfoldable pub trim_right : String → String
trim_right [] = []
trim_right (c ∷ s) = before_trimmed c (trim_right s)

unfoldable pub trim_space : String → String
unfolding trim_left trim_right
trim_space s = trim_right (trim_left s)

abbrev pub lower_letters : String
lower_letters = "abcdefghijklmnopqrstuvwxyz"

unfoldable pub lower_char : Char → Char
lower_char c =
    if leb b'A' (code c) && leb (code c) b'Z' then char_at lower_letters (code c - 65) else c

unfoldable pub to_lower : String → String
unfolding lower_char
to_lower [] = []
to_lower (c ∷ s) = lower_char c ∷ to_lower s

-- The first `n` characters, as SQL's `LEFT`.
unfoldable pub left : ℕ → String → String
left n [] = []
left n (c ∷ s) = elim n [ zero ↦ [] | suc m ↦ c ∷ left m s ]

-- Puts a character in front of the first piece.
abbrev pub push_front : Char → List String → List String
push_front c List.[] = List.◌∷◌ (c ∷ []) List.[]
push_front c (List.◌∷◌ w ws) = List.◌∷◌ (c ∷ w) ws

unfoldable pub split : String → Char → List String
split [] sep = List.◌∷◌ [] List.[]
split (c ∷ s) sep =
    let rest = split s sep in
    if eqb (code c) (code sep) then List.◌∷◌ [] rest else push_front c rest

unfoldable pub join : List String → String → String
join List.[] sep = []
join (List.◌∷◌ w ws) sep = elim ws [ List.[] ↦ w | List.◌∷◌ _ _ ↦ w ++ sep ++ join ws sep ]

trims : trim_space " \t a b \n" ≡ "a b"
unfolding trim_space is_space
trims = refl

lowers : to_lower "Org_ADMIN Ä" ≡ "org_admin Ä"
unfolding to_lower
lowers = refl

splits : split "a,,b" "," ≡ List.◌∷◌ "a" (List.◌∷◌ "" (List.◌∷◌ "b" List.[]))
unfolding split
splits = refl

joins : join (split "a,,b" ",") "," ≡ "a,,b"
unfolding split join
joins = refl
