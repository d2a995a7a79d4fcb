-- ===== src/Base/Hex.antt =====
-- `hex.EncodeToString` of Go's encoding/hex.
use Prim.Native.Nat.{ℕ, ◌/◌, ◌%◌}
use Prim.Native.String.{String, ◌∷◌, char_at}
use mathlib.Core.List.{List}

abbrev hex_digits : String
hex_digits = "0123456789abcdef"

unfoldable pub hex : List ℕ → String
hex List.[] = ""
hex (List.◌∷◌ b bs) = char_at hex_digits (b / 16 % 16) ∷ char_at hex_digits (b % 16) ∷ hex bs
