-- ===== src/Base/Time.antt =====
-- Times in nanoseconds and the TIMESTAMPTZ columns of PostgreSQL, which keep microseconds.
use Prim.Native.Nat.{ℕ, ◌*◌, ◌/◌, ◌≤◌}
use native.Mathlib.Omega.{arith}
use mathlib.Core.Option.{Option, none, some}

-- What is read back of a time that was stored: the driver cuts the rest off.
unfoldable pub micros : ℕ → ℕ
micros t = t / 1000 * 1000

abbrev pub some_micros : Option ℕ → Option ℕ
some_micros none = none
some_micros (some t) = some (micros t)

pub micros_le : (t : ℕ) → micros t ≤ t
unfolding micros
micros_le t = omega arith
