-- ===== src/Base/Success.antt =====
-- What a call that succeeded says of its parts.
use mathlib.Core.Path.{◌≡◌, refl}
use mathlib.Core.Bool.{Bool, true, false}
use mathlib.Core.Option.{Option, none, some}
use native.Mathlib.Omega.{arith}
use doc_lens.Base.Effects.{Result, ok, err, Exec, pure, check, require_some, continue, ◌>>=◌}

module _ {S E A B : Type 0} where
  continue_ok :
      (r : Result E A) (f : A → Exec S E B) (s : S) (b : B) (t : S)
      → continue r f s ≡ (ok b, t)
      → (a : A) × (r ≡ ok a) × (f a s ≡ (ok b, t))
  continue_ok (ok a) f s b t h = (a, refl, h)
  continue_ok (err e) f s b t h = absurd (ground arith)

  -- Both parts succeeded, the second from where the first one led.
  pub bind_ok :
      (m : Exec S E A) (f : A → Exec S E B) (s : S) (b : B) (t : S)
      → (m >>= f) s ≡ (ok b, t)
      → (a : A) × (s' : S) × (m s ≡ (ok a, s')) × (f a s' ≡ (ok b, t))
  unfolding ◌>>=◌
  bind_ok m f s b t h =
      let (a, e, k) = continue_ok (m s).0 f (m s).1 b t h in (a, (m s).1, ground (arith, e), k)

module _ {S E A : Type 0} where
  pub pure_ok : (a b : A) (s t : S) → pure {E = E} a s ≡ (ok b, t) → (a ≡ b) × (s ≡ t)
  unfolding pure
  pure_ok a b s t h = ground arith

  pub require_some_ok :
      (o : Option A) (e : E) (a : A) (s t : S)
      → require_some o e s ≡ (ok a, t)
      → (o ≡ some a) × (s ≡ t)
  unfolding require_some
  require_some_ok none e a s t h = ground arith
  require_some_ok (some b) e a s t h = ground arith

pub check_ok :
    {S E : Type 0} (b : Bool) (e : E) (s t : S) → check b e s ≡ (ok tt, t) → (b ≡ true) × (s ≡ t)
unfolding check
check_ok true e s t h = ground arith
check_ok false e s t h = ground arith
