-- ===== src/Base/Relate.antt =====
-- Relations between the state before and after a call, one rule for each way to build a call.
use mathlib.Core.Path.{◌≡◌, refl}
use mathlib.Core.Bool.{Bool, true, false}
use mathlib.Core.Option.{Option, none, some}
use doc_lens.Base.Tests.{if◌then◌else◌}
use doc_lens.Base.Effects.{
  Result, ok, err, Exec, pure, raise, lift, gets, check, require_some, ◌>>=◌, ◌>>◌,
}

pub record Preorder {S : Type 0} (R : S → S → Type 0) : Type 0 where
  pub reflexive : (s : S) → R s s
  pub transitive : (s t u : S) → R s t → R t u → R s u

-- From `s`, the call `m` leads to a related state, whether it returns or fails.
pub record Moves {S E A : Type 0} (R : S → S → Type 0) (m : Exec S E A) (s : S) : Type 0 where
  pub at : R s (m s).1

module _ {S E A : Type 0} {R : S → S → Type 0} ⦃p : Preorder R⦄ where
  pub Moves-pure : (a : A) (s : S) → Moves R (pure {E = E} a) s
  unfolding pure
  Moves-pure a s = record { at = p.reflexive s }

  pub Moves-raise : (e : E) (s : S) → Moves R (raise {A = A} e) s
  unfolding raise
  Moves-raise e s = record { at = p.reflexive s }

  pub Moves-lift : (r : Result E A) (s : S) → Moves R (lift r) s
  unfolding lift
  Moves-lift r s = record { at = p.reflexive s }

  pub Moves-gets : (f : S → A) (s : S) → Moves R (gets {E = E} f) s
  unfolding gets
  Moves-gets f s = record { at = p.reflexive s }

  pub Moves-require_some : (o : Option A) (e : E) (s : S) → Moves R (require_some o e) s
  unfolding require_some
  Moves-require_some none e s = record { at = p.reflexive s }
  Moves-require_some (some a) e s = record { at = p.reflexive s }

  -- The rest of the call may use that the test succeeds.
  pub Moves-check :
      (b : Bool) (e : E) (m : Exec S E A) (s : S)
      → (b ≡ true → Moves R m s)
      → Moves R (check b e >> m) s
  unfolding ◌>>=◌
  Moves-check true e m s h = record { at = (h refl).at }
  Moves-check false e m s h = record { at = p.reflexive s }

  pub Moves-if :
      (b : Bool) (m n : Exec S E A) (s : S)
      → (b ≡ true → Moves R m s)
      → (b ≡ false → Moves R n s)
      → Moves R (if b then m else n) s
  Moves-if true m n s h k = h refl
  Moves-if false m n s h k = k refl

module _ {S E A B : Type 0} {R : S → S → Type 0} ⦃p : Preorder R⦄ where
  pub Moves-continue :
      (r : Result E A) (f : A → Exec S E B) (s t : S)
      → R s t
      → ((a : A) → r ≡ ok a → Moves R (f a) t)
      → R s (unfold ◌>>=◌ in ((lift r >>= f) t).1)
  unfolding ◌>>=◌
  Moves-continue (ok a) f s t h k = p.transitive s t _ h (k a refl).at
  Moves-continue (err e) f s t h k = h

  -- The rest of the call may use what the first part returned, and where it led.
  pub Moves-bind :
      (m : Exec S E A) (f : A → Exec S E B) (s : S)
      → Moves R m s
      → ((a : A) → (m s).0 ≡ ok a → Moves R (f a) (m s).1)
      → Moves R (m >>= f) s
  unfolding ◌>>=◌
  Moves-bind m f s h k = record { at = Moves-continue (m s).0 f s (m s).1 h.at k }
