-- ===== src/Guest/Trace.antt =====
-- What PID 1 does until it goes on or stops: the calls it makes in order, and the result. The
-- `fatal` callbacks of guest/src do not return, so a call of one ends the trace.
pub mod Laws
pub mod Exact
use cargo_unikernel.Common.{map, List, [], ◌∷◌, ◌++◌, Result, ok, err}

abbrev pub Trace : Type 0 → Type 0 → Type 0 → Type 0
Trace O E A = List O × Result E A

module _ {O E A B : Type 0} where
  infixl 5 ◌>>=◌
  abbrev pub ◌>>=◌ : Trace O E A → (A → Trace O E B) → Trace O E B
  (ops, ok a) >>= f = let r = f a in (ops ++ r.0, r.1)
  (ops, err e) >>= f = (ops, err e)

module _ {O E B : Type 0} where
  infixl 5 ◌>>◌
  abbrev pub ◌>>◌ : Trace O E (Unit {0}) → Trace O E B → Trace O E B
  m >> k = m >>= λ _. k

module _ {O E A : Type 0} where
  abbrev pub pure : A → Trace O E A
  pure a = ([], ok a)

  -- `unwrap_or_else(|e| fatal(...))` on a result that takes no call.
  abbrev pub demand : {X : Type 0} → (X → E) → Result X A → Trace O E A
  demand f (ok a) = ([], ok a)
  demand f (err x) = ([], err (f x))

  -- A call that is made, and that the rest waits for.
  abbrev pub attempt : {X : Type 0} → O → (X → E) → Result X A → Trace O E A
  attempt op f (ok a) = (op ∷ [], ok a)
  attempt op f (err x) = (op ∷ [], err (f x))

-- A call whose result is dropped.
unfoldable pub best_effort : {O E : Type 0} → O → Trace O E (Unit {0})
best_effort op = (op ∷ [], ok tt)

-- The same run among the calls and the errors of a larger one.
unfoldable pub within : {O P E F A : Type 0} → (O → P) → (E → F) → Trace O E A → Trace P F A
within call stop (ops, ok a) = (map call ops, ok a)
within call stop (ops, err e) = (map call ops, err (stop e))
