-- ===== src/Guest/Trace/Laws.antt =====
-- What holds of every call of a trace, and of a trace that ends well, by its parts.
use cargo_unikernel.Common.{◌≡◌, refl, List, [], ◌∷◌, ◌++◌, Result, ok, err, All}
use cargo_unikernel.Guest.Trace.{Trace, ◌>>=◌, demand, attempt, best_effort}

module _ {O : Type 0} (P : O → Type 0) where
  pub append-All : (xs ys : List O) → All P xs → All P ys → All P (xs ++ ys)
  append-All [] ys a b = b
  append-All (x ∷ xs) ys a b = (a.0, append-All xs ys a.1 b)

  module _ {E A : Type 0} where
    -- Of each call, however the trace ends.
    abbrev pub Always : Trace O E A → Type 0
    Always t = All P t.0

    pub attempt-Always :
        {X : Type 0} (op : O) (f : X → E) (r : Result X A) → P op → Always (attempt op f r)
    attempt-Always op f (ok a) h = (h, tt)
    attempt-Always op f (err errno) h = (h, tt)

    pub demand-Always : {X : Type 0} (f : X → E) (r : Result X A) → Always (demand f r)
    demand-Always f (ok a) = tt
    demand-Always f (err x) = tt

  pub best_effort-Always : (E : Type 0) (op : O) → P op → All P (best_effort {O = O} {E = E} op).0
  unfolding best_effort
  best_effort-Always E op h = (h, tt)

  module _ {E B : Type 0} where
    pub best_effort_bind-Always :
        (op : O) (k : Unit {0} → Trace O E B)
        → P op
        → All P (k tt).0
        → All P (best_effort op >>= k).0
    unfolding best_effort
    best_effort_bind-Always op k h rest = (h, rest)

  module _ {E A B : Type 0} where
    pub bind-Always :
        (t : Trace O E A) (f : A → Trace O E B)
        → Always t
        → ((a : A) → Always (f a))
        → Always (t >>= f)
    bind-Always (ops, ok a) f h k = append-All ops (f a).0 h (k a)
    bind-Always (ops, err e) f h k = h

-- Of the calls and the value of a trace that ends well.
pub data Ends {O E A : Type 0} (Q : List O → A → Type 0) : Trace O E A → Type 0 where
  good : (ops : List O) (a : A) → Q ops a → Ends Q (ops, ok a)
  stopped : (ops : List O) (e : E) → Ends Q (ops, err e)

module _ {O E A : Type 0} where
  pub attempt-Ends :
      {X : Type 0} {Q : List O → A → Type 0} (op : O) (f : X → E) (r : Result X A)
      → ((a : A) → r ≡ ok a → Q (op ∷ []) a)
      → Ends Q (attempt op f r)
  attempt-Ends op f (ok a) h = good (op ∷ []) a (h a refl)
  attempt-Ends op f (err x) h = stopped (op ∷ []) (f x)

  pub demand-Ends :
      {X : Type 0} {Q : List O → A → Type 0} (f : X → E) (r : Result X A)
      → ((a : A) → r ≡ ok a → Q [] a)
      → Ends Q (demand f r)
  demand-Ends f (ok a) h = good [] a (h a refl)
  demand-Ends f (err x) h = stopped [] (f x)

  -- A trace that ended well, with what that says.
  pub ended : {Q : List O → A → Type 0} {t : Trace O E A} (a : A) → t.1 ≡ ok a → Ends Q t → Q t.0 a
  ended a e (good ops b h) = let same : b ≡ a = cc in rw (← same) h
  ended a e (stopped ops x) = absurd (cc)

module _ {O E B : Type 0} where
  pub prefix-Ends :
      {Q : List O → B → Type 0} (ops : List O) {t : Trace O E B}
      → Ends (λ later b. Q (ops ++ later) b) t
      → Ends Q (ops ++ t.0, t.1)
  prefix-Ends ops (good later b h) = good (ops ++ later) b h
  prefix-Ends ops (stopped later e) = stopped (ops ++ later) e

  -- The rules for one call, or none, in front of the rest.
  pub best_effort_bind-Ends :
      {Q : List O → B → Type 0} (op : O) (k : Unit {0} → Trace O E B)
      → Ends (λ later b. Q (op ∷ later) b) (k tt)
      → Ends Q (best_effort op >>= k)
  unfolding best_effort
  best_effort_bind-Ends op k h = prefix-Ends (op ∷ []) h

module _ {O E A B : Type 0} where
  pub bind-Ends :
      {Q : List O → A → Type 0} {R : List O → B → Type 0} {t : Trace O E A} (f : A → Trace O E B)
      → Ends Q t
      → ((ops : List O) (a : A) → Q ops a → Ends (λ later b. R (ops ++ later) b) (f a))
      → Ends R (t >>= f)
  bind-Ends f (good ops a h) k = prefix-Ends ops (k ops a h)
  bind-Ends f (stopped ops e) k = stopped ops e

  pub attempt_bind-Ends :
      {X : Type 0} {Q : List O → B → Type 0} (op : O) (f : X → E) (r : Result X A)
      (k : A → Trace O E B)
      → ((a : A) → r ≡ ok a → Ends (λ later b. Q (op ∷ later) b) (k a))
      → Ends Q (attempt op f r >>= k)
  attempt_bind-Ends op f (ok a) k h = prefix-Ends (op ∷ []) (h a refl)
  attempt_bind-Ends op f (err x) k h = stopped (op ∷ []) (f x)

  pub demand_bind-Ends :
      {X : Type 0} {Q : List O → B → Type 0} (f : X → E) (r : Result X A) (k : A → Trace O E B)
      → ((a : A) → r ≡ ok a → Ends Q (k a))
      → Ends Q (demand f r >>= k)
  demand_bind-Ends f (ok a) k h = prefix-Ends [] (h a refl)
  demand_bind-Ends f (err x) k h = stopped [] (f x)
