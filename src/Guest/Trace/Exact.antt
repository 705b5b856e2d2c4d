-- ===== src/Guest/Trace/Exact.antt =====
-- The calls of a trace that ends well, one by one.
use cargo_unikernel.Common.{Result, ok, err, ◌≡◌, refl, ap, ◌∙◌, List, [], ◌∷◌, ◌++◌, Result, map}
use cargo_unikernel.Guest.Trace.{Trace, ◌>>=◌, attempt, demand, within}
use cargo_unikernel.Guest.Trace.Laws.{
  Ends, good, stopped, attempt-Ends, bind-Ends, demand-Ends, prefix-Ends,
}

module _ {O E A : Type 0} where
  abbrev pub Makes : List O → Trace O E A → Type 0
  Makes calls t = Ends (λ ops _. ops ≡ calls) t

  pub attempt-Makes :
      {X : Type 0} (op : O) (f : X → E) (r : Result X A) → Makes (op ∷ []) (attempt op f r)
  attempt-Makes op f r = attempt-Ends op f r (λ a _. refl)

  pub demand-Makes : {X : Type 0} (f : X → E) (r : Result X A) → Makes [] (demand f r)
  demand-Makes f r = demand-Ends f r (λ a _. refl)

  pub weaken-Ends :
      {Q R : List O → A → Type 0} {t : Trace O E A}
      → ((ops : List O) (a : A) → Q ops a → R ops a)
      → Ends Q t
      → Ends R t
  weaken-Ends k (good ops a h) = good ops a (k ops a h)
  weaken-Ends k (stopped ops e) = stopped ops e

module _ {O E A B : Type 0} where
  pub bind-Makes :
      {X Y : List O} {t : Trace O E A} (f : A → Trace O E B)
      → Makes X t
      → ((a : A) → Makes Y (f a))
      → Makes (X ++ Y) (t >>= f)
  bind-Makes {X = X} f h k =
      bind-Ends f h
        (λ ops a e. weaken-Ends (λ later b e2. ap (λ l. l ++ later) e ∙ ap (◌++◌ X) e2) (k a))

module _ {O P E F A : Type 0} where
  pub within-Ends :
      {Q : List P → A → Type 0} (call : O → P) (stop : E → F) {t : Trace O E A}
      → Ends (λ ops a. Q (map call ops) a) t
      → Ends Q (within call stop t)
  unfolding within
  within-Ends call stop (good ops a h) = good (map call ops) a h
  within-Ends call stop (stopped ops e) = stopped (map call ops) (stop e)

-- A fact that holds if a trace ends well, from one of its parts.
module _ {O E A : Type 0} where
  abbrev pub Gives : Type 0 → Trace O E A → Type 0
  Gives F t = Ends (λ _ _. F) t

  pub both-Ends :
      {Q R : List O → A → Type 0} {t : Trace O E A}
      → Ends Q t
      → Ends R t
      → Ends (λ ops a. Q ops a × R ops a) t
  both-Ends (good ops a h) (good _ _ k) = good ops a (h, k)
  both-Ends (stopped ops e) k = stopped ops e

module _ {O E A B : Type 0} {F : Type 0} where
  pub first-Gives : {t : Trace O E A} (f : A → Trace O E B) → Gives F t → Gives F (t >>= f)
  first-Gives f (good ops a h) = then_Gives ops (f a) h
    where
      then_Gives : (ops : List O) (t : Trace O E B) → F → Gives F (ops ++ t.0, t.1)
      then_Gives ops (later, ok b) h = good (ops ++ later) b h
      then_Gives ops (later, err e) h = stopped (ops ++ later) e
  first-Gives f (stopped ops e) = stopped ops e

  pub later-Gives :
      (t : Trace O E A) (f : A → Trace O E B) → ((a : A) → Gives F (f a)) → Gives F (t >>= f)
  later-Gives (ops, ok a) f h = prefix-Ends ops (h a)
  later-Gives (ops, err e) f h = stopped ops e

module _ {O P E F : Type 0} where
  pub within-Gives :
      (call : O → P) (stop : E → F) (t : Trace O E (Unit {0}))
      → Gives (t.1 ≡ ok tt) (within call stop t)
  unfolding within
  within-Gives call stop (ops, ok _) = good (map call ops) tt refl
  within-Gives call stop (ops, err e) = stopped (map call ops) (stop e)
