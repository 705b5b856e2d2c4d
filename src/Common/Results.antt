-- ===== src/Common/Results.antt =====
-- Rust's `Result`, with the error type first, and the chain of `?`.
use mathlib.Core.Path.{◌≡◌, refl}
use mathlib.Core.Logic.{◌⊎◌, inl, inr}
use mathlib.Core.Bool.{Bool, true, false}
use mathlib.Core.Option.{Option, none, some}
use mathlib.Core.List.{List, [], ◌∷◌}

pub data Result {ℓ κ} (E : Type ℓ) (A : Type κ) : Type (ℓ ⊔ κ) where
  ok : A → Result E A
  err : E → Result E A

module _ {ℓ} {E : Type ℓ} where
  infixl 5 ◌>>=◌ ◌>>◌
  abbrev pub ◌>>=◌ {κ μ} : {A : Type κ} {B : Type μ} → Result E A → (A → Result E B) → Result E B
  ok a >>= f = f a
  err e >>= f = err e

  abbrev pub ◌>>◌ {κ} : {B : Type κ} → Result E (Unit {0}) → Result E B → Result E B
  m >> k = m >>= λ _. k

  -- `if test { return Err(e) }`.
  abbrev pub reject_if : Bool → E → Result E (Unit {0})
  reject_if true e = err e
  reject_if false e = ok tt

  -- `ok_or(e)?`.
  abbrev pub ok_or {κ} : {A : Type κ} → Option A → E → Result E A
  ok_or (some a) e = ok a
  ok_or none e = err e

  -- `for x in xs { check(x)?; }`.
  unfoldable pub for_each {κ} :
      {A : Type κ} → (A → Result E (Unit {0})) → List A → Result E (Unit {0})
  for_each check [] = ok tt
  for_each check (x ∷ xs) = check x >> for_each check xs

  -- `iter().map(f).collect::<Result<_, _>>()`.
  unfoldable pub traverse {κ μ} :
      {A : Type κ} {B : Type μ} → (A → Result E B) → List A → Result E (List B)
  traverse f [] = ok []
  traverse f (x ∷ xs) = do y ← f x; ys ← traverse f xs; ok (y ∷ ys)

pub Result-cases {ℓ κ} :
    {E : Type ℓ} {A : Type κ} (r : Result E A) → ((a : A) × (r ≡ ok a)) ⊎ ((e : E) × (r ≡ err e))
Result-cases (ok a) = inl (a, refl)
Result-cases (err e) = inr (e, refl)

-- What a result has, if it is one.
module _ {ℓ κ} {E : Type ℓ} {A : Type κ} where
  abbrev pub Holds : (A → Type 0) → Result E A → Type 0
  Holds P (ok a) = P a
  Holds P (err e) = Unit

  any-Holds : (m : Result E A) → Holds (λ _. Unit) m
  any-Holds (ok a) = tt
  any-Holds (err e) = tt

module _ {ℓ κ μ} {E : Type ℓ} {A : Type κ} {B : Type μ} where
  pub bind-Holds :
      {Q : A → Type 0} (P : B → Type 0) (m : Result E A) (f : A → Result E B)
      → Holds Q m
      → ((a : A) → Q a → Holds P (f a))
      → Holds P (m >>= f)
  bind-Holds P (ok a) f h k = k a h
  bind-Holds P (err e) f h k = tt

  pub after-Holds :
      (P : B → Type 0) (m : Result E A) (f : A → Result E B)
      → ((a : A) → Holds P (f a))
      → Holds P (m >>= f)
  after-Holds P m f k = bind-Holds P m f (any-Holds m) (λ a _. k a)
