-- ===== src/Agreement/Lists.antt =====
-- A `;`-joined list of entries without `;` is read back entry by entry.
use cargo_unikernel.Common.{
  ℕ, ◌++◌, true, ◌≡◌, refl, ap, ◌∙◌, List, [], ◌∷◌, All, retain, Result, ok, for_each, arith,
}
use cargo_unikernel.Std.Text.{Text, join, split, Lack, split-join}
use cargo_unikernel.Guest.Baked.{non_empty}

-- The pieces that the guest's parsers go through.
abbrev pub pieces : Text → List Text
pieces raw = retain non_empty (split b';' raw)

abbrev pub NonEmpty : Text → Type 0
NonEmpty s = non_empty s ≡ true

-- A text with a separator inside is not empty.
pub NonEmpty-append : (p : Text) (sep : ℕ) (s : Text) → NonEmpty (p ++ sep ∷ s)
unfolding non_empty
NonEmpty-append [] sep s = refl
NonEmpty-append (c ∷ p) sep s = refl

retain-All : (xs : List Text) → All NonEmpty xs → retain non_empty xs ≡ xs
unfolding retain
retain-All [] _ = refl
retain-All (x ∷ xs) (h, hs) = rw h (ap (◌∷◌ x) (retain-All xs hs))

pub pieces-join-retain :
    (xs : List Text) → All (Lack b';') xs → pieces (join b';' xs) ≡ retain non_empty xs
pieces-join-retain [] _ = unfold join split retain non_empty in refl
pieces-join-retain (x ∷ xs) h = ap (retain non_empty) (split-join b';' x xs h)

pub pieces-join :
    (xs : List Text) → All (Lack b';') xs → All NonEmpty xs → pieces (join b';' xs) ≡ xs
pieces-join xs h k = pieces-join-retain xs h ∙ retain-All xs k

module _ {ℓ} {E : Type 0} {A : Type ℓ} (check : A → Result E (Unit {0})) where
  abbrev pub Passes : A → Type 0
  Passes a = check a ≡ ok tt

  -- A loop that reports no error has passed every entry.
  pub for_each-All : (xs : List A) → for_each check xs ≡ ok tt → All Passes xs
  unfolding for_each
  for_each-All [] _ = tt
  for_each-All (x ∷ xs) h = ground (arith, for_each-All xs)
