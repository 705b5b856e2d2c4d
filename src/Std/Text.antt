-- ===== src/Std/Text.antt =====
-- Rust's `str` on lists of code points: equality, `contains`, `starts_with`, `split`,
-- `split_once`, `join` and `trim`.
use Prim.Native.Char.{code}
use Prim.Native.String.{String}
use cargo_unikernel.Common.{
  is_empty, ℕ, Bool, true, false, ◌&&◌, ◌||◌, ◌≡◌, refl, ap, ◌↔◌, ◌∙◌, List, [], ◌∷◌, ◌++◌, Option,
  none, some, arith, leb, ◌==◌, if◌then◌else◌, Bool-cases, Option-cases, inl, inr, All,
}

abbrev pub Text : Type 0
Text = List ℕ

abbrev pub codes : String → Text
codes String.[] = []
codes (String.◌∷◌ c s) = code c ∷ codes s

unfoldable pub text_eq : Text → Text → Bool
text_eq [] [] = true
text_eq (a ∷ s) (b ∷ t) = a == b && text_eq s t
text_eq _ _ = false

unfoldable pub contains : ℕ → Text → Bool
contains sep [] = false
contains sep (c ∷ s) = c == sep || contains sep s

unfoldable pub starts_with : Text → Text → Bool
starts_with [] s = true
starts_with (p ∷ ps) [] = false
starts_with (p ∷ ps) (c ∷ s) = p == c && starts_with ps s

unfoldable pub cons_head : ℕ → List Text → List Text
cons_head c [] = (c ∷ []) ∷ []
cons_head c (p ∷ ps) = (c ∷ p) ∷ ps

-- `s.split(sep)`: there is always at least one piece.
unfoldable pub split : ℕ → Text → List Text
unfolding cons_head
split sep [] = [] ∷ []
split sep (c ∷ s) = let rest = split sep s in if c == sep then [] ∷ rest else cons_head c rest

unfoldable pub cons_first : ℕ → Option (Text × Text) → Option (Text × Text)
cons_first c none = none
cons_first c (some (a, b)) = some (c ∷ a, b)

-- `s.split_once(sep)`: at the first `sep`.
unfoldable pub split_once : ℕ → Text → Option (Text × Text)
unfolding cons_first
split_once sep [] = none
split_once sep (c ∷ s) =
    let rest = split_once sep s in if c == sep then some ([], s) else cons_first c rest

unfoldable pub join : ℕ → List Text → Text
join sep [] = []
join sep (p ∷ []) = p
join sep (p ∷ (q ∷ ps)) = p ++ sep ∷ join sep (q ∷ ps)

-- The Unicode White_Space property, which `trim` strips by.
unfoldable pub is_whitespace : ℕ → Bool
is_whitespace c =
    (leb 0x9 c && leb c 0xd)
    || c == 0x20
    || c == 0x85
    || c == 0xa0
    || c == 0x1680
    || (leb 0x2000 c && leb c 0x200a)
    || c == 0x2028
    || c == 0x2029
    || c == 0x202f
    || c == 0x205f
    || c == 0x3000

unfoldable pub trim_start : Text → Text
unfolding is_whitespace
trim_start [] = []
trim_start (c ∷ s) = let rest = trim_start s in if is_whitespace c then rest else c ∷ s

-- Of white space alone nothing is left.
unfoldable pub trim_end : Text → Text
unfolding is_whitespace
trim_end [] = []
trim_end (c ∷ s) =
    let rest = trim_end s in if is_whitespace c && is_empty rest then [] else c ∷ rest

unfoldable pub trim : Text → Text
unfolding trim_start trim_end
trim s = trim_end (trim_start s)

-- `s.trim().is_empty()`.
unfoldable pub is_blank : Text → Bool
unfolding is_whitespace
is_blank [] = true
is_blank (c ∷ s) = is_whitespace c && is_blank s

pub text_eq_iff : (s t : Text) → (text_eq s t ≡ true) ↔ (s ≡ t)
unfolding text_eq
text_eq_iff [] [] = (λ _. refl, λ _. refl)
text_eq_iff [] (b ∷ t) = (λ h. cc, λ h. cc)
text_eq_iff (a ∷ s) [] = (λ h. cc, λ h. cc)
text_eq_iff (a ∷ s) (b ∷ t) =
    (λ h. ground (arith, text_eq_iff s t), λ h. ground (arith, text_eq_iff s t))

pub split-Lacks : (sep : ℕ) (p : Text) → contains sep p ≡ false → split sep p ≡ p ∷ []
unfolding split contains
split-Lacks sep [] h = refl
split-Lacks sep (c ∷ p) h = ground (arith, split-Lacks sep p)

pub split-append :
    (sep : ℕ) (p s : Text) → contains sep p ≡ false → split sep (p ++ sep ∷ s) ≡ p ∷ split sep s
unfolding split contains
split-append sep [] s h = ground arith
split-append sep (c ∷ p) s h = ground (arith, split-append sep p s)

abbrev pub Lack : ℕ → Text → Type 0
Lack sep s = contains sep s ≡ false

-- Splitting a join gives the pieces back.
pub split-join :
    (sep : ℕ) (p : Text) (ps : List Text)
    → All (Lack sep) (p ∷ ps)
    → split sep (join sep (p ∷ ps)) ≡ p ∷ ps
unfolding join
split-join sep p [] (h, _) = split-Lacks sep p h
split-join sep p (q ∷ ps) (h, hs) =
    split-append sep p (join sep (q ∷ ps)) h ∙ ap (◌∷◌ p) (split-join sep q ps hs)

pub split_once-append :
    (sep : ℕ) (p s : Text) → Lack sep p → split_once sep (p ++ sep ∷ s) ≡ some (p, s)
unfolding split_once contains
split_once-append sep [] s h = ground arith
split_once-append sep (c ∷ p) s h = ground (arith, split_once-append sep p s)

pub split_once-Lacks : (sep : ℕ) (s : Text) → Lack sep s → split_once sep s ≡ none
unfolding split_once contains
split_once-Lacks sep [] h = refl
split_once-Lacks sep (c ∷ s) h = ground (arith, split_once-Lacks sep s)

pub contains-append :
    (sep : ℕ) (p s : Text) → contains sep (p ++ s) ≡ (contains sep p || contains sep s)
unfolding contains
contains-append sep [] s = refl
contains-append sep (c ∷ p) s = ground (arith, contains-append sep p s)

-- What `split_once` returns spells the text, and its first part lacks the separator.
pub split_once-eq :
    (sep : ℕ) (s a b : Text) → split_once sep s ≡ some (a, b) → (s ≡ a ++ sep ∷ b) × Lack sep a
unfolding split_once contains
split_once-eq sep [] a b h = absurd (cc)
split_once-eq sep (c ∷ s) a b h = elim (Bool-cases (c == sep)) [
  | inl hit ↦ ground arith
  | inr miss ↦ elim (Option-cases (split_once sep s)) [
    | inl e ↦ absurd (ground arith)
    | inr (p, e) ↦ let ih = split_once-eq sep s p.0 p.1 e in ground (arith, ih)
  ]
]
