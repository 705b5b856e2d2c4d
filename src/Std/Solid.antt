-- ===== src/Std/Solid.antt =====
-- Texts without white space, which a line protocol leaves as they are.
use cargo_unikernel.Common.{
  ℕ, ◌≡◌, refl, ◌∙◌, Bool, true, false, ◌||◌, ◌==◌, ◌+◌, ◌-◌, ◌*◌, any, List, [], ◌∷◌, ◌++◌, some,
  arith, Bool-cases, inl, inr,
}
use cargo_unikernel.Std.Text.{Text, is_whitespace, trim_end, join}
use cargo_unikernel.Std.Decimal.{is_digit, scan, scan_nonempty, parse_uint, show, parse_uint-show}

abbrev pub Solid : Text → Type 0
Solid s = any is_whitespace s ≡ false

pub any-append :
    {A : Type 0} (test : A → Bool) (xs ys : List A)
    → any test (xs ++ ys) ≡ (any test xs || any test ys)
unfolding any
any-append test [] ys = refl
any-append test (x ∷ xs) ys = elim (Bool-cases (test x)) [
  | inl hit ↦ rw hit refl
  | inr miss ↦ rw miss (any-append test xs ys)
]

pub append-Solid : (s t : Text) → Solid s → Solid t → Solid (s ++ t)
append-Solid s t h k = any-append is_whitespace s t ∙ rw (h, k) refl

pub cons-Solid : (c : ℕ) (s : Text) → is_whitespace c ≡ false → Solid s → Solid (c ∷ s)
unfolding any
cons-Solid c s h k = rw (h, k) refl

pub join-Solid :
    (sep : ℕ) (p : Text) (ps : List Text)
    → is_whitespace sep ≡ false
    → Solid p
    → Solid (join sep ps)
    → Solid (join sep (p ∷ ps))
unfolding join any
join-Solid sep p [] h k l = k
join-Solid sep p (q ∷ ps) h k l = append-Solid p _ k (cons-Solid sep _ h l)

pub trim_end-Solid : (s : Text) → Solid s → trim_end s ≡ s
unfolding trim_end any
trim_end-Solid [] h = refl
trim_end-Solid (c ∷ s) h =
    let plain : is_whitespace c ≡ false = ground arith in
    rw (plain, trim_end-Solid s (ground arith)) refl

digit_is_solid : (c : ℕ) → is_digit c ≡ true → is_whitespace c ≡ false
unfolding is_whitespace
digit_is_solid c h = ground arith

scan-Solid : (max acc : ℕ) (s : Text) (r : ℕ) → scan max acc s ≡ some r → Solid s
unfolding scan any
scan-Solid max acc [] r e = refl
scan-Solid max acc (c ∷ s) r e = elim (Bool-cases (is_digit c)) [
  | inl digit ↦
      cons-Solid c s (digit_is_solid c digit)
        (scan-Solid max (acc * 10 + (c - b'0')) s r (ground arith))
  | inr other ↦ absurd (ground arith)
]

plus_sign :
    (max c : ℕ) (s : Text) (r : ℕ)
    → (c == b'+') ≡ true
    → scan_nonempty max s ≡ some r
    → Solid (c ∷ s)
unfolding scan_nonempty is_whitespace
plus_sign max c [] r plus k = absurd (cc)
plus_sign max c (d ∷ s) r plus k =
    cons-Solid c (d ∷ s) (ground arith) (scan-Solid max 0 (d ∷ s) r k)

-- A number has no white space.
pub parse_uint-Solid : (max : ℕ) (s : Text) (r : ℕ) → parse_uint max s ≡ some r → Solid s
unfolding parse_uint any
parse_uint-Solid max [] r e = refl
parse_uint-Solid max (c ∷ s) r e = elim (Bool-cases (c == b'+')) [
  | inl plus ↦ plus_sign max c s r plus (rw plus at e)
  | inr digits ↦ scan-Solid max 0 (c ∷ s) r (rw digits at e)
]

pub show-Solid : (n : ℕ) → Solid (show n)
show-Solid n = parse_uint-Solid n (show n) n (parse_uint-show n n (omega arith))
