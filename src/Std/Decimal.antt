-- ===== src/Std/Decimal.antt =====
-- Rust's `u16`/`u32`/`u64` from and to decimal: `str::parse` and `Display`.
use cargo_unikernel.Common.{
  ℕ, zero, suc, ◌+◌, ◌-◌, ◌*◌, ◌/◌, ◌%◌, ◌≤◌, ◌<◌, Bool, false, ◌&&◌, ◌≡◌, refl, sym, ap, ◌∙◌, inl,
  inr, [], ◌∷◌, Option, none, some, arith, ltb, leb, ◌==◌, if◌then◌else◌, Bool-cases,
}
use cargo_unikernel.Std.Text.{Text, contains, Lack}

abbrev pub is_digit : ℕ → Bool
is_digit c = leb b'0' c && leb c b'9'

-- The checked loop: `acc.checked_mul(10)?.checked_add(d)?` within `max`.
unfoldable pub scan : ℕ → ℕ → Text → Option ℕ
scan max acc [] = some acc
scan max acc (c ∷ s) =
    let acc' = acc * 10 + (c - b'0') in
    let rest = scan max acc' s in if is_digit c && leb acc' max then rest else none

unfoldable pub scan_nonempty : ℕ → Text → Option ℕ
unfolding scan
scan_nonempty max [] = none
scan_nonempty max (c ∷ s) = scan max 0 (c ∷ s)

-- `from_str` of an unsigned integer type: one optional `+`, then at least one digit.
unfoldable pub parse_uint : ℕ → Text → Option ℕ
unfolding scan_nonempty
parse_uint max [] = none
parse_uint max (c ∷ s) = if c == b'+' then scan_nonempty max s else scan max 0 (c ∷ s)

-- `Display`, whose loop divides by ten; the fuel is at least the number of digits.
show_digits : ℕ → ℕ → Text → Text
show_digits zero n out = out
show_digits (suc f) n out =
    let more = show_digits f (n / 10) ((b'0' + n % 10) ∷ out) in
    if ltb n 10 then (b'0' + n) ∷ out else more

unfoldable pub show : ℕ → Text
unfolding show_digits
show n = show_digits (suc n) n []

scan-le : (max acc : ℕ) (s : Text) (r : ℕ) → acc ≤ max → scan max acc s ≡ some r → r ≤ max
unfolding scan
scan-le max acc [] r h e = ground arith
scan-le max acc (c ∷ s) r h e = ground (arith, scan-le max (acc * 10 + (c - b'0')) s r)

-- An accepted number is in the type's range.
pub parse_uint-le : (max : ℕ) (s : Text) (r : ℕ) → parse_uint max s ≡ some r → r ≤ max
unfolding parse_uint
parse_uint-le max [] r e = cc
parse_uint-le max (c ∷ []) r e = ground (arith, scan-le max 0 (c ∷ []) r)
parse_uint-le max (c ∷ (d ∷ s)) r e =
    ground (arith, scan-le max 0 (c ∷ (d ∷ s)) r, scan-le max 0 (d ∷ s) r)

scan-Lacks :
    (max acc sep : ℕ) (s : Text) (r : ℕ)
    → is_digit sep ≡ false
    → scan max acc s ≡ some r
    → Lack sep s
unfolding scan contains
scan-Lacks max acc sep [] r h e = refl
scan-Lacks max acc sep (c ∷ s) r h e =
    ground (arith, scan-Lacks max (acc * 10 + (c - b'0')) sep s r)

-- It holds no character but digits and a leading `+`.
pub parse_uint-Lacks :
    (max sep : ℕ) (s : Text) (r : ℕ)
    → is_digit sep ≡ false
    → (sep == b'+') ≡ false
    → parse_uint max s ≡ some r
    → Lack sep s
unfolding parse_uint contains
parse_uint-Lacks max sep [] r h p e = cc
parse_uint-Lacks max sep (c ∷ []) r h p e = ground (arith, scan-Lacks max 0 sep (c ∷ []) r)
parse_uint-Lacks max sep (c ∷ (d ∷ s)) r h p e =
    ground (arith, scan-Lacks max 0 sep (c ∷ (d ∷ s)) r, scan-Lacks max 0 sep (d ∷ s) r)

scan-show_digits :
    (max f n : ℕ) (out : Text) → n < f → n ≤ max → scan max 0 (show_digits f n out) ≡ scan max n out
unfolding show_digits scan
scan-show_digits max zero n out h k = absurd (omega arith)
scan-show_digits max (suc f) n out h k =
    ground (arith, scan-show_digits max f (n / 10) ((b'0' + n % 10) ∷ out))

-- A print begins with a digit.
show_digits-Digit :
    (f n : ℕ) (out : Text)
    → n < f
    → (d : ℕ) × (t : Text) × (show_digits f n out ≡ d ∷ t) × (b'0' ≤ d)
unfolding show_digits
show_digits-Digit zero n out h = absurd (omega arith)
show_digits-Digit (suc f) n out h = elim (Bool-cases (ltb n 10)) [
  | inl small ↦ (b'0' + n, out, rw small, omega arith)
  | inr more ↦ rw more (show_digits-Digit f (n / 10) ((b'0' + n % 10) ∷ out) (ground arith))
]

parse_uint_digit : (max d : ℕ) (t : Text) → b'0' ≤ d → parse_uint max (d ∷ t) ≡ scan max 0 (d ∷ t)
unfolding parse_uint
parse_uint_digit max d t h = ground arith

-- Every number of the type is read back from its print.
pub parse_uint-show : (max n : ℕ) → n ≤ max → parse_uint max (show n) ≡ some n
parse_uint-show max n h =
    let (d, t, e, k) = show_digits-Digit (suc n) n [] (omega arith) in
    unfold show in
    rw e (
      parse_uint_digit max d t k
      ∙ ap (scan max 0) (sym e)
      ∙ scan-show_digits max (suc n) n [] (omega arith) h
      ∙ unfold scan in refl)
