-- ===== src/Std/Ipv6.antt =====
-- Rust's `Ipv6Addr`: `str::parse` and the classes of addresses. An address is its eight 16-bit
-- groups. A reader takes the unread text and gives back what is left.
pub mod Consumes
use cargo_unikernel.Common.{
  ℕ, zero, suc, ◌+◌, ◌-◌, ◌*◌, ◌/◌, Bool, true, false, ◌&&◌, ◌||◌, not, ◌≡◌, refl, List, [], ◌∷◌,
  ◌++◌, Option, none, some, ltb, leb, ◌==◌, if◌then◌else◌, length, replicate, is_empty, bit_and,
}
use cargo_unikernel.Std.Text.{Text, codes, text_eq}

abbrev Reader : Type 0 → Type 0
Reader A = Text → Option (A × Text)

infixl 5 ◌>>=◌
abbrev pub ◌>>=◌ : {A B : Type 0} → Option A → (A → Option B) → Option B
none >>= f = none
some a >>= f = f a

-- `char::to_digit(radix)` for the radixes 10 and 16.
to_digit : ℕ → ℕ → Option ℕ
to_digit radix c =
    let d =
      if leb b'0' c && leb c b'9'
      then c - b'0'
      else if leb b'a' c && leb c b'f'
      then c - b'a' + 10
      else if leb b'A' c && leb c b'F'
      then c - b'A' + 10
      else radix in
    if ltb d radix then some d else none

-- The digits at the front, with their number and value.
read_digits : ℕ → ℕ → ℕ → Text → ℕ × ℕ × Text
unfolding to_digit
read_digits radix count acc [] = (count, acc, [])
read_digits radix count acc (c ∷ s) = elim (to_digit radix c) [
  | none ↦ (count, acc, c ∷ s)
  | some d ↦ read_digits radix (count + 1) (acc * radix + d) s
]

starts_with_zero : Text → Bool
starts_with_zero [] = false
starts_with_zero (c ∷ s) = c == b'0'

read_number : ℕ → ℕ → Bool → ℕ → Reader ℕ
unfolding read_digits starts_with_zero
read_number radix max_digits allow_zero_prefix max s =
    let (count, value, rest) = read_digits radix 0 0 s in
    if count == 0
      || ltb max_digits count
      || (not allow_zero_prefix && starts_with_zero s && ltb 1 count)
      || ltb max value
    then none
    else some (value, rest)

read_given_char : ℕ → Text → Option Text
read_given_char c [] = none
read_given_char c (d ∷ s) = if d == c then some s else none

-- `read_separator(sep, i, inner)`: the separator stands before all items but the first.
read_separator : {A : Type 0} → ℕ → ℕ → Reader A → Reader A
unfolding read_given_char
read_separator sep zero inner s = inner s
read_separator sep (suc i) inner s = read_given_char sep s >>= inner

read_ipv4_addr : Reader (List ℕ)
unfolding read_number read_separator
read_ipv4_addr s = do
  (a, s) ← octet 0 s
  (b, s) ← octet 1 s
  (c, s) ← octet 2 s
  (d, s) ← octet 3 s
  some ((a * 256 + b) ∷ (c * 256 + d) ∷ [], s)
  where
    octet : ℕ → Reader ℕ
    octet i = read_separator b'.' i (read_number 10 3 false 255)

-- `read_groups`: the groups, whether they end in an IPv4 address, and the unread text. The
-- arguments are the groups that may still be read and the number already read.
read_groups : ℕ → ℕ → List ℕ → Text → List ℕ × Bool × Text
unfolding read_ipv4_addr
read_groups zero i groups s = (groups, false, s)
read_groups (suc left) i groups s =
    let ipv4 = if ltb 0 left then read_separator b':' i read_ipv4_addr s else none in
    elim ipv4 [
      | some (pair, rest) ↦ (groups ++ pair, true, rest)
      | none ↦ elim (read_separator b':' i (read_number 16 4 true 65535) s) [
        | some (g, rest) ↦ read_groups left (i + 1) (groups ++ g ∷ []) rest
        | none ↦ (groups, false, s)
      ]
    ]

after_head : List ℕ × Bool × Text → Option (List ℕ × Text)
unfolding read_groups
after_head (head, ipv4, s) = if length head == 8 then some (head, s) else if ipv4 then none else do
  s ← read_given_char b':' s
  s ← read_given_char b':' s
  let (tail, _, s) = read_groups (8 - (length head + 1)) 0 [] s
  some (head ++ replicate (8 - length head - length tail) 0 ++ tail, s)

unfoldable pub parse_ipv6 : Text → Option (List ℕ)
unfolding after_head
parse_ipv6 s = do
  (groups, rest) ← after_head (read_groups 8 0 [] s)
  if is_empty rest then some groups else none

first_group : List ℕ → ℕ
first_group [] = 0
first_group (g ∷ gs) = g

unfoldable pub is_loopback : List ℕ → Bool
unfolding text_eq
is_loopback groups = text_eq groups (replicate 7 0 ++ 1 ∷ [])

unfoldable pub is_unspecified : List ℕ → Bool
unfolding text_eq
is_unspecified groups = text_eq groups (replicate 8 0)

unfoldable pub is_multicast : List ℕ → Bool
unfolding first_group
is_multicast groups = first_group groups / 256 == 255

unfoldable pub is_link_local : List ℕ → Bool
unfolding first_group
is_link_local groups = bit_and (first_group groups) 0xffc0 == 0xfe80

parse_short :
    parse_ipv6 (codes "2001:db8:1:2::1") ≡ some (0x2001 ∷ 0xdb8 ∷ 1 ∷ 2 ∷ 0 ∷ 0 ∷ 0 ∷ 1 ∷ [])
unfolding parse_ipv6
parse_short = refl

parse_mapped :
    parse_ipv6 (codes "::ffff:10.0.0.1") ≡ some (0 ∷ 0 ∷ 0 ∷ 0 ∷ 0 ∷ 0xffff ∷ 2560 ∷ 1 ∷ [])
unfolding parse_ipv6
parse_mapped = refl

pub parse_empty : parse_ipv6 [] ≡ none
unfolding parse_ipv6
parse_empty = refl

parse_refused : parse_ipv6 (codes "2001:db8::1::2") ≡ none
unfolding parse_ipv6
parse_refused = refl

parse_link_local : is_link_local (0xfe81 ∷ []) ≡ true
unfolding is_link_local
parse_link_local = refl
