-- ===== src/Std/Ipv6/Consumes.antt =====
-- A text that parses as an IPv6 address has no slash and no white space.
use cargo_unikernel.Common.{
  ℕ, zero, suc, ◌+◌, ◌-◌, ◌*◌, Bool, true, false, ◌&&◌, ◌||◌, not, ◌≡◌, refl, sym, ap, ◌∙◌, List,
  [], ◌∷◌, ◌++◌, append_assoc, append-nil, Option, none, some, ltb, ◌==◌, if◌then◌else◌, Bool-cases,
  Option-cases, inl, inr, arith, is_empty, length, any,
}
use cargo_unikernel.Std.Text.{Text, contains, Lack, is_whitespace}
use cargo_unikernel.Std.Solid.{Solid, any-append}
use cargo_unikernel.Std.Ipv6.{
  Reader, ◌>>=◌, to_digit, read_digits, starts_with_zero, read_number, read_given_char,
  read_separator, read_ipv4_addr, read_groups, after_head, parse_ipv6,
}

-- Neither a slash nor white space.
abbrev stray : ℕ → Bool
stray c = c == b'/' || is_whitespace c

abbrev Clean : Text → Type 0
Clean p = any stray p ≡ false

-- The rest of a text, after a part that is clean.
abbrev Consumed : Text → Text → Type 0
Consumed s rest = (p : Text) × (s ≡ p ++ rest) × Clean p

-- What a reader leaves, if it reads.
abbrev Consumes : {A : Type 0} → Text → Option (A × Text) → Type 0
Consumes s none = Unit
Consumes s (some (a, rest)) = Consumed s rest

same : (s : Text) → Consumed s s
unfolding any
same s = ([], refl, refl)

after : (s t u : Text) → Consumed s t → Consumed t u → Consumed s u
after s t u (p, e, h) (q, f, k) = (
  p ++ q,
  e ∙ (ap (λ r. p ++ r) f ∙ sym (append_assoc p q u)),
  (any-append stray p q ∙ rw (h, k) refl),
)

same_char : (c d : ℕ) → (c == d) ≡ true → c ≡ d
same_char c d h = ground arith

no_digit : (radix c : ℕ) → stray c ≡ true → to_digit radix c ≡ none
unfolding to_digit is_whitespace
no_digit radix c h = ground arith

digits-Consumed : (radix count acc : ℕ) (s : Text) → Consumed s (read_digits radix count acc s).2
unfolding read_digits any
digits-Consumed radix count acc [] = same []
digits-Consumed radix count acc (c ∷ s) = elim (Option-cases (to_digit radix c)) [
  | inl e ↦ rw (read_digits, e) (same (c ∷ s))
  | inr (d, e) ↦
      let (p, f, h) = digits-Consumed radix (count + 1) (acc * radix + d) s in
      rw (read_digits, e)
        (
          c ∷ p,
          ap (◌∷◌ c) f,
          elim (Bool-cases (stray c)) [
            | inl slash ↦ let none_read = no_digit radix c slash in absurd (cc)
            | inr other ↦ rw (other, h) refl
          ],
        )
]

number-Consumes :
    (radix max_digits : ℕ) (allow_zero_prefix : Bool) (max : ℕ) (s : Text)
    → Consumes s (read_number radix max_digits allow_zero_prefix max s)
unfolding read_number
number-Consumes radix max_digits allow_zero_prefix max s =
    elim (Bool-cases (
      (read_digits radix 0 0 s).0 == 0
      || ltb max_digits (read_digits radix 0 0 s).0
      || (not allow_zero_prefix && starts_with_zero s && ltb 1 (read_digits radix 0 0 s).0)
      || ltb max (read_digits radix 0 0 s).1)) [
        | inl bad ↦ rw bad tt
        | inr good ↦ rw good (digits-Consumed radix 0 0 s)
      ]

bind-Consumes :
    {A B : Type 0} (s : Text) (m : Option (A × Text)) (k : A × Text → Option (B × Text))
    → Consumes s m
    → ((a : A) (t : Text) → Consumed s t → Consumes s (k (a, t)))
    → Consumes s (m >>= k)
bind-Consumes s none k h f = tt
bind-Consumes s (some (a, t)) k h f = f a t h

later-Consumes :
    {A : Type 0} (s t : Text) (o : Option (A × Text)) → Consumed s t → Consumes t o → Consumes s o
later-Consumes s t none h k = tt
later-Consumes s t (some (a, rest)) h k = after s t rest h k

-- `read_separator`, whose separator is clean.
separator-Consumes :
    {A : Type 0} (sep i : ℕ) (inner : Reader A) (s : Text)
    → stray sep ≡ false
    → ((t : Text) → Consumes t (inner t))
    → Consumes s (read_separator sep i inner s)
unfolding read_separator read_given_char any
separator-Consumes sep zero inner s h k = k s
separator-Consumes sep (suc i) inner [] h k = tt
separator-Consumes sep (suc i) inner (d ∷ s) h k = elim (Bool-cases (d == sep)) [
  | inr other ↦ rw other tt
  | inl there ↦
      let plain : stray d ≡ false = rw (same_char d sep there) h in
      rw there (later-Consumes (d ∷ s) s (inner s) (d ∷ [], refl, rw plain refl) (k s))
]

octet-Consumes :
    (i : ℕ) (s : Text) → Consumes s (read_separator b'.' i (read_number 10 3 false 255) s)
unfolding is_whitespace
octet-Consumes i s =
    separator-Consumes b'.' i (read_number 10 3 false 255) s refl (number-Consumes 10 3 false 255)

ipv4-Consumes : (s : Text) → Consumes s (read_ipv4_addr s)
unfolding read_ipv4_addr
ipv4-Consumes s =
    bind-Consumes s (read_separator b'.' 0 (read_number 10 3 false 255) s) _ (octet-Consumes 0 s)
      (λ a t h.
        bind-Consumes s (read_separator b'.' 1 (read_number 10 3 false 255) t) _
          (later-Consumes s t _ h (octet-Consumes 1 t))
          (λ b u k.
            bind-Consumes s (read_separator b'.' 2 (read_number 10 3 false 255) u) _
              (later-Consumes s u _ k (octet-Consumes 2 u))
              (λ c v l.
                bind-Consumes s (read_separator b'.' 3 (read_number 10 3 false 255) v) _
                  (later-Consumes s v _ l (octet-Consumes 3 v)) (λ d w m. m))))

-- What `read_groups` finds first: an IPv4 address, if there is room for one.
abbrev ipv4_at : ℕ → ℕ → Text → Option (List ℕ × Text)
ipv4_at left i s = if ltb 0 left then read_separator b':' i read_ipv4_addr s else none

ipv4_at-Consumes : (left i : ℕ) (s : Text) → Consumes s (ipv4_at left i s)
unfolding is_whitespace
ipv4_at-Consumes left i s = elim (Bool-cases (ltb 0 left)) [
  | inl room ↦ rw room (separator-Consumes b':' i read_ipv4_addr s refl ipv4-Consumes)
  | inr full ↦ rw full tt
]

consumed-some :
    {A : Type 0} (s : Text) (o : Option (A × Text)) (r : A × Text)
    → o ≡ some r
    → Consumes s o
    → Consumed s r.1
consumed-some s none r e h = absurd (cc)
consumed-some s (some (a, rest)) r e h =
    let same_rest : rest ≡ r.1 = ap_rest e in rw (← same_rest) h
  where
    ap_rest : some (a, rest) ≡ some r → rest ≡ r.1
    ap_rest e = cc

groups-Consumed :
    (left i : ℕ) (groups : List ℕ) (s : Text) → Consumed s (read_groups left i groups s).2
unfolding read_groups is_whitespace
groups-Consumed zero i groups s = same s
groups-Consumed (suc left) i groups s = elim (Option-cases (ipv4_at left i s)) [
  | inr (pair, e) ↦
      rw (read_groups, e) (consumed-some s (ipv4_at left i s) pair e (ipv4_at-Consumes left i s))
  | inl no_ipv4 ↦ elim (Option-cases (read_separator b':' i (read_number 16 4 true 65535) s)) [
    | inl e ↦ rw (read_groups, no_ipv4, e) (same s)
    | inr (g, e) ↦
        let read = consumed-some s _ g e (
          separator-Consumes b':' i (read_number 16 4 true 65535) s refl
            (number-Consumes 16 4 true 65535)) in
        rw (read_groups, no_ipv4, e)
          (after s g.1 _ read (groups-Consumed left (i + 1) (groups ++ g.0 ∷ []) g.1))
  ]
]

colon-Consumes :
    {B : Type 0} (s : Text) (k : Text → Option (B × Text))
    → ((t : Text) → Consumed s t → Consumes s (k t))
    → Consumes s (read_given_char b':' s >>= k)
unfolding read_given_char any is_whitespace
colon-Consumes [] k h = tt
colon-Consumes (d ∷ s) k h = elim (Bool-cases (d == b':')) [
  | inr other ↦ rw other tt
  | inl there ↦
      let plain : stray d ≡ false = rw (same_char d b':' there) refl in
      rw there (h s (d ∷ [], refl, rw plain refl))
]

-- The rest of an address, after the first groups.
head-Consumes : (head : List ℕ) (ipv4 : Bool) (s : Text) → Consumes s (after_head (head, ipv4, s))
unfolding after_head
head-Consumes head ipv4 s = elim (Bool-cases (length head == 8)) [
  | inl full ↦ rw full (same s)
  | inr short ↦ elim (Bool-cases ipv4) [
    | inl ends ↦ rw (short, ends) tt
    | inr goes ↦
        rw (short, goes)
          (colon-Consumes s _ (λ t h. later-Consumes s t _ h (
            colon-Consumes t _
              (λ u k. after t u _ k (groups-Consumed (8 - (length head + 1)) 0 [] u)))))
  ]
]

whole-Clean : (s rest : Text) → Consumed s rest → is_empty rest ≡ true → Clean s
whole-Clean s [] (p, e, h) empty = rw (e, append-nil) h
whole-Clean s (c ∷ rest) (p, e, h) empty = absurd (cc)

-- What is left of a text by the groups and the rest.
read_all :
    (s : Text) (r : List ℕ × Text) → after_head (read_groups 8 0 [] s) ≡ some r → Consumed s r.1
read_all s r e =
    let first = read_groups 8 0 [] s in
    after s first.2 r.1 (groups-Consumed 8 0 [] s)
      (consumed-some first.2 (after_head first) r e (head-Consumes first.0 first.1 first.2))

parse_ipv6-Clean : (s : Text) (groups : List ℕ) → parse_ipv6 s ≡ some groups → Clean s
unfolding parse_ipv6
parse_ipv6-Clean s groups h = elim (Option-cases (after_head (read_groups 8 0 [] s))) [
  | inl unread ↦ let none_read : none ≡ some groups = rw unread at h in absurd (cc)
  | inr (r, e) ↦ elim (Bool-cases (is_empty r.1)) [
    | inl whole ↦ whole-Clean s r.1 (read_all s r e) whole
    | inr partial ↦ let left : none ≡ some groups = rw partial at (rw e at h) in absurd (cc)
  ]
]

Clean-Lack : (s : Text) → Clean s → Lack b'/' s
unfolding any contains
Clean-Lack [] h = refl
Clean-Lack (c ∷ s) h =
    let other : (c == b'/') ≡ false = ground arith in rw (other, Clean-Lack s (ground arith)) refl

Clean-Solid : (s : Text) → Clean s → Solid s
unfolding any
Clean-Solid [] h = refl
Clean-Solid (c ∷ s) h =
    let plain : is_whitespace c ≡ false = ground arith in
    rw (plain, Clean-Solid s (ground arith)) refl

-- A text that parses has no slash.
pub parse_ipv6-Lacks : (s : Text) (groups : List ℕ) → parse_ipv6 s ≡ some groups → Lack b'/' s
parse_ipv6-Lacks s groups h = Clean-Lack s (parse_ipv6-Clean s groups h)

-- It has no white space.
pub parse_ipv6-Solid : (s : Text) (groups : List ℕ) → parse_ipv6 s ≡ some groups → Solid s
parse_ipv6-Solid s groups h = Clean-Solid s (parse_ipv6-Clean s groups h)
