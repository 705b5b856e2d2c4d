-- ===== src/Guest/Network/Routes/Columns.antt =====
-- The columns of `/proc/net/route` and `/proc/net/ipv6_route` that guest/src/network.rs reads.
use cargo_unikernel.Common.{
  ℕ, ◌≡◌, refl, ap, ◌∙◌, Bool, false, ◌&&◌, ◌==◌, List, [], ◌∷◌, ◌++◌, append_assoc, append-nil,
  any, map, is_empty, All, arith, Bool-cases, inl, inr,
}
use cargo_unikernel.Std.Text.{
  Text, codes, text_eq, is_whitespace, split, cons_head, split-append, Lack, contains,
}
use cargo_unikernel.Guest.Etc.{lines, lines_of, strip_return}
use cargo_unikernel.Guest.Network.Routes.{
  add_word, words_from, nth, from_hex, is_up, is_default_v4, route_v4_has_default,
}

-- One column: something, without white space.
abbrev pub Word : Text → Type 0
Word w = (is_empty w ≡ false) × (any is_whitespace w ≡ false)

-- What the kernel prints of a route, with what follows the eighth column.
pub record Route : Type 0 where
  pub iface : Text
  pub destination : Text
  pub gateway : Text
  pub flags : Text
  pub ref_cnt : Text
  pub use_count : Text
  pub metric : Text
  pub mask : Text
  pub more : Text

-- Columns end with a tab.
abbrev column : Text → Text → Text
column word rest = word ++ 9 ∷ rest

abbrev pub route_line : Route → Text
route_line r = column r.iface (
    column r.destination (
      column r.gateway (
        column r.flags
          (column r.ref_cnt (column r.use_count (column r.metric (column r.mask r.more)))))))

abbrev pub Printed : Route → Type 0
Printed r =
    Word r.iface
    × Word r.destination
    × Word r.gateway
    × Word r.flags
    × Word r.ref_cnt
    × Word r.use_count
    × Word r.metric
    × Word r.mask
    × Lack 10 (route_line r)
    × Lack 13 (route_line r)

-- To everywhere, up, and not a rejection.
abbrev pub is_default_route : Route → Bool
is_default_route r =
    text_eq r.destination (codes "00000000")
    && (is_up (from_hex r.flags) && text_eq r.mask (codes "00000000"))

word_ends :
    (word w s : Text)
    → any is_whitespace w ≡ false
    → words_from word (w ++ 9 ∷ s) ≡ add_word (word ++ w) (words_from [] s)
unfolding words_from any is_whitespace
word_ends word [] s h = rw append-nil refl
word_ends word (c ∷ w) s h =
    let solid : is_whitespace c ≡ false = ground arith in
    rw solid (
      word_ends (word ++ c ∷ []) w s (ground arith)
      ∙ ap (λ x. add_word x (words_from [] s)) (append_assoc word (c ∷ []) w))

column_read : (w s : Text) → Word w → words_from [] (w ++ 9 ∷ s) ≡ w ∷ words_from [] s
column_read [] s h = absurd (cc)
column_read (c ∷ w) s h = word_ends [] (c ∷ w) s h.1

is_default_v4-route_line :
    (r : Route) → Printed r → is_default_v4 (route_line r) ≡ is_default_route r
unfolding is_default_v4 nth
is_default_v4-route_line r h =
    rw
      (
        column_read r.iface _ h.0,
        column_read r.destination _ h.1,
        column_read r.gateway _ h.2,
        column_read r.flags _ h.3,
        column_read r.ref_cnt _ h.4,
        column_read r.use_count _ h.5,
        column_read r.metric _ h.6,
        column_read r.mask _ h.7,
      )
      refl

-- The text of a file with these lines.
abbrev pub lines_text : List Text → Text
lines_text [] = []
lines_text (l ∷ ls) = l ++ 10 ∷ lines_text ls

split_some : (sep : ℕ) (s : Text) → (p : Text) × (ps : List Text) × (split sep s ≡ p ∷ ps)
unfolding split cons_head
split_some sep [] = ([], [], refl)
split_some sep (c ∷ s) =
    let (p, ps, e) = split_some sep s in
    elim (Bool-cases (c == sep)) [
      | inl ends ↦ ([], split sep s, rw ends refl)
      | inr goes ↦ (c ∷ p, ps, rw (goes, e) refl)
    ]

strip_return-Lack : (l : Text) → Lack 13 l → strip_return l ≡ l
unfolding strip_return contains
strip_return-Lack [] h = refl
strip_return-Lack (c ∷ s) h =
    let other : (c == 13) ≡ false = ground arith in
    rw (other, strip_return-Lack s (ground arith)) refl

lines_of-cons : (l s : Text) → lines_of (l ∷ split 10 s) ≡ strip_return l ∷ lines_of (split 10 s)
unfolding lines_of
lines_of-cons l s = let (p, ps, e) = split_some 10 s in rw e refl

abbrev Line : Text → Type 0
Line l = Lack 10 l × Lack 13 l

lines-lines_text : (ls : List Text) → All Line ls → lines (lines_text ls) ≡ ls
unfolding lines lines_of split
lines-lines_text [] h = refl
lines-lines_text (l ∷ ls) h =
    rw
      (
        split-append 10 l (lines_text ls) h.0.0,
        lines_of-cons l (lines_text ls),
        strip_return-Lack l h.0.1,
      )
      (ap (◌∷◌ l) (lines-lines_text ls h.1))

rows-Line : (rows : List Route) → All Printed rows → All Line (map route_line rows)
rows-Line [] h = tt
rows-Line (r ∷ rows) h = ((h.0.8, h.0.9), rows-Line rows h.1)

rows-default :
    (rows : List Route)
    → All Printed rows
    → any is_default_v4 (map route_line rows) ≡ any is_default_route rows
unfolding any
rows-default [] h = refl
rows-default (r ∷ rows) h = rw (is_default_v4-route_line r h.0, rows-default rows h.1) refl

-- On the text of a routing table, a header line and a line of columns for each route, whatever stands
-- after the eighth column, the parser finds a default route if, and only if, one of the routes has
-- an all-zero destination and mask and is up without being a rejection.
pub route_v4_columns :
    (header : Text) (rows : List Route)
    → Lack 10 header
    → Lack 13 header
    → All Printed rows
    → route_v4_has_default (lines_text (header ∷ map route_line rows)) ≡ any is_default_route rows
unfolding route_v4_has_default
route_v4_columns header rows a b h =
    rw (lines-lines_text (header ∷ map route_line rows) ((a, b), rows-Line rows h))
      (rows-default rows h)
