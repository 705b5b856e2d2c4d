-- ===== src/Guest/Network/Routes.antt =====
-- The parsers of `/proc/net/route` and `/proc/net/ipv6_route` in guest/src/network.rs, and
-- `wait_for_network_settle`. What the files read as and what the clock says is the input.
pub mod Columns
use cargo_unikernel.Common.{
  ℕ, zero, suc, ◌+◌, ◌-◌, ◌*◌, ◌^◌, Bool, true, false, ◌&&◌, ◌||◌, not, leb, ◌==◌, bit_and,
  if◌then◌else◌, List, [], ◌∷◌, ◌++◌, drop, any, is_empty, Option, none, some,
}
use cargo_unikernel.Std.Text.{Text, codes, text_eq, is_whitespace}
use cargo_unikernel.Guest.Etc.{lines}

abbrev pub rtf_up : ℕ
rtf_up = 0x1

abbrev pub rtf_reject : ℕ
rtf_reject = 0x200

abbrev pub add_word : Text → List Text → List Text
add_word [] words = words
add_word (c ∷ s) words = (c ∷ s) ∷ words

-- `split_whitespace`, with the word that is being read.
unfoldable pub words_from : Text → Text → List Text
words_from word [] = add_word word []
words_from word (c ∷ s) =
    if is_whitespace c then add_word word (words_from [] s) else words_from (word ++ c ∷ []) s

unfoldable pub nth : ℕ → List Text → Option Text
nth n [] = none
nth zero (w ∷ ws) = some w
nth (suc n) (w ∷ ws) = nth n ws

abbrev pub is_word : Text → Option Text → Bool
is_word word none = false
is_word word (some w) = text_eq w word

unfoldable pub hex_digit : ℕ → Option ℕ
hex_digit c =
    if leb b'0' c && leb c b'9'
    then some (c - b'0')
    else if leb b'a' c && leb c b'f'
    then some (c - b'a' + 10)
    else if leb b'A' c && leb c b'F'
    then some (c - b'A' + 10)
    else none

-- `u32::from_str_radix(s, 16)`, after the sign.
unfoldable pub hex_value : ℕ → Text → Option ℕ
unfolding hex_digit
hex_value acc [] = some acc
hex_value acc (c ∷ s) = elim (hex_digit c) [
  | none ↦ none
  | some d ↦ if leb (acc * 16 + d) (2 ^ 32 - 1) then hex_value (acc * 16 + d) s else none
]

unfoldable pub from_hex : Text → Option ℕ
unfolding hex_value
from_hex [] = none
from_hex (c ∷ []) = hex_value 0 (c ∷ [])
from_hex (c ∷ (d ∷ s)) = if c == b'+' then hex_value 0 (d ∷ s) else hex_value 0 (c ∷ d ∷ s)

-- The route is up, and does not reject.
abbrev pub is_up : Option ℕ → Bool
is_up none = false
is_up (some flags) = bit_and flags (rtf_up + rtf_reject) == rtf_up

abbrev pub usable : Option Text → Bool
usable none = false
usable (some flags) = is_up (from_hex flags)

-- `Iface Destination Gateway Flags RefCnt Use Metric Mask`.
unfoldable pub is_default_v4 : Text → Bool
unfolding words_from nth from_hex
is_default_v4 line =
    let fields = words_from [] line in
    is_word (codes "00000000") (nth 1 fields)
    && (usable (nth 3 fields) && is_word (codes "00000000") (nth 7 fields))

unfoldable pub route_v4_has_default : Text → Bool
unfolding is_default_v4
route_v4_has_default routes = any is_default_v4 (drop 1 (lines routes))

-- The flags are in the ninth column.
unfoldable pub is_default_v6 : Text → Bool
unfolding words_from nth from_hex
is_default_v6 line =
    let fields = words_from [] line in
    is_word (codes "00000000000000000000000000000000") (nth 0 fields)
    && (is_word (codes "00") (nth 1 fields) && usable (nth 8 fields))

unfoldable pub route_v6_has_default : Text → Bool
unfolding is_default_v6
route_v6_has_default routes = any is_default_v6 (lines routes)

-- Whether the clock is before the deadline, and what the two files read as.
pub record RouteRound : Type 0 where
  pub before_deadline : Bool
  pub ipv4_routes : Option Text
  pub ipv6_routes : Option Text

abbrev pub read_and : (Text → Bool) → Option Text → Bool
read_and test none = false
read_and test (some text) = test text

-- By the features `net-ipv4` and `net-ipv6`.
unfoldable pub has_default_route : Bool → Bool → RouteRound → Bool
unfolding route_v4_has_default route_v6_has_default
has_default_route ipv4 ipv6 r =
    (ipv4 && read_and route_v4_has_default r.ipv4_routes)
    || (ipv6 && read_and route_v6_has_default r.ipv6_routes)

-- Whether a route was found; nothing comes of rounds at whose end the code still waits.
unfoldable pub wait_for_network_settle : Bool → Bool → List RouteRound → Option Bool
unfolding has_default_route
wait_for_network_settle ipv4 ipv6 [] = none
wait_for_network_settle ipv4 ipv6 (r ∷ rounds) =
    let later = wait_for_network_settle ipv4 ipv6 rounds in
    if not r.before_deadline
    then some false
    else if has_default_route ipv4 ipv6 r
    then some true
    else later
