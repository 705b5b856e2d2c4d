-- ===== src/Guest/Network.antt =====
-- guest/src/network.rs: the interfaces and the static IPv6 address. What the ioctls answer is the
-- input; names and requests are bytes.
pub mod Routes
pub mod Calls
pub mod Addresses
use cargo_unikernel.Common.{
  ℕ, ◌-◌, ◌+◌, ◌*◌, ◌%◌, ◌/◌, Bool, true, false, ◌&&◌, ◌||◌, not, leb, ltb, ◌==◌, min, map, retain,
  bit_and, bit_or, if◌then◌else◌, List, [], ◌∷◌, ◌++◌, length, take, drop, replicate, is_empty,
  Option, none, some, Result, ok, err, ◌>>=◌,
}
use cargo_unikernel.Std.Text.{Text, codes, split_once, text_eq}
use cargo_unikernel.Std.Decimal.{parse_uint}
use cargo_unikernel.Std.Ipv6.{parse_ipv6, is_loopback, is_multicast, is_unspecified}

abbrev pub ifr_union : ℕ
ifr_union = 16

-- `IfReq`: 40 bytes.
abbrev pub IfReq : Type 0
IfReq = List ℕ

-- At most 15 bytes of the name, and zeros.
unfoldable pub ifreq_for : List ℕ → IfReq
ifreq_for name = let len = min (length name) 15 in take len name ++ replicate (40 - len) 0

-- `ifr[IFR_UNION..IFR_UNION + n].copy_from_slice(bytes)`.
unfoldable pub set_union : List ℕ → IfReq → IfReq
set_union bytes ifr = take ifr_union ifr ++ (bytes ++ drop (ifr_union + length bytes) ifr)

pub data Request : Type 0 where
  siocsifaddr siocsifnetmask siocgifflags siocsifflags siocgifindex siocgifaddr : Request

-- What an ioctl leaves in its buffer, or an errno.
abbrev pub Ioctl : Type 0
Ioctl = Request → IfReq → Result ℕ IfReq

-- `struct sockaddr_in` of the family AF_INET, for an address.
unfoldable pub sockaddr_in : List ℕ → List ℕ
sockaddr_in address = 2 ∷ 0 ∷ 0 ∷ 0 ∷ (address ++ replicate 8 0)

unfoldable pub configure_loopback_v4 : Ioctl → Result ℕ (Unit {0})
unfolding ifreq_for set_union sockaddr_in
configure_loopback_v4 ioctl = do
  ifr ← ioctl siocsifaddr (set_union (sockaddr_in (127 ∷ 0 ∷ 0 ∷ 1 ∷ [])) (ifreq_for (codes "lo")))
  _ ← ioctl siocsifnetmask (set_union (sockaddr_in (255 ∷ 0 ∷ 0 ∷ 0 ∷ [])) ifr)
  ok tt

abbrev pub iff_up : ℕ
iff_up = 0x1

abbrev pub iff_running : ℕ
iff_running = 0x40

-- The two bytes of `ifr_flags`, whose sign plays no part.
abbrev pub flags_of : List ℕ → ℕ
flags_of (low ∷ high ∷ rest) = low + high * 256
flags_of (low ∷ []) = low
flags_of [] = 0

-- The set of the flags, if the interface is not up: whether it had to be changed.
unfoldable pub bring_interface_up : Ioctl → IfReq → Result ℕ Bool
unfolding set_union
bring_interface_up ioctl ifr =
    let flags = flags_of (drop ifr_union ifr) in
    let up = bit_or (bit_or flags iff_up) iff_running in
    if not (bit_and flags iff_up == 0)
    then ok false
    else (ioctl siocsifflags (set_union (up % 256 ∷ up / 256 ∷ []) ifr) >>= λ _. ok true)

unfoldable pub ensure_interface_up : Ioctl → List ℕ → Result ℕ Bool
unfolding ifreq_for bring_interface_up
ensure_interface_up ioctl name = do
  ifr ← ioctl siocgifflags (ifreq_for name)
  bring_interface_up ioctl ifr

unfoldable pub non_loopback_interfaces : List Text → List Text
non_loopback_interfaces names = retain (λ name. not (text_eq name (codes "lo"))) names

-- What came of loopback's IPv4 address, with the feature `net-ipv4`, and of each interface; errors
-- are logged, and the next one follows.
unfoldable pub init_networking :
    Bool → Ioctl → List Text → Option (Result ℕ (Unit {0})) × List (Text × Result ℕ Bool)
unfolding non_loopback_interfaces ensure_interface_up configure_loopback_v4
init_networking ipv4 ioctl names = (
  if ipv4 then some (configure_loopback_v4 ioctl) else none,
  map (λ name. (name, ensure_interface_up ioctl name)) (codes "lo" ∷ non_loopback_interfaces names),
)

unfoldable pub usable_prefix : ℕ → Bool
usable_prefix prefix_len = not (prefix_len == 0 || ltb 128 prefix_len)

-- `"address/prefix_len"`.
unfoldable pub parse_parts : Text × Text → Option (List ℕ × ℕ)
unfolding usable_prefix
parse_parts (address, prefix_len) = elim (parse_ipv6 address) [
  | none ↦ none
  | some groups ↦ elim (parse_uint 255 prefix_len) [
    | none ↦ none
    | some n ↦ if usable_prefix n then some (groups, n) else none
  ]
]

unfoldable pub parse_static_v6 : Text → Option (List ℕ × ℕ)
unfolding parse_parts
parse_static_v6 raw = elim (split_once b'/' raw) [ none ↦ none | some parts ↦ parse_parts parts ]

-- The order of `String`, by bytes.
unfoldable pub before_or_same : Text → Text → Bool
before_or_same [] t = true
before_or_same (a ∷ s) [] = false
before_or_same (a ∷ s) (b ∷ t) = ltb a b || (a == b && before_or_same s t)

-- `sort` and `first`.
unfoldable pub first_sorted : List Text → Option Text
unfolding before_or_same
first_sorted [] = none
first_sorted (name ∷ names) = elim (first_sorted names) [
  | none ↦ some name
  | some least ↦ if before_or_same name least then some name else some least
]

unfoldable pub interface_for : Text → List Text → Option Text
unfolding first_sorted non_loopback_interfaces
interface_for interface names =
    if is_empty interface then first_sorted (non_loopback_interfaces names) else some interface

pub data NetOp : Type 0 where
  assign_ipv6_address : Text → List ℕ → ℕ → NetOp
  add_ipv6_default_route : Text → List ℕ → ℕ → ℕ → NetOp

abbrev pub static_route_metric : ℕ
static_route_metric = 2048

-- With the flags RTF_UP and RTF_GATEWAY.
unfoldable pub gateway_ops : Text → Text → List NetOp
gateway_ops name gateway = if is_empty gateway then [] else elim (parse_ipv6 gateway) [
  | none ↦ []
  | some groups ↦ add_ipv6_default_route name groups static_route_metric (bit_or 0x1 0x2) ∷ []
]

-- What the calls come to is logged, and the boot goes on.
unfoldable pub configure_static_ipv6 : List Text → Text → Text → Text → List NetOp
unfolding parse_static_v6 interface_for gateway_ops
configure_static_ipv6 names static_v6 gateway interface =
    if is_empty static_v6 then [] else elim (parse_static_v6 static_v6) [
      | none ↦ []
      | some (groups, prefix_len) ↦ elim (interface_for interface names) [
        | none ↦ []
        | some name ↦ assign_ipv6_address name groups prefix_len ∷ gateway_ops name gateway
      ]
    ]

-- The first group of the address is its first 16 bits.
abbrev pub first_group_of : List ℕ → ℕ
first_group_of [] = 0
first_group_of (g ∷ gs) = g

unfoldable pub is_global_unicast_v6 : List ℕ → Bool
is_global_unicast_v6 groups =
    not (bit_and (first_group_of groups) 0xffc0 == 0xfe80)
    && (not (bit_and (first_group_of groups) 0xffc0 == 0xfec0)
        && (not (is_loopback groups) && (not (is_multicast groups) && not (is_unspecified groups))))
