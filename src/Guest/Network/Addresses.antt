-- ===== src/Guest/Network/Addresses.antt =====
-- The read-back of addresses in guest/src/network.rs: the IPv4 address of an interface, the lines of
-- `/proc/net/if_inet6`, and what is logged of them.
use cargo_unikernel.Common.{
  ◌≡◌, refl, ℕ, ◌+◌, ◌*◌, Bool, ◌&&◌, ◌==◌, any, map, if◌then◌else◌, List, [], ◌∷◌, ◌++◌, length,
  take, drop, Option, none, some, ok, err,
}
use cargo_unikernel.Std.Text.{Text, codes, text_eq, split, is_whitespace}
use cargo_unikernel.Std.Decimal.{show}
use cargo_unikernel.Std.Ipv6.{◌>>=◌}
use cargo_unikernel.Guest.Etc.{lines}
use cargo_unikernel.Guest.Network.{
  ifr_union, Ioctl, siocgifaddr, ifreq_for, is_global_unicast_v6, non_loopback_interfaces,
}
use cargo_unikernel.Guest.Network.Routes.{words_from, nth, from_hex}

unfoldable pub dotted : List ℕ → Option Text
dotted (a ∷ (b ∷ (c ∷ (d ∷ [])))) =
    some (show a ++ b'.' ∷ (show b ++ b'.' ∷ (show c ++ b'.' ∷ show d)))
dotted other = none

unfoldable pub interface_ipv4_addr : Ioctl → Text → Option Text
unfolding ifreq_for dotted
interface_ipv4_addr ioctl name = elim (ioctl siocgifaddr (ifreq_for name)) [
  | ok ifr ↦ dotted (take 4 (drop (ifr_union + 4) ifr))
  | err errno ↦ none
]

-- The groups of an address of 32 digits, each of two bytes of two digits.
unfoldable pub groups_of_hex : Text → Option (List ℕ)
unfolding from_hex
groups_of_hex (a ∷ (b ∷ (c ∷ (d ∷ s)))) = do
  high ← from_hex (a ∷ b ∷ [])
  low ← from_hex (c ∷ d ∷ [])
  groups ← groups_of_hex s
  some ((high * 256 + low) ∷ groups)
groups_of_hex other = some []

-- The device is the sixth column.
unfoldable pub address_of_line : Text → Text → Option (List ℕ)
unfolding words_from nth groups_of_hex
address_of_line name line = do
  address ← nth 0 (words_from [] line)
  device ← nth 5 (words_from [] line)
  if text_eq device name && length address == 32 then groups_of_hex address else none

-- `filter_map`.
unfoldable pub addresses_of_lines : Text → List Text → List (List ℕ)
unfolding address_of_line
addresses_of_lines name [] = []
addresses_of_lines name (line ∷ rest) =
    let more = addresses_of_lines name rest in
    elim (address_of_line name line) [ none ↦ more | some groups ↦ groups ∷ more ]

unfoldable pub interface_ipv6_addrs : Option Text → Text → List (List ℕ)
unfolding addresses_of_lines
interface_ipv6_addrs none name = []
interface_ipv6_addrs (some content) name = addresses_of_lines name (lines content)

pub data AddressLine : Type 0 where
  ipv4_line : Text → Option Text → AddressLine
  no_global_line : Text → AddressLine
  ipv6_line : Text → List ℕ → Bool → AddressLine

unfoldable pub ipv6_lines : Text → List (List ℕ) → List AddressLine
unfolding is_global_unicast_v6
ipv6_lines name addresses =
    (if any is_global_unicast_v6 addresses then [] else no_global_line name ∷ [])
    ++ map (λ groups. ipv6_line name groups (is_global_unicast_v6 groups)) addresses

unfoldable pub interface_lines : Bool → Bool → Ioctl → Option Text → Text → List AddressLine
unfolding interface_ipv4_addr interface_ipv6_addrs ipv6_lines
interface_lines ipv4 ipv6 ioctl inet6 name =
    (if ipv4 then ipv4_line name (interface_ipv4_addr ioctl name) ∷ [] else [])
    ++ (if ipv6 then ipv6_lines name (interface_ipv6_addrs inet6 name) else [])

-- By the features `net-ipv4` and `net-ipv6`, for each interface.
unfoldable pub lines_for : Bool → Bool → Ioctl → Option Text → List Text → List AddressLine
unfolding interface_lines
lines_for ipv4 ipv6 ioctl inet6 [] = []
lines_for ipv4 ipv6 ioctl inet6 (name ∷ names) =
    interface_lines ipv4 ipv6 ioctl inet6 name ++ lines_for ipv4 ipv6 ioctl inet6 names

unfoldable pub log_interface_addresses :
    Bool → Bool → Ioctl → Option Text → List Text → List AddressLine
unfolding lines_for non_loopback_interfaces
log_interface_addresses ipv4 ipv6 ioctl inet6 names =
    lines_for ipv4 ipv6 ioctl inet6 (non_loopback_interfaces names)

addresses_read :
    interface_ipv6_addrs
      (some (
        codes
          "20010db8000100020000000000000001 02 40 00 80     eth0\nfe800000000000000000000000000001 02 40 20 80 eth1\n"))
      (codes "eth0")
    ≡ (0x2001 ∷ 0xdb8 ∷ 1 ∷ 2 ∷ 0 ∷ 0 ∷ 0 ∷ 1 ∷ []) ∷ []
unfolding interface_ipv6_addrs lines text_eq split is_whitespace
addresses_read = refl
