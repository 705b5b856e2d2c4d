-- ===== src/Guest/Network/Calls.antt =====
-- The two calls of guest/src/network.rs that install the static address and its route: the bytes of
-- `in6_ifreq` and `in6_rtmsg`, and what the calls come to.
use cargo_unikernel.Common.{
  ℕ, ◌==◌, ◌/◌, ◌%◌, ◌≡◌, refl, if◌then◌else◌, List, [], ◌∷◌, ◌++◌, take, drop, replicate, map,
  length, Result, ok, err, ◌>>=◌,
}
use cargo_unikernel.Guest.Firewall.Bytes.{Bytes, le16, le32}
use cargo_unikernel.Guest.Network.{
  ifr_union, Ioctl, siocgifindex, ifreq_for, NetOp, assign_ipv6_address, add_ipv6_default_route,
}

-- `Ipv6Addr::octets`.
unfoldable pub octets : List ℕ → Bytes
octets [] = []
octets (g ∷ gs) = g / 256 ∷ g % 256 ∷ octets gs

-- An error with an errno, or the text of one.
pub data CallError : Type 0 where
  os_error : ℕ → CallError
  other_error : ℕ → CallError

-- The four bytes of the index, which both requests copy.
unfoldable pub interface_index : Ioctl → List ℕ → Result CallError Bytes
unfolding ifreq_for
interface_index ioctl name = elim (ioctl siocgifindex (ifreq_for name)) [
  | ok ifr ↦ ok (take 4 (drop ifr_union ifr))
  | err errno ↦ err (other_error errno)
]

-- `struct in6_ifreq`.
unfoldable pub in6_ifreq : List ℕ → ℕ → Bytes → Bytes
unfolding octets
in6_ifreq address prefix_len ifindex = octets address ++ (le32 prefix_len ++ ifindex)

-- `struct in6_rtmsg` of a route from everywhere to everywhere.
unfoldable pub in6_rtmsg : List ℕ → ℕ → ℕ → Bytes → Bytes
unfolding octets
in6_rtmsg gateway metric flags ifindex =
    replicate 16 0
    ++ (replicate 16 0
        ++ (octets gateway
            ++ (le32 0
                ++ (le16 0
                    ++ (le16 0
                        ++ (le32 metric
                            ++ (le32 0 ++ (replicate 8 0 ++ (le32 flags ++ ifindex)))))))))

pub data Inet6Request : Type 0 where
  siocsifaddr_v6 siocaddrt : Inet6Request

-- The end of `inet6_ioctl`, whose error keeps its errno.
abbrev pub Inet6Ioctl : Type 0
Inet6Ioctl = Inet6Request → Bytes → Result CallError (Unit {0})

-- The index first, and then the call.
unfoldable pub perform_net_op : Ioctl → Inet6Ioctl → NetOp → Result CallError (Unit {0})
unfolding interface_index in6_ifreq in6_rtmsg
perform_net_op ioctl inet6_ioctl (assign_ipv6_address name address prefix_len) = do
  index ← interface_index ioctl name
  inet6_ioctl siocsifaddr_v6 (in6_ifreq address prefix_len index)
perform_net_op ioctl inet6_ioctl (add_ipv6_default_route name gateway metric flags) = do
  index ← interface_index ioctl name
  inet6_ioctl siocaddrt (in6_rtmsg gateway metric flags index)

abbrev pub eexist : ℕ
eexist = 17

pub data NetOutcome : Type 0 where
  assigned assign_failed route_added route_present route_failed : NetOutcome

-- What is logged. The identical route is no failure.
unfoldable pub outcome_of_call : NetOp → Result CallError (Unit {0}) → NetOutcome
outcome_of_call (assign_ipv6_address name address prefix_len) (ok x) = assigned
outcome_of_call (assign_ipv6_address name address prefix_len) (err e) = assign_failed
outcome_of_call (add_ipv6_default_route name gateway metric flags) (ok x) = route_added
outcome_of_call (add_ipv6_default_route name gateway metric flags) (err (os_error errno)) =
    if errno == eexist then route_present else route_failed
outcome_of_call (add_ipv6_default_route name gateway metric flags) (err (other_error errno)) =
    route_failed

-- Every operation is tried, whatever the ones before it came to.
unfoldable pub perform_net_ops : Ioctl → Inet6Ioctl → List NetOp → List NetOutcome
unfolding perform_net_op outcome_of_call
perform_net_ops ioctl inet6_ioctl ops =
    map (λ op. outcome_of_call op (perform_net_op ioctl inet6_ioctl op)) ops

module _ (a b c d e f g h n metric flags i j k l : ℕ) where
  -- The sizes that guest/src/network.rs asserts.
  length-in6_ifreq :
      length (in6_ifreq (a ∷ b ∷ c ∷ d ∷ e ∷ f ∷ g ∷ h ∷ []) n (i ∷ j ∷ k ∷ l ∷ [])) ≡ 24
  unfolding in6_ifreq octets
  length-in6_ifreq = refl

  length-in6_rtmsg :
      length (in6_rtmsg (a ∷ b ∷ c ∷ d ∷ e ∷ f ∷ g ∷ h ∷ []) metric flags (i ∷ j ∷ k ∷ l ∷ [])) ≡ 80
  unfolding in6_rtmsg octets
  length-in6_rtmsg = refl

  -- The gateway is at 32, the metric at 56, the flags at 72.
  in6_rtmsg-gateway :
      take 16
        (drop 32 (in6_rtmsg (a ∷ b ∷ c ∷ d ∷ e ∷ f ∷ g ∷ h ∷ []) metric flags (i ∷ j ∷ k ∷ l ∷ [])))
      ≡ octets (a ∷ b ∷ c ∷ d ∷ e ∷ f ∷ g ∷ h ∷ [])
  unfolding in6_rtmsg octets
  in6_rtmsg-gateway = refl

  in6_rtmsg-metric :
      take 4
        (drop 56 (in6_rtmsg (a ∷ b ∷ c ∷ d ∷ e ∷ f ∷ g ∷ h ∷ []) metric flags (i ∷ j ∷ k ∷ l ∷ [])))
      ≡ le32 metric
  unfolding in6_rtmsg octets
  in6_rtmsg-metric = refl
