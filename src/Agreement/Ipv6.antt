-- ===== src/Agreement/Ipv6.antt =====
-- `[network.ipv6_static]` from the config to the guest: src/schema.rs, the two build scripts, and
-- `configure_static_ipv6` in guest/src/network.rs.
use cargo_unikernel.Common.{
  any, ℕ, ◌≡◌, ◌≤◌, refl, true, false, List, [], ◌∷◌, ◌++◌, Option, none, some, ok, is_empty, arith,
  Option-cases, inl, inr,
}
use cargo_unikernel.Std.Text.{is_whitespace, Text, split_once-append}
use cargo_unikernel.Std.Decimal.{show, parse_uint-show}
use cargo_unikernel.Std.Ipv6.{parse_ipv6, parse_empty}
use cargo_unikernel.Std.Ipv6.Consumes.{parse_ipv6-Lacks, parse_ipv6-Solid}
use cargo_unikernel.Std.Solid.{Solid, append-Solid, cons-Solid, show-Solid}
use cargo_unikernel.Schema.Types.{Config, Ipv6Static, NetworkMode}
use cargo_unikernel.Schema.Validate.{validate}
use cargo_unikernel.Schema.Validate.Checked.{validate-Checked}
use cargo_unikernel.Schema.Validate.Sections.{
  check_gateway, check_ipv6_static, validate_ipv6_static,
}
use cargo_unikernel.Pipeline.GuestInit.{ipv6_text, app_env_exports}
use cargo_unikernel.Guest.Baked.{env_var, passthrough, rustc_env}
use cargo_unikernel.Guest.Network.{
  NetOp, assign_ipv6_address, add_ipv6_default_route, static_route_metric, interface_for,
  gateway_ops, configure_static_ipv6, parse_static_v6, parse_parts, usable_prefix,
}
use cargo_unikernel.Agreement.Exports.Ipv6.{
  static_name, gateway_name, interface_name, env_var-static, env_var-gateway, env_var-interface,
}
use cargo_unikernel.Agreement.Baked.{baked_value, baked-some, baked-Solid}
use cargo_unikernel.Agreement.Line.{rustc_env-Solid}

-- An empty constant stands for a setting that is not made.
abbrev pub or_empty : Option Text → Text
or_empty none = []
or_empty (some s) = s

-- The route that the gateway of the config asks for, if it has one.
unfoldable pub Routed : Text → Option Text → List NetOp → Type 0
Routed name none ops = ops ≡ []
Routed name (some gateway) ops =
    (groups : List ℕ) × (parse_ipv6 gateway ≡ some groups)
    × (ops ≡ add_ipv6_default_route name groups static_route_metric 3 ∷ [])

-- What the guest does for the section, on the interface that was chosen.
unfoldable pub Addressed : Ipv6Static → List ℕ → Option Text → List NetOp → Type 0
Addressed v6 groups none ops = ops ≡ []
Addressed v6 groups (some name) ops =
    (routes : List NetOp) × (ops ≡ assign_ipv6_address name groups v6.prefix_len ∷ routes)
    × Routed name v6.gateway routes

-- What the check lets through: an address, a prefix that the guest takes, and a gateway.
abbrev Usable : Ipv6Static → Type 0
Usable v6 =
    (groups : List ℕ) × (parse_ipv6 v6.address ≡ some groups)
    × (usable_prefix v6.prefix_len ≡ true)
    × (check_gateway v6.gateway ≡ ok tt)

check-Usable :
    (mode : NetworkMode) (v6 : Ipv6Static) → check_ipv6_static mode v6 ≡ ok tt → Usable v6
unfolding check_ipv6_static usable_prefix
check-Usable mode v6 h = elim (Option-cases (parse_ipv6 v6.address)) [
  | inl unread ↦ absurd (ground arith)
  | inr (groups, e) ↦ (groups, e, ground arith, ground arith)
]

prefix_bound : (n : ℕ) → usable_prefix n ≡ true → n ≤ 255
unfolding usable_prefix
prefix_bound n h = ground arith

parse_static_v6-ipv6_text :
    (v6 : Ipv6Static) (groups : List ℕ)
    → parse_ipv6 v6.address ≡ some groups
    → usable_prefix v6.prefix_len ≡ true
    → parse_static_v6 (ipv6_text v6) ≡ some (groups, v6.prefix_len)
unfolding parse_static_v6 parse_parts ipv6_text usable_prefix
parse_static_v6-ipv6_text v6 groups e u =
    rw
      (
        parse_static_v6,
        parse_parts,
        split_once-append b'/' v6.address (show v6.prefix_len)
            (parse_ipv6-Lacks v6.address groups e),
        e,
        parse_uint-show 255 v6.prefix_len (prefix_bound v6.prefix_len u),
        u,
      )
      refl

is_empty-append : (s t : Text) (x : ℕ) → is_empty (s ++ x ∷ t) ≡ false
is_empty-append [] t x = refl
is_empty-append (y ∷ s) t x = refl

baked_optional :
    (c : Config) (name : Text) (o : Option Text)
    → env_var name (app_env_exports c) ≡ o
    → baked_value c name [] ≡ rustc_env (or_empty o)
unfolding passthrough
baked_optional c name none h = rw (h, passthrough) refl
baked_optional c name (some v) h = baked-some c name [] v h

ipv6_text-Solid :
    (v6 : Ipv6Static) (groups : List ℕ) → parse_ipv6 v6.address ≡ some groups → Solid (ipv6_text v6)
unfolding ipv6_text is_whitespace
ipv6_text-Solid v6 groups e =
    append-Solid v6.address (b'/' ∷ show v6.prefix_len) (parse_ipv6-Solid v6.address groups e)
      (cons-Solid b'/' (show v6.prefix_len) refl (show-Solid v6.prefix_len))

gateway-Solid : (gateway : Option Text) → check_gateway gateway ≡ ok tt → Solid (or_empty gateway)
unfolding check_gateway any
gateway-Solid none h = refl
gateway-Solid (some gateway) h = elim (Option-cases (parse_ipv6 gateway)) [
  | inl unread ↦ absurd (ground arith)
  | inr (groups, e) ↦ parse_ipv6-Solid gateway groups e
]

some_route :
    (name gateway : Text)
    → check_gateway (some gateway) ≡ ok tt
    → Routed name (some gateway) (gateway_ops name gateway)
unfolding Routed gateway_ops check_gateway
some_route name [] h = absurd (ground (arith, parse_empty))
some_route name (g ∷ gs) h = elim (Option-cases (parse_ipv6 (g ∷ gs))) [
  | inl unread ↦ absurd (ground arith)
  | inr (groups, e) ↦ (groups, e, rw e refl)
]

gateway_ops-Routed :
    (name : Text) (gateway : Option Text)
    → check_gateway gateway ≡ ok tt
    → Routed name gateway (gateway_ops name (or_empty gateway))
unfolding Routed gateway_ops
gateway_ops-Routed name none h = refl
gateway_ops-Routed name (some gateway) h = some_route name gateway h

configure-Addressed :
    (v6 : Ipv6Static) (groups : List ℕ) (names : List Text) (interface : Text)
    → parse_static_v6 (ipv6_text v6) ≡ some (groups, v6.prefix_len)
    → check_gateway v6.gateway ≡ ok tt
    → Addressed v6 groups
        (interface_for interface names)
        (configure_static_ipv6 names (ipv6_text v6) (or_empty v6.gateway) interface)
unfolding Addressed configure_static_ipv6 ipv6_text
configure-Addressed v6 groups names interface e k =
    rw (configure_static_ipv6, is_empty-append v6.address (show v6.prefix_len) b'/', e)
      (elim (Option-cases (interface_for interface names)) [
        | inl no_interface ↦ rw no_interface refl
        | inr (name, found) ↦
            rw found
              (gateway_ops name (or_empty v6.gateway), refl, gateway_ops-Routed name v6.gateway k)
      ])

-- If a config passes `validate` and has a static IPv6 address, the guest that reads the three
-- exported constants assigns that address with its prefix length, on the interface the config
-- names (the first line of that text, without white space at its end) or else the first of the sorted ones, and then adds the one route that the gateway asks
-- for, or none if there is no gateway; without an interface it does nothing.
pub static_ipv6_agreement :
    (c : Config) (v6 : Ipv6Static) (names : List Text)
    → validate c ≡ ok tt
    → c.network.ipv6_static ≡ some v6
    → (groups : List ℕ) × (parse_ipv6 v6.address ≡ some groups)
      × Addressed v6 groups (interface_for (rustc_env (or_empty v6.interface)) names) (
          configure_static_ipv6 names
            (baked_value c static_name [])
            (baked_value c gateway_name [])
            (baked_value c interface_name []))
unfolding validate_ipv6_static
static_ipv6_agreement c v6 names h s =
    let checked : check_ipv6_static c.network.mode v6 ≡ ok tt =
      rw s at (validate-Checked c h).ipv6 in
    let (groups, e, u, k) = check-Usable c.network.mode v6 checked in
    (
      groups,
      e,
      rw
          (
            baked-Solid c static_name [] (ipv6_text v6) (env_var-static c v6 s)
                (ipv6_text-Solid v6 groups e),
            baked_optional c gateway_name v6.gateway (env_var-gateway c v6 s),
            rustc_env-Solid (or_empty v6.gateway) (gateway-Solid v6.gateway k),
            baked_optional c interface_name v6.interface (env_var-interface c v6 s),
          )
          (configure-Addressed v6 groups names (rustc_env (or_empty v6.interface))
            (parse_static_v6-ipv6_text v6 groups e u) k),
    )
