-- ===== src/Agreement/Firewall/Solid.antt =====
-- The exported inbound entries have no white space, so they are baked as they are.
use cargo_unikernel.Common.{
  ℕ, ◌≡◌, refl, true, some, ◌∷◌, List, [], map, Bool-cases, Option-cases, inl, inr, any, arith,
}
use cargo_unikernel.Std.Text.{
  Text, codes, text_eq, text_eq_iff, is_whitespace, join, split_once, split_once-eq,
}
use cargo_unikernel.Std.Solid.{Solid, append-Solid, cons-Solid, join-Solid, parse_uint-Solid}
use cargo_unikernel.Schema.Types.{InboundPorts}
use cargo_unikernel.Schema.Validate.Entries.{port_ends, u16_max}
use cargo_unikernel.Pipeline.Wire.{inbound_text, encode_inbound}
use cargo_unikernel.Guest.Firewall.Rules.{Rule, protocol_number}
use cargo_unikernel.Agreement.Firewall.{RuleFor, RulesFor}

named-Solid : (proto name : Text) → text_eq proto name ≡ true → Solid name → Solid proto
named-Solid proto name h k = let same = (text_eq_iff proto name).0 h in rw same k

protocol-Solid : (proto : Text) (p : ℕ) → protocol_number proto ≡ some p → Solid proto
unfolding protocol_number any is_whitespace
protocol-Solid proto p h = elim (Bool-cases (text_eq proto (codes "tcp"))) [
  | inl tcp ↦ named-Solid proto (codes "tcp") tcp refl
  | inr other ↦ elim (Bool-cases (text_eq proto (codes "udp"))) [
    | inl udp ↦ named-Solid proto (codes "udp") udp refl
    | inr unknown ↦ absurd (ground arith)
  ]
]

ports-Solid : (e : InboundPorts) (r : Rule) → RuleFor e r → Solid e.ports
unfolding port_ends is_whitespace
ports-Solid e r f = elim (Option-cases (split_once b'-' e.ports)) [
  | inl whole ↦ parse_uint-Solid u16_max e.ports r.first_port (rw (whole, port_ends) at f.first)
  | inr ((a, b), cut) ↦
      let spelled = (split_once-eq b'-' e.ports a b cut).0 in
      rw spelled (
        append-Solid a (b'-' ∷ b)
          (parse_uint-Solid u16_max a r.first_port (rw (cut, port_ends) at f.first))
          (cons-Solid b'-' b refl
            (parse_uint-Solid u16_max b r.last_port (rw (cut, port_ends) at f.last))))
]

inbound_text-Solid : (e : InboundPorts) (r : Rule) → RuleFor e r → Solid (inbound_text e)
unfolding inbound_text is_whitespace
inbound_text-Solid e r f =
    append-Solid e.proto (b':' ∷ e.ports) (protocol-Solid e.proto r.protocol f.protocol)
      (cons-Solid b':' e.ports refl (ports-Solid e r f))

entries-Solid :
    (es : List InboundPorts) (rs : List Rule)
    → RulesFor es rs
    → Solid (join b';' (map inbound_text es))
unfolding join is_whitespace any
entries-Solid [] [] h = refl
entries-Solid (e ∷ es) (r ∷ rs) h =
    join-Solid b';' (inbound_text e) (map inbound_text es) refl (inbound_text-Solid e r h.0)
      (entries-Solid es rs h.1)
entries-Solid [] (r ∷ rs) h = elim h [ ]
entries-Solid (e ∷ es) [] h = elim h [ ]

pub encode_inbound-Solid :
    (es : List InboundPorts) (rs : List Rule) → RulesFor es rs → Solid (encode_inbound es)
unfolding encode_inbound
encode_inbound-Solid es rs h = entries-Solid es rs h
