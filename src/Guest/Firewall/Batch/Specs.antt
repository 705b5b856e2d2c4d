-- ===== src/Guest/Firewall/Batch/Specs.antt =====
-- The ruleset as a list of messages, each an attribute tree, and the proof that `build_batch` of
-- guest/src/firewall.rs writes exactly these.
use cargo_unikernel.Common.{
  ℕ, ◌<◌, Bool, List, [], ◌∷◌, ◌++◌, map, ◌==◌, if◌then◌else◌, Bool-cases, inl, inr, replicate,
  arith, length,
}
use cargo_unikernel.Std.Text.{codes}
use cargo_unikernel.Guest.Firewall.Rules.{Rule}
use cargo_unikernel.Guest.Firewall.Bytes.{le32, be16}
use cargo_unikernel.Guest.Firewall.NlBuf.Laws.{Emits, Emits1, seq, one}
use cargo_unikernel.Guest.Firewall.NlBuf.Messages.{Msg}
use cargo_unikernel.Guest.Firewall.Tlv.{Attr, group, Attrs, end, and, encode_attr, encode_attrs}
use cargo_unikernel.Guest.Firewall.Exprs.{l4proto_is, nfproto_is}
use cargo_unikernel.Guest.Firewall.Exprs.Specs.{
  text, meta_attr, ct_attr, payload_attr, cmp_attr, range_attr, bitwise_attr, verdict_attr,
  meta_load-Emits1, ct_state_load-Emits1, payload_load-Emits1, cmp-Emits1, range-Emits1,
  bitwise_mask-Emits1, verdict-Emits1,
}
use cargo_unikernel.Guest.Firewall.Batch.{
  rule_flags, loopback, established, invalid, icmpv6, icmpv4, port_test, configured,
}
use cargo_unikernel.Guest.Firewall.Uapi.{
  newrule, cmp_eq, cmp_neq, meta_iifname, meta_nfproto, meta_l4proto, nf_drop, nf_accept,
  table_family, nfproto_ipv4, nfproto_ipv6, ipproto_icmp, ipproto_icmpv6, table, chain,
  icmpv6_allowed_types, icmpv4_dest_unreach,
}
use cargo_unikernel.Guest.Firewall.Uapi.Nfta

abbrev proto_then : ℕ → ℕ → Attrs → Attrs
proto_then key value xs = and (meta_attr key) (and (cmp_attr cmp_eq (value ∷ [])) xs)

abbrev accept : Attrs
accept = and (verdict_attr nf_accept) end

unfoldable pub loopback_spec : Attrs
loopback_spec =
    and (meta_attr meta_iifname) (and (cmp_attr cmp_eq (codes "lo" ++ replicate 14 0)) accept)

unfoldable pub established_spec : Attrs
established_spec = and ct_attr (and (bitwise_attr 6) (and (cmp_attr cmp_neq (le32 0)) accept))

unfoldable pub invalid_spec : Attrs
invalid_spec =
    and ct_attr
      (and (bitwise_attr 1) (and (cmp_attr cmp_neq (le32 0)) (and (verdict_attr nf_drop) end)))

-- The type byte of an ICMP packet of one family and protocol.
unfoldable pub icmp_spec : ℕ → ℕ → ℕ → Attrs
icmp_spec family protocol icmp_type = proto_then meta_nfproto family (
    proto_then meta_l4proto protocol
      (and (payload_attr 0 1) (and (cmp_attr cmp_eq (icmp_type ∷ [])) accept)))

unfoldable pub port_spec : Rule → Attr
port_spec r =
    if r.first_port == r.last_port
    then cmp_attr cmp_eq (be16 r.first_port)
    else range_attr (be16 r.first_port) (be16 r.last_port)

unfoldable pub configured_spec : Rule → Attrs
configured_spec r =
    proto_then meta_l4proto r.protocol (and (payload_attr 2 2) (and (port_spec r) accept))

-- The expressions of the rules, in the order in which a packet meets them.
unfoldable pub rule_specs : List Rule → List Attrs
rule_specs rules =
    loopback_spec
    ∷ established_spec
    ∷ invalid_spec
    ∷ (map (icmp_spec nfproto_ipv6 ipproto_icmpv6) icmpv6_allowed_types
        ++ icmp_spec nfproto_ipv4 ipproto_icmp icmpv4_dest_unreach ∷ map configured_spec rules)

unfoldable pub rule_msg : Bool → ℕ → Attrs → Msg
rule_msg ipv6 s xs = record {
  msg_type = newrule;
  flags = rule_flags;
  seq = s;
  family = table_family ipv6;
  res_id = 0;
  attrs =
      and (text Nfta.rule_table table)
        (and (text Nfta.rule_chain chain) (and (group Nfta.rule_expressions xs) end));
}

pub loopback-Emits : Emits loopback loopback_spec
unfolding loopback loopback_spec
loopback-Emits =
    seq (meta_load-Emits1 _) (seq (cmp-Emits1 _ _ (omega arith)) (one (verdict-Emits1 _)))

pub established-Emits : Emits established established_spec
unfolding established established_spec
established-Emits =
    seq ct_state_load-Emits1
      (seq (bitwise_mask-Emits1 _) (seq (cmp-Emits1 _ _ (omega arith)) (one (verdict-Emits1 _))))

pub invalid-Emits : Emits invalid invalid_spec
unfolding invalid invalid_spec
invalid-Emits =
    seq ct_state_load-Emits1
      (seq (bitwise_mask-Emits1 _) (seq (cmp-Emits1 _ _ (omega arith)) (one (verdict-Emits1 _))))

pub icmpv6-Emits : (t : ℕ) → Emits (icmpv6 t) (icmp_spec nfproto_ipv6 ipproto_icmpv6 t)
unfolding icmpv6 icmp_spec nfproto_is l4proto_is
icmpv6-Emits t = seq (meta_load-Emits1 _) (
    seq (cmp-Emits1 _ _ (omega arith)) (
      seq (meta_load-Emits1 _) (
        seq (cmp-Emits1 _ _ (omega arith)) (
          seq (payload_load-Emits1 _ _)
            (seq (cmp-Emits1 _ _ (omega arith)) (one (verdict-Emits1 _)))))))

pub icmpv4-Emits : Emits icmpv4 (icmp_spec nfproto_ipv4 ipproto_icmp icmpv4_dest_unreach)
unfolding icmpv4 icmp_spec nfproto_is l4proto_is
icmpv4-Emits = seq (meta_load-Emits1 _) (
    seq (cmp-Emits1 _ _ (omega arith)) (
      seq (meta_load-Emits1 _) (
        seq (cmp-Emits1 _ _ (omega arith)) (
          seq (payload_load-Emits1 _ _)
            (seq (cmp-Emits1 _ _ (omega arith)) (one (verdict-Emits1 _)))))))

port_test-Emits1 : (r : Rule) → Emits1 (port_test r) (port_spec r)
unfolding port_test port_spec
port_test-Emits1 r = elim (Bool-cases (r.first_port == r.last_port)) [
  | inl single ↦ rw single (cmp-Emits1 _ _ (omega arith))
  | inr several ↦ rw several (range-Emits1 _ _ (omega arith) (omega arith))
]

pub configured-Emits : (r : Rule) → Emits (configured r) (configured_spec r)
unfolding configured configured_spec l4proto_is
configured-Emits r = seq (meta_load-Emits1 _) (
    seq (cmp-Emits1 _ _ (omega arith))
      (seq (payload_load-Emits1 _ _) (seq (port_test-Emits1 r) (one (verdict-Emits1 _)))))

-- The sizes of the rules, all below a thousand bytes.
abbrev pub Small : Attrs → Type 0
Small xs = length (encode_attrs xs) < 1000

pub fixed_Small : Small loopback_spec × Small established_spec × Small invalid_spec
unfolding encode_attr encode_attrs loopback_spec established_spec invalid_spec
fixed_Small = omega arith

pub icmp_spec-Small : (family protocol icmp_type : ℕ) → Small (icmp_spec family protocol icmp_type)
unfolding encode_attr encode_attrs icmp_spec
icmp_spec-Small family protocol icmp_type = omega arith

pub configured_spec-Small : (r : Rule) → Small (configured_spec r)
unfolding encode_attr encode_attrs configured_spec port_spec
configured_spec-Small r = elim (Bool-cases (r.first_port == r.last_port)) [
  | inl single ↦ rw single (omega arith)
  | inr several ↦ rw several (omega arith)
]
