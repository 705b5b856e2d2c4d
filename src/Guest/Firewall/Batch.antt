-- ===== src/Guest/Firewall/Batch.antt =====
-- `build_batch` of guest/src/firewall.rs. `ipv6` is the feature `net-ipv6`; `tick` is the next
-- sequence number, which the closure of the source keeps in a variable.
pub mod Specs
pub mod Messages
pub mod Refinement
use cargo_unikernel.Common.{
  ℕ, ◌+◌, ◌-◌, ◌^◌, min, Bool, List, [], ◌∷◌, ◌++◌, Result, ok, err, ◌==◌, if◌then◌else◌, replicate,
  bit_or,
}
use cargo_unikernel.Std.Text.{codes}
use cargo_unikernel.Guest.Firewall.Rules.{Rule}
use cargo_unikernel.Guest.Firewall.Bytes.{Bytes, le32, be16}
use cargo_unikernel.Guest.Firewall.NlBuf.{
  NlBuf, Act, ◌>>=◌, ◌>>◌, pure, default_buf, put_be32, put_str, nested, message, finish,
  BuildError,
}
use cargo_unikernel.Guest.Firewall.Exprs.{
  meta_load, ct_state_load, payload_load, cmp, range, bitwise_mask, verdict, l4proto_is, nfproto_is,
}
use cargo_unikernel.Guest.Firewall.Uapi.{
  nlm_f_request, nlm_f_ack, nlm_f_excl, nlm_f_create, nlm_f_append, nfnl_subsys_nftables,
  nfnl_msg_batch_begin, nfnl_msg_batch_end, newtable, newchain, newrule, cmp_eq, cmp_neq,
  meta_iifname, nf_drop, nf_accept, table_family, nfproto_ipv4, nfproto_ipv6, nf_inet_local_in,
  filter_priority, ct_state_invalid, ct_state_established, ct_state_related, ipproto_icmp,
  ipproto_icmpv6, ifnamsiz, table, chain, icmpv6_allowed_types, icmpv4_dest_unreach,
}
use cargo_unikernel.Guest.Firewall.Uapi.Nfta

unfoldable pub tick : ℕ → ℕ
tick seq = min (seq + 1) (2 ^ 32 - 1)

abbrev pub rule_flags : ℕ
rule_flags = bit_or (bit_or (bit_or nlm_f_request nlm_f_ack) nlm_f_create) nlm_f_append

abbrev pub create_flags : ℕ
create_flags = bit_or (bit_or (bit_or nlm_f_request nlm_f_ack) nlm_f_create) nlm_f_excl

unfoldable pub rule : Bool → ℕ → Act (Unit {0}) → Act (Unit {0})
rule ipv6 seq expressions = message newrule rule_flags seq (table_family ipv6) 0 (do
  put_str Nfta.rule_table table
  put_str Nfta.rule_chain chain
  nested Nfta.rule_expressions expressions)

unfoldable pub add_table : Bool → ℕ → Act (Unit {0})
add_table ipv6 seq =
    message newtable create_flags seq (table_family ipv6) 0 (put_str Nfta.table_name table)

unfoldable pub add_chain : Bool → ℕ → Act (Unit {0})
add_chain ipv6 seq = message newchain create_flags seq (table_family ipv6) 0 (do
  put_str Nfta.chain_table table
  put_str Nfta.chain_name chain
  nested Nfta.chain_hook
      (do put_be32 Nfta.hook_hooknum nf_inet_local_in; put_be32 Nfta.hook_priority filter_priority)
  put_be32 Nfta.chain_policy nf_drop
  put_str Nfta.chain_type (codes "filter"))

unfoldable pub loopback : Act (Unit {0})
loopback = do
  meta_load meta_iifname
  cmp cmp_eq (codes "lo" ++ replicate (ifnamsiz - 2) 0)
  verdict nf_accept

unfoldable pub established : Act (Unit {0})
established = do
  ct_state_load
  bitwise_mask (bit_or ct_state_established ct_state_related)
  cmp cmp_neq (le32 0)
  verdict nf_accept

unfoldable pub invalid : Act (Unit {0})
invalid = do ct_state_load; bitwise_mask ct_state_invalid; cmp cmp_neq (le32 0); verdict nf_drop

unfoldable pub icmpv6 : ℕ → Act (Unit {0})
icmpv6 icmp_type = do
  nfproto_is nfproto_ipv6
  l4proto_is ipproto_icmpv6
  payload_load 0 1
  cmp cmp_eq (icmp_type ∷ [])
  verdict nf_accept

unfoldable pub icmpv4 : Act (Unit {0})
icmpv4 = do
  nfproto_is nfproto_ipv4
  l4proto_is ipproto_icmp
  payload_load 0 1
  cmp cmp_eq (icmpv4_dest_unreach ∷ [])
  verdict nf_accept

-- One port is compared, a range is tested at both ends.
unfoldable pub port_test : Rule → Act (Unit {0})
port_test r =
    if r.first_port == r.last_port
    then cmp cmp_eq (be16 r.first_port)
    else range (be16 r.first_port) (be16 r.last_port)

unfoldable pub configured : Rule → Act (Unit {0})
configured r = do l4proto_is r.protocol; payload_load 2 2; port_test r; verdict nf_accept

-- A loop that writes one rule for each item, and ends with the last sequence number.
unfoldable pub rule_loop : {A : Type 0} → Bool → (A → Act (Unit {0})) → ℕ → List A → Act ℕ
rule_loop ipv6 body seq [] = pure seq
rule_loop ipv6 body seq (x ∷ xs) = do
  rule ipv6 (tick seq) (body x)
  rule_loop ipv6 body (tick seq) xs

unfoldable pub batch_mark : ℕ → ℕ → Act (Unit {0})
batch_mark msg_type seq = message msg_type nlm_f_request seq 0 nfnl_subsys_nftables (pure tt)

unfoldable pub write_batch : Bool → List Rule → Act ℕ
write_batch ipv6 rules = do
  let s1 = tick 0
  batch_mark nfnl_msg_batch_begin s1
  let s2 = tick s1
  add_table ipv6 s2
  let s3 = tick s2
  add_chain ipv6 s3
  let s4 = tick s3
  rule ipv6 s4 loopback
  let s5 = tick s4
  rule ipv6 s5 established
  let s6 = tick s5
  rule ipv6 s6 invalid
  s12 ← rule_loop ipv6 icmpv6 s6 icmpv6_allowed_types
  let s13 = tick s12
  rule ipv6 s13 icmpv4
  s ← rule_loop ipv6 configured s13 rules
  let last = tick s
  batch_mark nfnl_msg_batch_end last
  pure last

pub record Batch : Type 0 where
  pub bytes : Bytes
  pub ackable : ℕ

unfoldable pub batch_of : ℕ × NlBuf → Result BuildError Batch
batch_of (last, buf) = elim (finish buf) [
  | ok bytes ↦ ok (record { bytes = bytes; ackable = last - 2 })
  | err e ↦ err e
]

unfoldable pub build_batch : Bool → List Rule → Result BuildError Batch
unfolding batch_of
build_batch ipv6 rules = batch_of (write_batch ipv6 rules default_buf)
