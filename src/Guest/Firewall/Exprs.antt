-- ===== src/Guest/Firewall/Exprs.antt =====
-- The nf_tables expressions of guest/src/firewall.rs, each one list element of a rule.
pub mod Specs
use cargo_unikernel.Common.{ℕ, List, [], ◌∷◌}
use cargo_unikernel.Std.Text.{Text, codes}
use cargo_unikernel.Guest.Firewall.Bytes.{Bytes, le32}
use cargo_unikernel.Guest.Firewall.NlBuf.{Act, ◌>>=◌, ◌>>◌, put_attr, put_be32, put_str, nested}
use cargo_unikernel.Guest.Firewall.Uapi.{
  reg_verdict, reg_1, cmp_eq, range_eq, transport_header, meta_nfproto, meta_l4proto, ct_state,
}
use cargo_unikernel.Guest.Firewall.Uapi.Nfta

unfoldable pub expr : Text → Act (Unit {0}) → Act (Unit {0})
expr name body = nested Nfta.list_elem (do put_str Nfta.expr_name name; nested Nfta.expr_data body)

unfoldable pub meta_load : ℕ → Act (Unit {0})
meta_load key = expr (codes "meta") (do put_be32 Nfta.meta_key key; put_be32 Nfta.meta_dreg reg_1)

unfoldable pub ct_state_load : Act (Unit {0})
ct_state_load = expr (codes "ct") (do put_be32 Nfta.ct_key ct_state; put_be32 Nfta.ct_dreg reg_1)

unfoldable pub payload_load : ℕ → ℕ → Act (Unit {0})
payload_load offset len = expr (codes "payload") (do
  put_be32 Nfta.payload_dreg reg_1
  put_be32 Nfta.payload_base transport_header
  put_be32 Nfta.payload_offset offset
  put_be32 Nfta.payload_len len)

unfoldable pub cmp : ℕ → Bytes → Act (Unit {0})
cmp op value = expr (codes "cmp") (do
  put_be32 Nfta.cmp_sreg reg_1
  put_be32 Nfta.cmp_op op
  nested Nfta.cmp_data (put_attr Nfta.data_value value))

unfoldable pub range : Bytes → Bytes → Act (Unit {0})
range first last = expr (codes "range") (do
  put_be32 Nfta.range_sreg reg_1
  put_be32 Nfta.range_op range_eq
  nested Nfta.range_from_data (put_attr Nfta.data_value first)
  nested Nfta.range_to_data (put_attr Nfta.data_value last))

unfoldable pub bitwise_mask : ℕ → Act (Unit {0})
bitwise_mask mask = expr (codes "bitwise") (do
  put_be32 Nfta.bitwise_sreg reg_1
  put_be32 Nfta.bitwise_dreg reg_1
  put_be32 Nfta.bitwise_len 4
  nested Nfta.bitwise_mask (put_attr Nfta.data_value (le32 mask))
  nested Nfta.bitwise_xor (put_attr Nfta.data_value (le32 0)))

unfoldable pub verdict : ℕ → Act (Unit {0})
verdict code = expr (codes "immediate") (do
  put_be32 Nfta.immediate_dreg reg_verdict
  nested Nfta.immediate_data (nested Nfta.data_verdict (put_be32 Nfta.verdict_code code)))

unfoldable pub l4proto_is : ℕ → Act (Unit {0})
l4proto_is protocol = do meta_load meta_l4proto; cmp cmp_eq (protocol ∷ [])

unfoldable pub nfproto_is : ℕ → Act (Unit {0})
nfproto_is family = do meta_load meta_nfproto; cmp cmp_eq (family ∷ [])
