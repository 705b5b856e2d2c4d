-- ===== src/Guest/Firewall/Batch/Messages.antt =====
-- The messages that the batch of guest/src/firewall.rs is to have, and how many of them ask for an
-- acknowledgement.
use cargo_unikernel.Common.{
  ℕ, suc, ◌+◌, ◌≡◌, refl, ap, Bool, List, [], ◌∷◌, ◌++◌, map, arith, length, bit_and, ◌==◌,
  if◌then◌else◌,
}
use cargo_unikernel.Std.Text.{codes}
use cargo_unikernel.Guest.Firewall.Rules.{Rule}
use cargo_unikernel.Guest.Firewall.NlBuf.Messages.{Msg}
use cargo_unikernel.Guest.Firewall.Tlv.{group, Attrs, end, and}
use cargo_unikernel.Guest.Firewall.Exprs.Specs.{number, text}
use cargo_unikernel.Guest.Firewall.Batch.{create_flags}
use cargo_unikernel.Guest.Firewall.Batch.Specs.{rule_msg, rule_specs, configured_spec}
use cargo_unikernel.Guest.Firewall.Uapi.{
  nlm_f_request, nfnl_subsys_nftables, nfnl_msg_batch_begin, nfnl_msg_batch_end, newtable, newchain,
  nf_drop, table_family, nf_inet_local_in, filter_priority, table, chain,
}
use cargo_unikernel.Guest.Firewall.Uapi.Nfta

unfoldable pub mark_msg : ℕ → ℕ → Msg
mark_msg msg_type s = record {
  msg_type = msg_type;
  flags = nlm_f_request;
  seq = s;
  family = 0;
  res_id = nfnl_subsys_nftables;
  attrs = end;
}

unfoldable pub table_msg : Bool → Msg
table_msg ipv6 = record {
  msg_type = newtable;
  flags = create_flags;
  seq = 2;
  family = table_family ipv6;
  res_id = 0;
  attrs = and (text Nfta.table_name table) end;
}

-- The chain hangs on local input, and drops what no rule accepts.
unfoldable pub chain_msg : Bool → Msg
chain_msg ipv6 = record {
  msg_type = newchain;
  flags = create_flags;
  seq = 3;
  family = table_family ipv6;
  res_id = 0;
  attrs = and (text Nfta.chain_table table) (
      and (text Nfta.chain_name chain) (
        and
          (group Nfta.chain_hook (
            and (number Nfta.hook_hooknum nf_inet_local_in)
              (and (number Nfta.hook_priority filter_priority) end)))
          (and (number Nfta.chain_policy nf_drop)
            (and (text Nfta.chain_type (codes "filter")) end))));
}

-- The rules are numbered in order.
unfoldable pub number_rules : Bool → ℕ → List Attrs → List Msg
number_rules ipv6 s [] = []
number_rules ipv6 s (x ∷ xs) = rule_msg ipv6 s x ∷ number_rules ipv6 (suc s) xs

unfoldable pub batch_msgs : Bool → List Rule → List Msg
batch_msgs ipv6 rules =
    mark_msg nfnl_msg_batch_begin 1
    ∷ table_msg ipv6
    ∷ chain_msg ipv6
    ∷ (number_rules ipv6 4 (rule_specs rules)
        ++ mark_msg nfnl_msg_batch_end (14 + length rules) ∷ [])

-- The messages that ask for an acknowledgement (NLM_F_ACK).
unfoldable pub acks_asked : List Msg → ℕ
acks_asked [] = 0
acks_asked (m ∷ ms) = (if bit_and m.flags 4 == 0 then 0 else 1) + acks_asked ms

acks_asked-number_rules :
    (ipv6 : Bool) (s : ℕ) (xs : List Attrs) (ms : List Msg)
    → acks_asked (number_rules ipv6 s xs ++ ms) ≡ length xs + acks_asked ms
unfolding acks_asked number_rules rule_msg
acks_asked-number_rules ipv6 s [] ms = omega arith
acks_asked-number_rules ipv6 s (x ∷ xs) ms =
    omega (arith, acks_asked-number_rules ipv6 (suc s) xs ms)

length-map : {A B : Type 0} (f : A → B) (xs : List A) → length (map f xs) ≡ length xs
length-map f [] = refl
length-map f (x ∷ xs) = ap suc (length-map f xs)

pub acks_asked-batch_msgs :
    (ipv6 : Bool) (rules : List Rule) → acks_asked (batch_msgs ipv6 rules) ≡ 12 + length rules
unfolding acks_asked batch_msgs mark_msg table_msg chain_msg rule_specs
acks_asked-batch_msgs ipv6 rules = omega (
  arith,
  acks_asked-number_rules ipv6 4 (rule_specs rules)
      (mark_msg nfnl_msg_batch_end (14 + length rules) ∷ []),
  length-map configured_spec rules,
)
