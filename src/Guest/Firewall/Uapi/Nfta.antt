-- ===== src/Guest/Firewall/Uapi/Nfta.antt =====
-- The `NFTA_*` attribute numbers of guest/src/firewall.rs.
use cargo_unikernel.Common.{ℕ}

abbrev pub table_name : ℕ
table_name = 1

abbrev pub chain_table : ℕ
chain_table = 1

abbrev pub chain_name : ℕ
chain_name = 3

abbrev pub chain_hook : ℕ
chain_hook = 4

abbrev pub chain_policy : ℕ
chain_policy = 5

abbrev pub chain_type : ℕ
chain_type = 7

abbrev pub hook_hooknum : ℕ
hook_hooknum = 1

abbrev pub hook_priority : ℕ
hook_priority = 2

abbrev pub rule_table : ℕ
rule_table = 1

abbrev pub rule_chain : ℕ
rule_chain = 2

abbrev pub rule_expressions : ℕ
rule_expressions = 4

abbrev pub list_elem : ℕ
list_elem = 1

abbrev pub expr_name : ℕ
expr_name = 1

abbrev pub expr_data : ℕ
expr_data = 2

abbrev pub data_value : ℕ
data_value = 1

abbrev pub data_verdict : ℕ
data_verdict = 2

abbrev pub verdict_code : ℕ
verdict_code = 1

abbrev pub immediate_dreg : ℕ
immediate_dreg = 1

abbrev pub immediate_data : ℕ
immediate_data = 2

abbrev pub cmp_sreg : ℕ
cmp_sreg = 1

abbrev pub cmp_op : ℕ
cmp_op = 2

abbrev pub cmp_data : ℕ
cmp_data = 3

abbrev pub range_sreg : ℕ
range_sreg = 1

abbrev pub range_op : ℕ
range_op = 2

abbrev pub range_from_data : ℕ
range_from_data = 3

abbrev pub range_to_data : ℕ
range_to_data = 4

abbrev pub payload_dreg : ℕ
payload_dreg = 1

abbrev pub payload_base : ℕ
payload_base = 2

abbrev pub payload_offset : ℕ
payload_offset = 3

abbrev pub payload_len : ℕ
payload_len = 4

abbrev pub meta_dreg : ℕ
meta_dreg = 1

abbrev pub meta_key : ℕ
meta_key = 2

abbrev pub ct_dreg : ℕ
ct_dreg = 1

abbrev pub ct_key : ℕ
ct_key = 2

abbrev pub bitwise_sreg : ℕ
bitwise_sreg = 1

abbrev pub bitwise_dreg : ℕ
bitwise_dreg = 2

abbrev pub bitwise_len : ℕ
bitwise_len = 3

abbrev pub bitwise_mask : ℕ
bitwise_mask = 4

abbrev pub bitwise_xor : ℕ
bitwise_xor = 5
