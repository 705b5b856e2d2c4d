-- ===== src/Guest/Firewall/Uapi.antt =====
-- The netlink and nf_tables constants of guest/src/firewall.rs. Each module of the kernel's
-- attribute names is a module here.
pub mod Nfta
use cargo_unikernel.Common.{ℕ, Bool, true, false, List, [], ◌∷◌}
use cargo_unikernel.Std.Text.{Text, codes}

abbrev pub nlm_f_request : ℕ
nlm_f_request = 0x0001

abbrev pub nlm_f_ack : ℕ
nlm_f_ack = 0x0004

abbrev pub nlm_f_excl : ℕ
nlm_f_excl = 0x0200

abbrev pub nlm_f_create : ℕ
nlm_f_create = 0x0400

abbrev pub nlm_f_append : ℕ
nlm_f_append = 0x0800

abbrev pub nlmsg_error : ℕ
nlmsg_error = 0x0002

abbrev pub nlmsg_hdr_len : ℕ
nlmsg_hdr_len = 16

abbrev pub nlmsg_alignto : ℕ
nlmsg_alignto = 4

abbrev pub nfnl_subsys_nftables : ℕ
nfnl_subsys_nftables = 10

abbrev pub nfnl_msg_batch_begin : ℕ
nfnl_msg_batch_begin = 16

abbrev pub nfnl_msg_batch_end : ℕ
nfnl_msg_batch_end = 17

-- `(NFNL_SUBSYS_NFTABLES << 8) | NFT_MSG_…`.
abbrev pub newtable : ℕ
newtable = 0x0a00

abbrev pub newchain : ℕ
newchain = 0x0a03

abbrev pub newrule : ℕ
newrule = 0x0a06

abbrev pub reg_verdict : ℕ
reg_verdict = 0

abbrev pub reg_1 : ℕ
reg_1 = 1

abbrev pub cmp_eq : ℕ
cmp_eq = 0

abbrev pub cmp_neq : ℕ
cmp_neq = 1

abbrev pub range_eq : ℕ
range_eq = 0

abbrev pub transport_header : ℕ
transport_header = 2

abbrev pub meta_iifname : ℕ
meta_iifname = 6

abbrev pub meta_nfproto : ℕ
meta_nfproto = 15

abbrev pub meta_l4proto : ℕ
meta_l4proto = 16

abbrev pub ct_state : ℕ
ct_state = 0

abbrev pub nf_drop : ℕ
nf_drop = 0

abbrev pub nf_accept : ℕ
nf_accept = 1

-- The inet family in a build with IPv6, else the IPv4 family.
unfoldable pub table_family : Bool → ℕ
table_family true = 1
table_family false = 2

abbrev pub nfproto_ipv4 : ℕ
nfproto_ipv4 = 2

abbrev pub nfproto_ipv6 : ℕ
nfproto_ipv6 = 10

abbrev pub nf_inet_local_in : ℕ
nf_inet_local_in = 1

abbrev pub filter_priority : ℕ
filter_priority = 0

abbrev pub ct_state_invalid : ℕ
ct_state_invalid = 1

abbrev pub ct_state_established : ℕ
ct_state_established = 2

abbrev pub ct_state_related : ℕ
ct_state_related = 4

abbrev pub ipproto_icmp : ℕ
ipproto_icmp = 1

abbrev pub ipproto_icmpv6 : ℕ
ipproto_icmpv6 = 58

abbrev pub ifnamsiz : ℕ
ifnamsiz = 16

abbrev pub table : Text
table = codes "cargo-unikernel"

abbrev pub chain : Text
chain = codes "input"

abbrev pub icmpv6_allowed_types : List ℕ
icmpv6_allowed_types = 2 ∷ 130 ∷ 133 ∷ 134 ∷ 135 ∷ 136 ∷ []

abbrev pub icmpv4_dest_unreach : ℕ
icmpv4_dest_unreach = 3
