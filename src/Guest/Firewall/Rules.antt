-- ===== src/Guest/Firewall/Rules.antt =====
-- `Rule`, `parse_rules` and `parse_rule` of guest/src/firewall.rs.
use cargo_unikernel.Common.{
  ℕ, ◌||◌, Option, none, some, retain, ltb, ◌==◌, if◌then◌else◌, Result, ok, err, ◌>>=◌, ok_or,
  traverse, List,
}
use cargo_unikernel.Std.Text.{Text, codes, text_eq, split, split_once}
use cargo_unikernel.Std.Decimal.{parse_uint}
use cargo_unikernel.Guest.Baked.{Fatal, malformed_inbound, non_empty}

pub record Rule : Type 0 where
  pub protocol : ℕ
  pub first_port : ℕ
  pub last_port : ℕ

-- `IPPROTO_TCP` and `IPPROTO_UDP`.
unfoldable pub protocol_number : Text → Option ℕ
protocol_number proto =
    if text_eq proto (codes "tcp")
    then some 6
    else if text_eq proto (codes "udp")
    then some 17
    else none

unfoldable pub range_ends : Text → Text × Text
range_ends ports = elim (split_once b'-' ports) [ some ends ↦ ends | none ↦ (ports, ports) ]

unfoldable pub rule_of_range : Text → ℕ → Option ℕ → Option ℕ → Result Fatal Rule
rule_of_range entry protocol (some first) (some last) =
    if first == 0 || ltb last first
    then err (malformed_inbound entry)
    else ok (record { protocol = protocol; first_port = first; last_port = last })
rule_of_range entry protocol _ _ = err (malformed_inbound entry)

unfoldable pub parse_rule : Text → Result Fatal Rule
parse_rule entry = do
  (proto, ports) ← ok_or (split_once b':' entry) (malformed_inbound entry)
  protocol ← ok_or (protocol_number proto) (malformed_inbound entry)
  let ends = range_ends ports
  rule_of_range entry protocol (parse_uint 65535 ends.0) (parse_uint 65535 ends.1)

unfoldable pub parse_rules : Text → Result Fatal (List Rule)
parse_rules raw = traverse parse_rule (retain non_empty (split b';' raw))
