-- ===== src/Schema/Validate/Entries.antt =====
-- The checks of src/schema.rs that go through the entries of a table: the encodings that reach
-- the guest, the sysctl paths and the firewall's ports.
use cargo_unikernel.Common.{
  ℕ, Bool, ◌&&◌, ◌||◌, not, Option, none, some, ltb, ◌==◌, any, if◌then◌else◌, Result, ok, err,
  ◌>>◌, reject_if, for_each,
}
use cargo_unikernel.Std.Text.{Text, codes, text_eq, contains, starts_with, split, split_once}
use cargo_unikernel.Std.Decimal.{parse_uint}
use cargo_unikernel.Schema.Types.{Config, InboundPorts, has_any}
use cargo_unikernel.Schema.Errors.{
  Table, env_table, sysctls_table, read_paths_table, read_write_paths_table, nameservers_table,
  ValidationError, unrepresentable_kv_pair, unrepresentable_list_entry,
  extra_sysctl_not_under_proc_sys, firewall_proto_unknown, firewall_ports_unusable,
  firewall_requires_network,
}

abbrev Check : Type 0
Check = Result ValidationError (Unit {0})

unfoldable pub check_kv_pair : Table → Text × Text → Check
check_kv_pair table (key, value) =
    reject_if (contains b';' key || contains b'=' key || contains b';' value)
      (unrepresentable_kv_pair table key)

unfoldable pub validate_kv_encoding : Config → Check
validate_kv_encoding c = do
  for_each (check_kv_pair env_table) c.app.runtime.env
  for_each (check_kv_pair sysctls_table) c.hardening.extra_sysctls

unfoldable pub check_list_entry : Table → Text → Check
check_list_entry table entry =
    reject_if (contains b';' entry) (unrepresentable_list_entry table entry)

unfoldable pub validate_list_encoding : Config → Check
validate_list_encoding c = do
  for_each (check_list_entry read_paths_table) c.app.runtime.landlock.extra_read_paths
  for_each (check_list_entry read_write_paths_table) c.app.runtime.landlock.extra_read_write_paths
  for_each (check_list_entry nameservers_table) c.network.nameservers

unfoldable pub is_parent_dir : Text → Bool
is_parent_dir part = text_eq part (codes "..")

unfoldable pub check_sysctl_path : Text × Text → Check
check_sysctl_path (key, value) =
    reject_if (not (starts_with (codes "/proc/sys/") key) || any is_parent_dir (split b'/' key))
      (extra_sysctl_not_under_proc_sys key)

unfoldable pub validate_extra_sysctl_paths : Config → Check
validate_extra_sysctl_paths c = for_each check_sysctl_path c.hardening.extra_sysctls

abbrev pub u16_max : ℕ
u16_max = 65535

-- The two ends of `"443"` and of `"8000-8100"`.
unfoldable pub port_ends : Text → Text × Text
port_ends ports = elim (split_once b'-' ports) [ some ends ↦ ends | none ↦ (ports, ports) ]

unfoldable pub check_port_range : Text → Option ℕ → Option ℕ → Check
check_port_range ports (some first) (some last) =
    reject_if (first == 0 || ltb last first) (firewall_ports_unusable ports)
check_port_range ports _ _ = err (firewall_ports_unusable ports)

unfoldable pub check_inbound : InboundPorts → Check
check_inbound entry = do
  reject_if (not (text_eq entry.proto (codes "tcp")) && not (text_eq entry.proto (codes "udp")))
      (firewall_proto_unknown entry.proto)
  let ends = port_ends entry.ports
  check_port_range entry.ports (parse_uint u16_max ends.0) (parse_uint u16_max ends.1)

unfoldable pub validate_firewall : Config → Check
validate_firewall c = if not c.network.firewall.enabled then ok tt else do
  reject_if (not (has_any c.network.mode)) firewall_requires_network
  for_each check_inbound c.network.firewall.inbound
