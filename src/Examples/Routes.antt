-- ===== src/Examples/Routes.antt =====
-- A routing table that /proc/net/route shows, and a static address.
use cargo_unikernel.Common.{◌≡◌, refl, true, [], ◌∷◌, none, some, ok, any, for_each, List, map, ℕ}
use cargo_unikernel.Std.Text.{
  codes, text_eq, contains, starts_with, split, cons_head, split_once, cons_first, is_blank,
  is_whitespace, Text,
}
use cargo_unikernel.Std.Decimal.{parse_uint, scan}
use cargo_unikernel.Schema.Types.{Config, has_any, has_ipv6, Ipv6Static}
use cargo_unikernel.Schema.Validate.{validate}
use cargo_unikernel.Schema.Validate.Entries.{
  is_parent_dir, check_inbound, check_kv_pair, check_sysctl_path, check_list_entry,
  check_port_range, port_ends, validate_firewall, validate_list_encoding, validate_kv_encoding,
  validate_extra_sysctl_paths,
}
use cargo_unikernel.Schema.Validate.Sections.{
  check_app_mode, check_gateway, check_ipv6_static, check_ovmf, check_pinned, check_profile,
  check_toolchain, cli_version, escapes_project, is_name_char, validate_app, validate_ipv6_static,
  validate_kernel, validate_output_and_release, validate_profile, validate_project,
  validate_storage,
}
use cargo_unikernel.Schema.Defaults.{
  default_kernel_sha256, default_kernel_version, sha256_for_build,
}
use cargo_unikernel.Std.Ipv6.{parse_ipv6, is_loopback, is_multicast, is_unspecified, is_link_local}
use cargo_unikernel.Guest.Network.{configure_static_ipv6, interface_for}
use cargo_unikernel.Guest.Baked.{rustc_env}
use cargo_unikernel.Agreement.Baked.{baked_value}
use cargo_unikernel.Agreement.Exports.Ipv6.{static_name, gateway_name, interface_name}
use cargo_unikernel.Agreement.Ipv6.{Addressed, or_empty, static_ipv6_agreement}
use cargo_unikernel.Examples.Configs.{network, casual}
use cargo_unikernel.Guest.Network.Routes.{route_v4_has_default, hex_digit, hex_value, from_hex}
use cargo_unikernel.Guest.Network.Routes.Columns.{
  Route, lines_text, route_line, is_default_route, route_v4_columns,
}

abbrev on_link : Route
on_link = record {
  iface = codes "eth0";
  destination = codes "000010AC";
  gateway = codes "00000000";
  flags = codes "0001";
  ref_cnt = codes "0";
  use_count = codes "0";
  metric = codes "0";
  mask = codes "00FFFFFF";
  more = [];
}

abbrev gateway_route : Route
gateway_route = record {
  iface = codes "eth0";
  destination = codes "00000000";
  gateway = codes "0102030A";
  flags = codes "0003";
  ref_cnt = codes "0";
  use_count = codes "0";
  metric = codes "0";
  mask = codes "00000000";
  more = codes "0";
}

abbrev header : Text
header = codes "Iface Destination Gateway Flags RefCnt Use Metric Mask"

gateway_found : any is_default_route (on_link ∷ gateway_route ∷ []) ≡ true
unfolding any text_eq hex_digit hex_value from_hex
gateway_found = refl

route_v4_columns_example :
    route_v4_has_default (lines_text (header ∷ map route_line (on_link ∷ gateway_route ∷ [])))
    ≡ any is_default_route (on_link ∷ gateway_route ∷ [])
unfolding any is_whitespace contains
route_v4_columns_example = route_v4_columns header (on_link ∷ gateway_route ∷ []) refl refl (
  (
    (refl, refl),
    (refl, refl),
    (refl, refl),
    (refl, refl),
    (refl, refl),
    (refl, refl),
    (refl, refl),
    (refl, refl),
    refl,
    refl,
  ),
  (
    (
      (refl, refl),
      (refl, refl),
      (refl, refl),
      (refl, refl),
      (refl, refl),
      (refl, refl),
      (refl, refl),
      (refl, refl),
      refl,
      refl,
    ),
    tt,
  ),
)

abbrev static_v6 : Ipv6Static
static_v6 = record {
  address = codes "2001:db8:1:2::1";
  prefix_len = 64;
  gateway = some (codes "2001:db8::fe");
  interface = none;
}

abbrev addressed : Config
addressed = record casual { network = record network { ipv6_static = some static_v6 } }

addressed_valid : validate addressed ≡ ok tt
unfolding validate is_parent_dir check_inbound check_kv_pair check_sysctl_path check_list_entry
    check_port_range port_ends validate_firewall validate_list_encoding validate_kv_encoding
    validate_extra_sysctl_paths check_app_mode check_gateway check_ipv6_static check_ovmf
    check_pinned check_profile check_toolchain cli_version escapes_project is_name_char validate_app
    validate_ipv6_static validate_kernel validate_output_and_release validate_profile
    validate_project validate_storage default_kernel_sha256 default_kernel_version sha256_for_build
    has_any has_ipv6 text_eq contains starts_with split cons_head split_once cons_first is_blank
    is_whitespace parse_uint scan any for_each parse_ipv6 is_loopback is_multicast is_unspecified
    is_link_local
addressed_valid = refl

static_ipv6_agreement_example :
    (groups : List ℕ) × (parse_ipv6 static_v6.address ≡ some groups)
    × Addressed static_v6 groups
        (interface_for
          (rustc_env (or_empty static_v6.interface))
          (codes "lo" ∷ codes "eth1" ∷ codes "eth0" ∷ []))
        (configure_static_ipv6
          (codes "lo" ∷ codes "eth1" ∷ codes "eth0" ∷ [])
          (baked_value addressed static_name [])
          (baked_value addressed gateway_name [])
          (baked_value addressed interface_name []))
static_ipv6_agreement_example =
    static_ipv6_agreement addressed static_v6 (codes "lo" ∷ codes "eth1" ∷ codes "eth0" ∷ [])
      addressed_valid refl
