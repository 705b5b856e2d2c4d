-- ===== src/Agreement/Exports/Ipv6.antt =====
-- The three exports of `[network.ipv6_static]`.
use cargo_unikernel.Common.{◌≡◌, refl, ◌∙◌, some, arith}
use cargo_unikernel.Std.Text.{Text, codes, text_eq}
use cargo_unikernel.Schema.Types.{Config, Ipv6Static}
use cargo_unikernel.Pipeline.GuestInit.{
  when_some, id_and_env_exports, limit_exports, ipv6_exports, ipv6_text, sysctl_exports,
  tmpfs_exports, landlock_exports, network_exports, app_env_exports,
}
use cargo_unikernel.Guest.Baked.{env_var}
use cargo_unikernel.Agreement.Exports.Absent.{absent, env_var-Absent, in_ipv6}

abbrev pub static_name : Text
static_name = codes "CARGO_UNIKERNEL_IPV6_STATIC"

abbrev pub gateway_name : Text
gateway_name = codes "CARGO_UNIKERNEL_IPV6_GATEWAY"

abbrev pub interface_name : Text
interface_name = codes "CARGO_UNIKERNEL_IPV6_IFACE"

static_first :
    (v6 : Ipv6Static) → env_var static_name (ipv6_exports (some v6)) ≡ some (ipv6_text v6)
unfolding ipv6_exports text_eq
static_first v6 = env_var-Absent static_name (ipv6_text v6) _ refl (search absent)

gateway_next : (v6 : Ipv6Static) → env_var gateway_name (ipv6_exports (some v6)) ≡ v6.gateway
unfolding ipv6_exports env_var when_some text_eq
gateway_next v6 = ground arith

interface_last : (v6 : Ipv6Static) → env_var interface_name (ipv6_exports (some v6)) ≡ v6.interface
unfolding ipv6_exports env_var when_some text_eq
interface_last v6 = ground arith

module _ (c : Config) where
  pub env_var-static :
      (v6 : Ipv6Static)
      → c.network.ipv6_static ≡ some v6
      → env_var static_name (app_env_exports c) ≡ some (ipv6_text v6)
  unfolding id_and_env_exports limit_exports sysctl_exports tmpfs_exports landlock_exports
      network_exports text_eq
  env_var-static v6 h =
      in_ipv6 _ c (search absent) (search absent) (search absent) (search absent) (search absent)
        (search absent)
      ∙ rw h (static_first v6)

  pub env_var-gateway :
      (v6 : Ipv6Static)
      → c.network.ipv6_static ≡ some v6
      → env_var gateway_name (app_env_exports c) ≡ v6.gateway
  unfolding id_and_env_exports limit_exports sysctl_exports tmpfs_exports landlock_exports
      network_exports text_eq
  env_var-gateway v6 h =
      in_ipv6 _ c (search absent) (search absent) (search absent) (search absent) (search absent)
        (search absent)
      ∙ rw h (gateway_next v6)

  pub env_var-interface :
      (v6 : Ipv6Static)
      → c.network.ipv6_static ≡ some v6
      → env_var interface_name (app_env_exports c) ≡ v6.interface
  unfolding id_and_env_exports limit_exports sysctl_exports tmpfs_exports landlock_exports
      network_exports text_eq
  env_var-interface v6 h =
      in_ipv6 _ c (search absent) (search absent) (search absent) (search absent) (search absent)
        (search absent)
      ∙ rw h (interface_last v6)
