-- ===== src/Schema/Validate/Checked.antt =====
-- A config that `Config::validate` (src/schema.rs) lets through has passed each of its checks.
use cargo_unikernel.Common.{◌≡◌, arith, ok}
use cargo_unikernel.Schema.Types.{Config}
use cargo_unikernel.Schema.Validate.{validate}
use cargo_unikernel.Schema.Validate.Entries.{
  validate_kv_encoding, validate_extra_sysctl_paths, validate_list_encoding, validate_firewall,
}
use cargo_unikernel.Schema.Validate.Sections.{
  validate_project, validate_storage, validate_kernel, validate_ipv6_static, validate_app,
  validate_profile, validate_output_and_release,
}

pub record Checked (c : Config) : Type 0 where
  pub project : validate_project c ≡ ok tt
  pub storage : validate_storage c ≡ ok tt
  pub kernel : validate_kernel c ≡ ok tt
  pub kv : validate_kv_encoding c ≡ ok tt
  pub sysctls : validate_extra_sysctl_paths c ≡ ok tt
  pub lists : validate_list_encoding c ≡ ok tt
  pub ipv6 : validate_ipv6_static c ≡ ok tt
  pub firewall : validate_firewall c ≡ ok tt
  pub app : validate_app c ≡ ok tt
  pub profile : validate_profile c ≡ ok tt
  pub output : validate_output_and_release c ≡ ok tt

pub validate-Checked : (c : Config) → validate c ≡ ok tt → Checked c
unfolding validate
validate-Checked c h = ground arith
