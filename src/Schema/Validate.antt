-- ===== src/Schema/Validate.antt =====
-- `Config::validate` and the checks that it makes in order (src/schema.rs).
pub mod Entries
pub mod Sections
pub mod Checked
use cargo_unikernel.Common.{Result, ◌>>◌}
use cargo_unikernel.Schema.Types.{Config}
use cargo_unikernel.Schema.Errors.{ValidationError}
use Entries.{
  validate_kv_encoding, validate_extra_sysctl_paths, validate_list_encoding, validate_firewall,
}
use Sections.{
  validate_project, validate_storage, validate_kernel, validate_ipv6_static, validate_app,
  validate_profile, validate_output_and_release,
}

unfoldable pub validate : Config → Result ValidationError (Unit {0})
validate c = do
  validate_project c
  validate_storage c
  validate_kernel c
  validate_kv_encoding c
  validate_extra_sysctl_paths c
  validate_list_encoding c
  validate_ipv6_static c
  validate_firewall c
  validate_app c
  validate_profile c
  validate_output_and_release c
