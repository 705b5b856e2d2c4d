-- ===== src/Schema/Errors.antt =====
-- `ValidationError` (src/schema.rs): one constructor for each rejected combination.
use cargo_unikernel.Common.{ℕ}
use cargo_unikernel.Std.Text.{Text}

-- The config tables that an error names.
pub data Table : Type 0 where
  env_table sysctls_table read_paths_table read_write_paths_table nameservers_table : Table

pub data IdField : Type 0 where
  uid_field gid_field : IdField

pub data ValidationError : Type 0 where
  missing_app_source app_source_path_required : ValidationError
  missing_app_binary app_binary_path_required : ValidationError
  latest_apt_snapshot_not_allowed_for_sev_snp : ValidationError
  generic_toolchain_needs_build_command_and_output_binary : ValidationError
  rust_toolchain_cannot_set_generic_fields : ValidationError
  sev_snp_section_requires_sev_snp_profile missing_sev_snp_section : ValidationError
  ovmf_needs_exactly_one_source : ValidationError
  empty_output_formats empty_release_assets : ValidationError
  release_notes_and_notes_file_both_set : ValidationError
  tool_version_mismatch : Text → Text → ValidationError
  sev_snp_requires_pinned_cli_version : Text → ValidationError
  invalid_project_name : Text → ValidationError
  sev_snp_vcpus_must_be_positive : ℕ → ValidationError
  sev_snp_vcpu_type_must_not_be_empty : ValidationError
  measured_boot_uki_needs_uki_output_format : ValidationError
  kernel_sha256_required : Text → ValidationError
  firewall_proto_unknown firewall_ports_unusable : Text → ValidationError
  firewall_requires_network : ValidationError
  ipv6_static_requires_ipv6 : ValidationError
  ipv6_static_address_unparseable ipv6_static_address_not_routable : Text → ValidationError
  ipv6_static_prefix_len_out_of_range : ℕ → ValidationError
  ipv6_static_gateway_unparseable : Text → ValidationError
  storage_size_must_be_positive : ℕ → ValidationError
  unsafe_output_dir : Text → ValidationError
  unrepresentable_kv_pair : Table → Text → ValidationError
  app_runtime_id_must_not_be_root : IdField → ValidationError
  extra_sysctl_not_under_proc_sys : Text → ValidationError
  unrepresentable_list_entry : Table → Text → ValidationError
