-- ===== src/Schema/Validate/Sections.antt =====
-- The checks of src/schema.rs on one section each.
use cargo_unikernel.Common.{
  ℕ, Bool, true, false, ◌&&◌, ◌||◌, not, List, Option, none, some, ltb, leb, ◌==◌, any, is_empty,
  Result, ok, err, ◌>>◌, ◌>>=◌, reject_if, ok_or,
}
use cargo_unikernel.Std.Text.{Text, codes, text_eq, split, is_blank, starts_with}
use cargo_unikernel.Std.Ipv6.{parse_ipv6, is_loopback, is_multicast, is_unspecified, is_link_local}
use cargo_unikernel.Schema.Types.{
  Config, ProfileKind, AppMode, AppSource, AppBinary, Toolchain, Ipv6Static, NetworkMode, has_ipv6,
  OutputFormat, MeasuredBoot, ReleaseAsset,
}
use cargo_unikernel.Schema.Errors.{ValidationError, IdField}
use cargo_unikernel.Schema.Defaults.{sha256_for_build}
use cargo_unikernel.Schema.Validate.Entries.{is_parent_dir}

abbrev Check : Type 0
Check = Result ValidationError (Unit {0})

-- `CARGO_PKG_VERSION`.
unfoldable pub cli_version : Text
cli_version = codes "0.0.1"

abbrev pub is_some {ℓ} : {A : Type ℓ} → Option A → Bool
is_some (some a) = true
is_some none = false

unfoldable pub is_name_char : ℕ → Bool
is_name_char c =
    (leb b'a' c && leb c b'z')
    || (leb b'A' c && leb c b'Z')
    || (leb b'0' c && leb c b'9')
    || c == b'-'
    || c == b'_'

unfoldable pub check_pinned : Option Text → Check
check_pinned none = ok tt
check_pinned (some pinned) =
    reject_if (not (text_eq pinned cli_version))
      (ValidationError.tool_version_mismatch pinned cli_version)

unfoldable pub validate_project : Config → Check
validate_project c = do
  let name = c.project.name
  reject_if (is_empty name || any (λ ch. not (is_name_char ch)) name)
      (ValidationError.invalid_project_name name)
  check_pinned c.project.cargo_unikernel_version

unfoldable pub validate_storage : Config → Check
validate_storage c =
    reject_if (c.storage.size_mib == 0)
      (ValidationError.storage_size_must_be_positive c.storage.size_mib)

unfoldable pub validate_kernel : Config → Check
validate_kernel c =
    reject_if (not (is_some (sha256_for_build c.kernel)))
      (ValidationError.kernel_sha256_required c.kernel.version)

unfoldable pub check_gateway : Option Text → Check
check_gateway none = ok tt
check_gateway (some gateway) =
    reject_if (not (is_some (parse_ipv6 gateway)))
      (ValidationError.ipv6_static_gateway_unparseable gateway)

unfoldable pub check_ipv6_static : NetworkMode → Ipv6Static → Check
check_ipv6_static mode v6 = do
  reject_if (not (has_ipv6 mode)) ValidationError.ipv6_static_requires_ipv6
  address ←
      ok_or (parse_ipv6 v6.address) (ValidationError.ipv6_static_address_unparseable v6.address)
  reject_if
      (is_loopback address
        || is_multicast address
        || is_unspecified address
        || is_link_local address)
      (ValidationError.ipv6_static_address_not_routable v6.address)
  reject_if (v6.prefix_len == 0 || ltb 128 v6.prefix_len)
      (ValidationError.ipv6_static_prefix_len_out_of_range v6.prefix_len)
  check_gateway v6.gateway

unfoldable pub validate_ipv6_static : Config → Check
validate_ipv6_static c = elim c.network.ipv6_static [
  | none ↦ ok tt
  | some v6 ↦ check_ipv6_static c.network.mode v6
]

unfoldable pub check_toolchain : Toolchain → AppSource → Check
check_toolchain Toolchain.generic src =
    reject_if (not (is_some src.build_command) || not (is_some src.output_binary))
      ValidationError.generic_toolchain_needs_build_command_and_output_binary
check_toolchain Toolchain.rust src =
    reject_if
      (is_some src.build_command
        || is_some src.output_binary
        || not (is_empty src.extra_apt_packages))
      ValidationError.rust_toolchain_cannot_set_generic_fields

unfoldable pub check_app_mode : AppMode → Option AppSource → Option AppBinary → Check
check_app_mode AppMode.source src bin = do
  s ← ok_or src ValidationError.missing_app_source
  reject_if (not (is_some s.path)) ValidationError.app_source_path_required
  check_toolchain s.toolchain s
check_app_mode AppMode.binary src bin = do
  b ← ok_or bin ValidationError.missing_app_binary
  reject_if (not (is_some b.path)) ValidationError.app_binary_path_required

unfoldable pub validate_app : Config → Check
validate_app c = do
  reject_if (c.app.runtime.uid == 0)
      (ValidationError.app_runtime_id_must_not_be_root IdField.uid_field)
  reject_if (c.app.runtime.gid == 0)
      (ValidationError.app_runtime_id_must_not_be_root IdField.gid_field)
  check_app_mode c.app.mode c.app.source c.app.binary

unfoldable pub check_ovmf : Option Text → Option Text → Check
check_ovmf (some preset) none = ok tt
check_ovmf none (some path) = ok tt
check_ovmf _ _ = err ValidationError.ovmf_needs_exactly_one_source

abbrev pub is_uki : OutputFormat → Bool
is_uki OutputFormat.uki = true
is_uki _ = false

abbrev pub is_measured_uki : Option MeasuredBoot → Bool
is_measured_uki (some MeasuredBoot.uki) = true
is_measured_uki _ = false

abbrev pub is_latest : Option Text → Bool
is_latest (some snapshot) = text_eq snapshot (codes "latest")
is_latest none = false

unfoldable pub check_profile : ProfileKind → Config → Check
check_profile ProfileKind.casual c =
    reject_if (is_some c.sev_snp) ValidationError.sev_snp_section_requires_sev_snp_profile
check_profile ProfileKind.sev_snp c = do
  reject_if (not (is_some c.project.cargo_unikernel_version))
      (ValidationError.sev_snp_requires_pinned_cli_version cli_version)
  reject_if (is_latest c.toolchain.apt_snapshot)
      ValidationError.latest_apt_snapshot_not_allowed_for_sev_snp
  snp ← ok_or c.sev_snp ValidationError.missing_sev_snp_section
  reject_if (snp.vcpus == 0) (ValidationError.sev_snp_vcpus_must_be_positive snp.vcpus)
  reject_if (is_blank snp.vcpu_type) ValidationError.sev_snp_vcpu_type_must_not_be_empty
  check_ovmf snp.ovmf.preset snp.ovmf.path
  reject_if (is_measured_uki snp.measured_boot && not (any is_uki c.output.formats))
      ValidationError.measured_boot_uki_needs_uki_output_format

unfoldable pub validate_profile : Config → Check
validate_profile c = check_profile c.profile.kind c

-- `Path::components` on Unix has a root if the path begins with `/`; its `..` are kept.
unfoldable pub escapes_project : Text → Bool
escapes_project dir = starts_with (codes "/") dir || any is_parent_dir (split b'/' dir)

abbrev is_empty_list : Option (List ReleaseAsset) → Bool
is_empty_list (some assets) = is_empty assets
is_empty_list none = false

unfoldable pub validate_output_and_release : Config → Check
validate_output_and_release c = do
  reject_if (is_empty c.output.formats) ValidationError.empty_output_formats
  reject_if (is_blank c.output.dir || escapes_project c.output.dir)
      (ValidationError.unsafe_output_dir c.output.dir)
  reject_if (is_empty_list c.release.assets) ValidationError.empty_release_assets
  reject_if (is_some c.release.notes && is_some c.release.notes_file)
      ValidationError.release_notes_and_notes_file_both_set
