-- ===== src/Loading/AutoDetect.antt =====
-- src/config/auto_detect.rs: the config of a project that has no Cargo-Unikernel.toml. Paths and
-- the name that TOML gives are text already.
use cargo_unikernel.Common.{
  ◌≡◌, refl, [], ◌∷◌, Option, none, some, Result, ok, err, ◌>>◌, for_each, any, subst,
}
use cargo_unikernel.Std.Text.{
  Text, codes, text_eq, contains, starts_with, split, cons_head, split_once, cons_first, is_blank,
  is_whitespace,
}
use cargo_unikernel.Std.Decimal.{parse_uint, scan}
use cargo_unikernel.Schema.Types.{
  Config, App, AppSource, AppBinary, AppMode, ProfileKind, Toolchain, OutputFormat, has_any,
}
use cargo_unikernel.Schema.Errors.{ValidationError}
use cargo_unikernel.Schema.Defaults.{
  default_runtime, default_network, default_firewall, default_firewall_inbound, default_storage,
  default_kernel, default_toolchain, default_hardening, default_release, default_logging,
  default_landlock, default_limits, default_tmpfs, default_kernel_version, default_kernel_sha256,
  sha256_for_build,
}
use cargo_unikernel.Schema.Validate.{validate}
use cargo_unikernel.Schema.Validate.Entries.{
  is_parent_dir, check_inbound, check_kv_pair, check_sysctl_path, check_list_entry,
  check_port_range, port_ends, validate_firewall, validate_list_encoding, validate_kv_encoding,
  validate_extra_sysctl_paths,
}
use cargo_unikernel.Schema.Validate.Sections.{
  check_app_mode, check_profile, check_toolchain, escapes_project, validate_app,
  validate_ipv6_static, validate_kernel, validate_output_and_release, validate_profile,
  validate_project, validate_storage,
}

unfoldable pub build_config : Text → App → Config
build_config name app = record {
  project = record { name = name; cargo_unikernel_version = none };
  profile = record { kind = ProfileKind.casual };
  app = app;
  network = default_network;
  storage = default_storage;
  kernel = default_kernel;
  toolchain = default_toolchain;
  hardening = default_hardening;
  sev_snp = none;
  output = record { formats = OutputFormat.cpio ∷ []; dir = codes "dist/" };
  release = default_release;
  logging = default_logging;
}

-- What is left of a path: `file_stem` and the whole.
pub record BinaryPath : Type 0 where
  pub file_stem : Option Text
  pub path : Text

abbrev pub or_app : Option Text → Text
or_app (some name) = name
or_app none = codes "app"

-- `map_or_else`, on the name of the package if Cargo.toml parses.
abbrev pub package_name : Option Text → Option Text → Text
package_name (some name) dir_name = name
package_name none dir_name = or_app dir_name

unfoldable pub binary_app : Text → App
binary_app path = record {
  mode = AppMode.binary;
  source = none;
  binary = some (record { path = some path });
  runtime = default_runtime;
}

unfoldable pub cargo_app : App
cargo_app = record {
  mode = AppMode.source;
  source = some (record {
    path = some (codes ".");
    toolchain = Toolchain.rust;
    package_path = codes ".";
    cargo_profile = codes "release";
    features = [];
    build_command = none;
    output_binary = none;
    extra_apt_packages = [];
  });
  binary = none;
  runtime = default_runtime;
}

-- `cargo_toml` is none if the file cannot be read, and has none if it does not parse. The result
-- is none where the code returns an error.
unfoldable pub detect : Option BinaryPath → Option (Option Text) → Option Text → Option Config
unfolding build_config binary_app cargo_app
detect (some binary) cargo_toml dir_name =
    some (build_config (or_app binary.file_stem) (binary_app binary.path))
detect none (some parsed) dir_name = some (build_config (package_name parsed dir_name) cargo_app)
detect none none dir_name = none

-- A check with nothing after it.
check_ok : (m : Result ValidationError (Unit {0})) → (m >> ok tt) ≡ m
check_ok (ok tt) = refl
check_ok (err e) = refl

-- All checks but the one on the project see only defaults.
defaults-validate :
    (name : Text) (mode : AppMode) (source : Option AppSource) (binary : Option AppBinary)
    → check_app_mode mode source binary ≡ ok tt
    → let config =
        build_config name
          (record { mode = mode; source = source; binary = binary; runtime = default_runtime }) in
      validate config ≡ validate_project config
unfolding validate build_config default_runtime default_network default_firewall
    default_firewall_inbound default_storage default_kernel default_toolchain default_hardening
    default_release default_logging default_landlock default_limits default_tmpfs
    default_kernel_version default_kernel_sha256 sha256_for_build has_any parse_uint scan text_eq
    contains starts_with split cons_head split_once cons_first is_blank is_whitespace is_parent_dir
    check_inbound check_kv_pair check_sysctl_path check_list_entry check_port_range port_ends
    validate_firewall validate_list_encoding validate_kv_encoding validate_extra_sysctl_paths
    check_profile escapes_project validate_app validate_ipv6_static validate_kernel
    validate_output_and_release validate_profile validate_storage for_each any
defaults-validate name mode source binary h =
    let config =
      build_config name
        (record { mode = mode; source = source; binary = binary; runtime = default_runtime }) in
    rw h (check_ok (validate_project config))

binary_app-validate :
    (name path : Text)
    → validate (build_config name (binary_app path))
      ≡ validate_project (build_config name (binary_app path))
unfolding binary_app check_app_mode
binary_app-validate name path =
    defaults-validate name AppMode.binary none (some (record { path = some path })) refl

cargo_app-validate :
    (name : Text)
    → validate (build_config name cargo_app) ≡ validate_project (build_config name cargo_app)
unfolding cargo_app check_app_mode check_toolchain
cargo_app-validate name = defaults-validate name AppMode.source cargo_app.source none refl

abbrev IfDetected : (Config → Type 0) → Option Config → Type 0
IfDetected P (some config) = P config
IfDetected P none = Unit

detected-validate :
    (binary : Option BinaryPath) (cargo_toml : Option (Option Text)) (dir_name : Option Text)
    → IfDetected
        (λ config. validate config ≡ validate_project config)
        (detect binary cargo_toml dir_name)
unfolding detect
detected-validate (some binary) cargo_toml dir_name =
    binary_app-validate (or_app binary.file_stem) binary.path
detected-validate none (some parsed) dir_name = cargo_app-validate (package_name parsed dir_name)
detected-validate none none dir_name = tt

-- Whatever is detected, `Config::validate` comes to what its check of the project's name comes to:
-- the defaults pass every other check.
pub detect-validate :
    (binary : Option BinaryPath) (cargo_toml : Option (Option Text)) (dir_name : Option Text)
    (config : Config)
    → detect binary cargo_toml dir_name ≡ some config
    → validate config ≡ validate_project config
detect-validate binary cargo_toml dir_name config h =
    subst (IfDetected (λ detected. validate detected ≡ validate_project detected)) h
      (detected-validate binary cargo_toml dir_name)
