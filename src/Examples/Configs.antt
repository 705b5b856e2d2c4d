-- ===== src/Examples/Configs.antt =====
-- Two configs as src/schema.rs reads them: a small casual one, and one for SEV-SNP.
use cargo_unikernel.Common.{◌≡◌, refl, true, false, [], ◌∷◌, none, some, ok, any, for_each}
use cargo_unikernel.Std.Text.{
  codes, text_eq, contains, starts_with, split, cons_head, split_once, cons_first, is_blank,
  is_whitespace,
}
use cargo_unikernel.Std.Decimal.{parse_uint, scan}
use cargo_unikernel.Schema.Types.{
  Config, AppRuntime, Network, Hardening, ProfileKind, AppMode, Toolchain, NetworkMode, StorageMode,
  HardeningLevel, OutputFormat, MeasuredBoot, has_any, has_ipv6,
}
use cargo_unikernel.Schema.Validate.{validate}
use cargo_unikernel.Schema.Validate.Entries.{
  is_parent_dir, check_inbound, check_kv_pair, check_sysctl_path, check_list_entry,
  check_port_range, port_ends, validate_firewall, validate_list_encoding, validate_kv_encoding,
  validate_extra_sysctl_paths,
}
use cargo_unikernel.Schema.Validate.Sections.{
  check_app_mode, check_gateway, check_ipv6_static, check_ovmf, check_pinned, check_profile,
  check_toolchain, cli_version, escapes_project, is_name_char, validate_app, validate_ipv6_static,
  validate_kernel, validate_output_and_release, validate_profile, validate_project,
  validate_storage,
}
use cargo_unikernel.Schema.Defaults.{
  default_kernel_sha256, default_kernel_version, sha256_for_build,
}

abbrev pub network : Network
network = record {
  mode = NetworkMode.dual;
  ipv6_static = none;
  nameservers = codes "9.9.9.9" ∷ codes "1.1.1.1" ∷ [];
  search_domain = none;
  firewall = record {
    enabled = true;
    inbound =
        record { proto = codes "tcp"; ports = codes "443" }
        ∷ record { proto = codes "udp"; ports = codes "8000-8100" }
        ∷ [];
  };
}

abbrev pub runtime : AppRuntime
runtime = record {
  env = (codes "MODE", codes "prod=eu") ∷ (codes "EMPTY", []) ∷ [];
  uid = 65534;
  gid = 65534;
  danger = record { allow_write_execute = false };
  limits = record {
    max_open_files = 65536;
    max_processes = 2048;
    max_memory_mb = 0;
    max_locked_memory_mb = 64;
  };
  landlock = record {
    enabled = true;
    extra_read_paths = codes "/data" ∷ [];
    extra_read_write_paths = [];
  };
  console = false;
}

abbrev pub hardening : Hardening
hardening = record {
  level = HardeningLevel.default;
  kernel = record {
    disable_legacy_subsystems = none;
    disable_debug_interfaces = none;
    kernel_self_protection = none;
    exploit_mitigations = none;
    seccomp = none;
    fips = false;
  };
  runtime = record {
    network_spoofing_protection = none;
    icmp_hardening = none;
    tcp_hardening = none;
    info_leak_restriction = none;
    ptrace_and_bpf_restriction = none;
    kexec_and_fs_protection = none;
    proc_subset_pid = false;
  };
  extra_sysctls = (codes "/proc/sys/vm/swappiness", codes "1") ∷ [];
  extra_kernel_config = [];
}

abbrev pub casual : Config
casual = record {
  project = record { name = codes "my-app"; cargo_unikernel_version = none };
  profile = record { kind = ProfileKind.casual };
  app = record {
    mode = AppMode.source;
    source = some (record {
      path = some (codes ".");
      toolchain = Toolchain.rust;
      package_path = codes ".";
      cargo_profile = codes "release";
      features = [];
      build_command = none;
      output_binary = none;
      extra_apt_packages = [];
    });
    binary = none;
    runtime = runtime;
  };
  network = network;
  storage = record {
    mode = StorageMode.ram;
    size_mib = 4096;
    tmpfs = record { tmp_mb = 64; run_mb = 16; shm_mb = 64; var_tmp_mb = 64 };
  };
  kernel = record { version = codes "6.18.51"; sha256 = none };
  toolchain = record {
    apt_snapshot = none;
    rust_version = none;
    e2fsprogs_version = none;
    e2fsprogs_sha256 = none;
  };
  hardening = hardening;
  sev_snp = none;
  output = record { formats = OutputFormat.cpio ∷ []; dir = codes "dist/" };
  release = record {
    assets = none;
    title = none;
    notes = none;
    notes_file = none;
    draft = false;
    prerelease = false;
  };
  logging = record { enabled = false };
}

abbrev pub measured : Config
measured = record casual {
  project = record { name = codes "my-app"; cargo_unikernel_version = some (codes "0.0.1") };
  profile = record { kind = ProfileKind.sev_snp };
  sev_snp = some (record {
    vcpus = 2;
    vcpu_type = codes "EPYC-v4";
    kernel_cmdline = codes "console=ttyS0";
    ovmf = record { preset = some (codes "default"); path = none };
    measured_boot = some MeasuredBoot.uki;
  });
  output = record { formats = OutputFormat.cpio ∷ OutputFormat.uki ∷ []; dir = codes "dist/" };
}

pub casual_valid : validate casual ≡ ok tt
unfolding validate is_parent_dir check_inbound check_kv_pair check_sysctl_path check_list_entry
    check_port_range port_ends validate_firewall validate_list_encoding validate_kv_encoding
    validate_extra_sysctl_paths check_app_mode check_gateway check_ipv6_static check_ovmf
    check_pinned check_profile check_toolchain cli_version escapes_project is_name_char validate_app
    validate_ipv6_static validate_kernel validate_output_and_release validate_profile
    validate_project validate_storage default_kernel_sha256 default_kernel_version sha256_for_build
    has_any has_ipv6 text_eq contains starts_with split cons_head split_once cons_first is_blank
    is_whitespace parse_uint scan any for_each
casual_valid = refl

pub measured_valid : validate measured ≡ ok tt
unfolding validate is_parent_dir check_inbound check_kv_pair check_sysctl_path check_list_entry
    check_port_range port_ends validate_firewall validate_list_encoding validate_kv_encoding
    validate_extra_sysctl_paths check_app_mode check_gateway check_ipv6_static check_ovmf
    check_pinned check_profile check_toolchain cli_version escapes_project is_name_char validate_app
    validate_ipv6_static validate_kernel validate_output_and_release validate_profile
    validate_project validate_storage default_kernel_sha256 default_kernel_version sha256_for_build
    has_any has_ipv6 text_eq contains starts_with split cons_head split_once cons_first is_blank
    is_whitespace parse_uint scan any for_each
measured_valid = refl
