-- ===== src/Schema/Defaults.antt =====
-- The `Default` implementations and `default_*` functions of src/schema.rs.
use cargo_unikernel.Common.{true, false, List, [], ◌∷◌, Option, none, some, if◌then◌else◌}
use cargo_unikernel.Std.Text.{Text, codes, text_eq}
use cargo_unikernel.Schema.Types.{
  AppRuntime, AppLimits, LandlockConfig, Firewall, InboundPorts, Network, NetworkMode, Storage,
  StorageMode, TmpfsSizes, Kernel, ToolchainPins, Hardening, HardeningLevel, Release, Logging,
}

unfoldable pub default_limits : AppLimits
default_limits = record {
  max_open_files = 65536;
  max_processes = 2048;
  max_memory_mb = 0;
  max_locked_memory_mb = 64;
}

unfoldable pub default_landlock : LandlockConfig
default_landlock = record { enabled = true; extra_read_paths = []; extra_read_write_paths = [] }

unfoldable pub default_runtime : AppRuntime
unfolding default_limits default_landlock
default_runtime = record {
  env = [];
  uid = 65534;
  gid = 65534;
  danger = record { allow_write_execute = false };
  limits = default_limits;
  landlock = default_landlock;
  console = false;
}

inbound : Text → Text → InboundPorts
inbound proto ports = record { proto = proto; ports = ports }

unfoldable pub default_firewall_inbound : List InboundPorts
unfolding inbound
default_firewall_inbound =
    inbound (codes "tcp") (codes "80")
    ∷ inbound (codes "tcp") (codes "443")
    ∷ inbound (codes "udp") (codes "443")
    ∷ []

unfoldable pub default_firewall : Firewall
unfolding default_firewall_inbound
default_firewall = record { enabled = true; inbound = default_firewall_inbound }

unfoldable pub default_network : Network
unfolding default_firewall
default_network = record {
  mode = NetworkMode.ipv4;
  ipv6_static = none;
  nameservers = [];
  search_domain = none;
  firewall = default_firewall;
}

unfoldable pub default_tmpfs : TmpfsSizes
default_tmpfs = record { tmp_mb = 64; run_mb = 16; shm_mb = 64; var_tmp_mb = 64 }

unfoldable pub default_storage : Storage
unfolding default_tmpfs
default_storage = record { mode = StorageMode.ram; size_mib = 4096; tmpfs = default_tmpfs }

unfoldable pub default_kernel_version : Text
default_kernel_version = codes "6.18.51"

unfoldable pub default_kernel_sha256 : Text
default_kernel_sha256 = codes "ba2f60f858bf4d1f929101faa356c93dc8b925b17aaa9f95eabd4627758df613"

unfoldable pub default_kernel : Kernel
unfolding default_kernel_version default_kernel_sha256
default_kernel = record { version = default_kernel_version; sha256 = some default_kernel_sha256 }

or_else : Option Text → Option Text → Option Text
or_else (some a) o = some a
or_else none o = o

-- `Kernel::sha256_for_build`.
unfoldable pub sha256_for_build : Kernel → Option Text
unfolding or_else default_kernel_version default_kernel_sha256
sha256_for_build k =
    or_else k.sha256
      (if text_eq k.version default_kernel_version then some default_kernel_sha256 else none)

unfoldable pub default_toolchain : ToolchainPins
default_toolchain = record {
  apt_snapshot = none;
  rust_version = none;
  e2fsprogs_version = none;
  e2fsprogs_sha256 = none;
}

unfoldable pub default_hardening : Hardening
default_hardening = record {
  level = HardeningLevel.default;
  kernel = record {
    disable_legacy_subsystems = none;
    disable_debug_interfaces = none;
    kernel_self_protection = none;
    exploit_mitigations = none;
    seccomp = none;
    fips = false;
  };
  runtime = record {
    network_spoofing_protection = none;
    icmp_hardening = none;
    tcp_hardening = none;
    info_leak_restriction = none;
    ptrace_and_bpf_restriction = none;
    kexec_and_fs_protection = none;
    proc_subset_pid = false;
  };
  extra_sysctls = [];
  extra_kernel_config = [];
}

unfoldable pub default_release : Release
default_release = record {
  assets = none;
  title = none;
  notes = none;
  notes_file = none;
  draft = false;
  prerelease = false;
}

unfoldable pub default_logging : Logging
default_logging = record { enabled = false }
