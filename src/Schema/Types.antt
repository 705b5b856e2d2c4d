-- ===== src/Schema/Types.antt =====
-- The sections of a `Cargo-Unikernel.toml` (src/schema.rs). A `BTreeMap` is the list of its
-- entries in key order; an integer field is a number, whose range the theorems state.
use cargo_unikernel.Common.{ℕ, Bool, true, false, List, Option}
use cargo_unikernel.Std.Text.{Text}

pub record Logging : Type 0 where
  pub enabled : Bool

pub record Project : Type 0 where
  pub name : Text
  pub cargo_unikernel_version : Option Text

pub data ProfileKind : Type 0 where
  casual sev_snp : ProfileKind

pub record Profile : Type 0 where
  pub kind : ProfileKind

pub data AppMode : Type 0 where
  source binary : AppMode

pub data Toolchain : Type 0 where
  rust generic : Toolchain

pub record AppSource : Type 0 where
  pub path : Option Text
  pub toolchain : Toolchain
  pub package_path : Text
  pub cargo_profile : Text
  pub features : List Text
  pub build_command : Option Text
  pub output_binary : Option Text
  pub extra_apt_packages : List Text

pub record AppBinary : Type 0 where
  pub path : Option Text

pub record DangerRuntime : Type 0 where
  pub allow_write_execute : Bool

pub record AppLimits : Type 0 where
  pub max_open_files : ℕ
  pub max_processes : ℕ
  pub max_memory_mb : ℕ
  pub max_locked_memory_mb : ℕ

pub record LandlockConfig : Type 0 where
  pub enabled : Bool
  pub extra_read_paths : List Text
  pub extra_read_write_paths : List Text

pub record AppRuntime : Type 0 where
  pub env : List (Text × Text)
  pub uid : ℕ
  pub gid : ℕ
  pub danger : DangerRuntime
  pub limits : AppLimits
  pub landlock : LandlockConfig
  pub console : Bool

pub record App : Type 0 where
  pub mode : AppMode
  pub source : Option AppSource
  pub binary : Option AppBinary
  pub runtime : AppRuntime

-- `ipv4`, `ipv6`, `dual` and `none`.
pub data NetworkMode : Type 0 where
  ipv4 ipv6 dual no_network : NetworkMode

unfoldable pub has_ipv4 : NetworkMode → Bool
has_ipv4 ipv4 = true
has_ipv4 dual = true
has_ipv4 _ = false

unfoldable pub has_ipv6 : NetworkMode → Bool
has_ipv6 ipv6 = true
has_ipv6 dual = true
has_ipv6 _ = false

unfoldable pub has_any : NetworkMode → Bool
has_any no_network = false
has_any _ = true

pub record InboundPorts : Type 0 where
  pub proto : Text
  pub ports : Text

pub record Firewall : Type 0 where
  pub enabled : Bool
  pub inbound : List InboundPorts

pub record Ipv6Static : Type 0 where
  pub address : Text
  pub prefix_len : ℕ
  pub gateway : Option Text
  pub interface : Option Text

pub record Network : Type 0 where
  pub mode : NetworkMode
  pub ipv6_static : Option Ipv6Static
  pub nameservers : List Text
  pub search_domain : Option Text
  pub firewall : Firewall

pub data StorageMode : Type 0 where
  ram persistent : StorageMode

pub record TmpfsSizes : Type 0 where
  pub tmp_mb : ℕ
  pub run_mb : ℕ
  pub shm_mb : ℕ
  pub var_tmp_mb : ℕ

pub record Storage : Type 0 where
  pub mode : StorageMode
  pub size_mib : ℕ
  pub tmpfs : TmpfsSizes

pub record Kernel : Type 0 where
  pub version : Text
  pub sha256 : Option Text

pub record ToolchainPins : Type 0 where
  pub apt_snapshot : Option Text
  pub rust_version : Option Text
  pub e2fsprogs_version : Option Text
  pub e2fsprogs_sha256 : Option Text

pub data HardeningLevel : Type 0 where
  default strict : HardeningLevel

pub record KernelHardening : Type 0 where
  pub disable_legacy_subsystems : Option Bool
  pub disable_debug_interfaces : Option Bool
  pub kernel_self_protection : Option Bool
  pub exploit_mitigations : Option Bool
  pub seccomp : Option Bool
  pub fips : Bool

pub record RuntimeHardening : Type 0 where
  pub network_spoofing_protection : Option Bool
  pub icmp_hardening : Option Bool
  pub tcp_hardening : Option Bool
  pub info_leak_restriction : Option Bool
  pub ptrace_and_bpf_restriction : Option Bool
  pub kexec_and_fs_protection : Option Bool
  pub proc_subset_pid : Bool

pub record Hardening : Type 0 where
  pub level : HardeningLevel
  pub kernel : KernelHardening
  pub runtime : RuntimeHardening
  pub extra_sysctls : List (Text × Text)
  pub extra_kernel_config : List Text

pub record OvmfSource : Type 0 where
  pub preset : Option Text
  pub path : Option Text

pub data MeasuredBoot : Type 0 where
  uki kernel_initrd : MeasuredBoot

pub record SevSnp : Type 0 where
  pub vcpus : ℕ
  pub vcpu_type : Text
  pub kernel_cmdline : Text
  pub ovmf : OvmfSource
  pub measured_boot : Option MeasuredBoot

pub data OutputFormat : Type 0 where
  cpio uki binary : OutputFormat

pub record Output : Type 0 where
  pub formats : List OutputFormat
  pub dir : Text

pub data ReleaseAsset : Type 0 where
  bzimage cpio uki binary measurement ovmf : ReleaseAsset

pub record Release : Type 0 where
  pub assets : Option (List ReleaseAsset)
  pub title : Option Text
  pub notes : Option Text
  pub notes_file : Option Text
  pub draft : Bool
  pub prerelease : Bool

pub record Config : Type 0 where
  pub project : Project
  pub profile : Profile
  pub app : App
  pub network : Network
  pub storage : Storage
  pub kernel : Kernel
  pub toolchain : ToolchainPins
  pub hardening : Hardening
  pub sev_snp : Option SevSnp
  pub output : Output
  pub release : Release
  pub logging : Logging
