-- ===== src/Pipeline/Cmdline.antt =====
-- src/pipeline/docker/cmdline.rs: the kernel command line of a build.
use cargo_unikernel.Common.{◌++◌, none, some, [], ◌∷◌, if◌then◌else◌}
use cargo_unikernel.Std.Text.{Text, codes}
use cargo_unikernel.Schema.Types.{Config, NetworkMode, has_ipv4}

unfoldable pub casual_cmdline_prefix : Text
casual_cmdline_prefix = codes "console=ttyS0"

unfoldable pub casual_cmdline_suffix : Text
casual_cmdline_suffix =
    codes "quiet loglevel=3 panic=-1 random.trust_cpu=off random.trust_bootloader=off "
    ++ codes "page_alloc.shuffle=1 lockdown=integrity transparent_hugepage=madvise "
    ++ codes "init_on_alloc=1 init_on_free=1"

unfoldable pub network_cmdline_fragment : NetworkMode → Text
unfolding has_ipv4
network_cmdline_fragment mode = if has_ipv4 mode then codes "ip=dhcp " else []

unfoldable pub casual_cmdline : NetworkMode → Text
unfolding casual_cmdline_prefix casual_cmdline_suffix network_cmdline_fragment
casual_cmdline mode =
    casual_cmdline_prefix ++ b' ' ∷ (network_cmdline_fragment mode ++ casual_cmdline_suffix)

unfoldable pub cmdline_for : Config → Text
unfolding casual_cmdline
cmdline_for c = elim c.sev_snp [
  | none ↦ casual_cmdline c.network.mode
  | some snp ↦ snp.kernel_cmdline
]
