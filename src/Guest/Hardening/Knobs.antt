-- ===== src/Guest/Hardening/Knobs.antt =====
-- The sysctls that guest/src/hardening.rs writes in each of its functions, in the order of the
-- calls: path and value.
use cargo_unikernel.Common.{List, [], ◌∷◌}
use cargo_unikernel.Std.Text.{Text, codes}

abbrev pub Knob : Type 0
Knob = Text × Text

unfoldable pub redirects_and_forwarding_knobs : List Knob
redirects_and_forwarding_knobs =
    (codes "/proc/sys/net/ipv4/conf/all/rp_filter", codes "1")
    ∷ (codes "/proc/sys/net/ipv4/conf/default/rp_filter", codes "1")
    ∷ (codes "/proc/sys/net/ipv4/conf/all/accept_redirects", codes "0")
    ∷ (codes "/proc/sys/net/ipv4/conf/default/accept_redirects", codes "0")
    ∷ (codes "/proc/sys/net/ipv4/conf/all/send_redirects", codes "0")
    ∷ (codes "/proc/sys/net/ipv4/conf/default/send_redirects", codes "0")
    ∷ (codes "/proc/sys/net/ipv4/conf/all/secure_redirects", codes "0")
    ∷ (codes "/proc/sys/net/ipv4/conf/default/secure_redirects", codes "0")
    ∷ (codes "/proc/sys/net/ipv6/conf/all/accept_redirects", codes "0")
    ∷ (codes "/proc/sys/net/ipv6/conf/default/accept_redirects", codes "0")
    ∷ (codes "/proc/sys/net/ipv4/ip_forward", codes "0")
    ∷ (codes "/proc/sys/net/ipv6/conf/all/forwarding", codes "0")
    ∷ []

unfoldable pub source_routing_knobs : List Knob
source_routing_knobs =
    (codes "/proc/sys/net/ipv4/conf/all/accept_source_route", codes "0")
    ∷ (codes "/proc/sys/net/ipv4/conf/default/accept_source_route", codes "0")
    ∷ (codes "/proc/sys/net/ipv6/conf/all/accept_source_route", codes "0")
    ∷ (codes "/proc/sys/net/ipv6/conf/default/accept_source_route", codes "0")
    ∷ []

unfoldable pub arp_knobs : List Knob
arp_knobs =
    (codes "/proc/sys/net/ipv4/conf/all/arp_filter", codes "1")
    ∷ (codes "/proc/sys/net/ipv4/conf/all/arp_ignore", codes "1")
    ∷ (codes "/proc/sys/net/ipv4/conf/all/drop_gratuitous_arp", codes "1")
    ∷ (codes "/proc/sys/net/ipv4/conf/all/shared_media", codes "0")
    ∷ []

unfoldable pub martians_knobs : List Knob
martians_knobs =
    (codes "/proc/sys/net/ipv4/conf/all/log_martians", codes "1")
    ∷ (codes "/proc/sys/net/ipv4/conf/default/log_martians", codes "1")
    ∷ []

unfoldable pub icmp_knobs : List Knob
icmp_knobs =
    (codes "/proc/sys/net/ipv4/icmp_echo_ignore_broadcasts", codes "1")
    ∷ (codes "/proc/sys/net/ipv4/icmp_ignore_bogus_error_responses", codes "1")
    ∷ (codes "/proc/sys/net/ipv4/icmp_echo_ignore_all", codes "1")
    ∷ []

unfoldable pub tcp_knobs : List Knob
tcp_knobs =
    (codes "/proc/sys/net/ipv4/tcp_syncookies", codes "1")
    ∷ (codes "/proc/sys/net/ipv4/tcp_rfc1337", codes "1")
    ∷ (codes "/proc/sys/net/core/somaxconn", codes "8192")
    ∷ (codes "/proc/sys/net/core/netdev_max_backlog", codes "16384")
    ∷ (codes "/proc/sys/net/ipv4/tcp_max_syn_backlog", codes "8192")
    ∷ (codes "/proc/sys/net/ipv4/tcp_synack_retries", codes "2")
    ∷ (codes "/proc/sys/net/ipv4/tcp_fin_timeout", codes "10")
    ∷ (codes "/proc/sys/net/ipv4/tcp_keepalive_time", codes "60")
    ∷ (codes "/proc/sys/net/ipv4/tcp_keepalive_intvl", codes "10")
    ∷ (codes "/proc/sys/net/ipv4/tcp_keepalive_probes", codes "6")
    ∷ (codes "/proc/sys/net/ipv4/tcp_max_orphans", codes "16384")
    ∷ (codes "/proc/sys/net/ipv4/tcp_tw_reuse", codes "1")
    ∷ (codes "/proc/sys/net/ipv4/tcp_slow_start_after_idle", codes "0")
    ∷ (codes "/proc/sys/net/ipv4/tcp_congestion_control", codes "bbr")
    ∷ []

unfoldable pub info_leak_knobs : List Knob
info_leak_knobs =
    (codes "/proc/sys/kernel/kptr_restrict", codes "2")
    ∷ (codes "/proc/sys/kernel/dmesg_restrict", codes "1")
    ∷ (codes "/proc/sys/kernel/perf_event_paranoid", codes "3")
    ∷ (codes "/proc/sys/kernel/sysrq", codes "0")
    ∷ (codes "/proc/sys/kernel/panic_on_oops", codes "1")
    ∷ (codes "/proc/sys/net/ipv4/tcp_timestamps", codes "0")
    ∷ []

unfoldable pub ptrace_and_bpf_knobs : List Knob
ptrace_and_bpf_knobs =
    (codes "/proc/sys/kernel/unprivileged_bpf_disabled", codes "1")
    ∷ (codes "/proc/sys/vm/unprivileged_userfaultfd", codes "0")
    ∷ (codes "/proc/sys/kernel/yama/ptrace_scope", codes "3")
    ∷ (codes "/proc/sys/net/core/bpf_jit_harden", codes "2")
    ∷ (codes "/proc/sys/kernel/modules_disabled", codes "1")
    ∷ (codes "/proc/sys/kernel/io_uring_disabled", codes "2")
    ∷ []

unfoldable pub kexec_and_fs_knobs : List Knob
kexec_and_fs_knobs =
    (codes "/proc/sys/kernel/kexec_load_disabled", codes "1")
    ∷ (codes "/proc/sys/fs/protected_symlinks", codes "1")
    ∷ (codes "/proc/sys/fs/protected_hardlinks", codes "1")
    ∷ (codes "/proc/sys/fs/protected_fifos", codes "2")
    ∷ (codes "/proc/sys/fs/protected_regular", codes "2")
    ∷ (codes "/proc/sys/fs/suid_dumpable", codes "0")
    ∷ []

unfoldable pub baseline_tuning_knobs : List Knob
baseline_tuning_knobs =
    (codes "/proc/sys/vm/max_map_count", codes "1048576")
    ∷ (codes "/proc/sys/kernel/randomize_va_space", codes "2")
    ∷ []

-- Of every interface there is, by family.
unfoldable pub ipv4_interface_knobs : List Text
ipv4_interface_knobs =
    codes "accept_redirects"
    ∷ codes "send_redirects"
    ∷ codes "secure_redirects"
    ∷ codes "shared_media"
    ∷ []

unfoldable pub ipv6_interface_knobs : List Text
ipv6_interface_knobs = codes "accept_redirects" ∷ codes "accept_source_route" ∷ []
