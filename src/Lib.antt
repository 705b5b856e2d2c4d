-- ===== src/Lib.antt =====
-- cargo-unikernel builds a virtual machine image around one application. A host tool reads
-- Cargo-Unikernel.toml, validates it and writes the scripts of a container build; the values that
-- the guest needs travel as exported variables, which guest/build.rs bakes into the init. The
-- init boots as PID 1: it parses the constants, installs a packet filter, prepares storage and
-- /etc, starts the application as a child, watches it, and wipes and powers off at the end.
--
-- Which file models what:
--   Common            lists, results and tests on the native numbers, shared by all
--   Std               Rust's standard library on text (Std.Text), on decimal numbers (Std.Decimal:
--                     `to_string` and `parse` of an unsigned number) and on IPv6 addresses (Std.Ipv6)
--   Schema            src/schema.rs: the sections (Types), their defaults (Defaults), the errors
--                     (Errors), `Config::validate` check by check (Validate); Promises has what
--                     a validated config is good for
--   Loading           src/config/auto_detect.rs (AutoDetect) and src/config/overrides.rs (Overrides):
--                     where a build's config comes from
--   Pipeline          src/pipeline/docker/guest_init_script.rs and the quoting of
--                     src/pipeline/docker/helpers.rs: the features, the exports, the encodings;
--                     src/pipeline/docker/cmdline.rs (Cmdline); the record of a measurement in
--                     src/pipeline/measurement.rs (Measurement)
--   Guest.Baked       `passthrough` of guest/build.rs and the parsers of guest/src/main.rs
--   Guest.Firewall    guest/src/firewall.rs: the rules (Rules), the patched buffer (NlBuf), the
--                     expressions (Exprs), `build_batch` (Batch), the kernel's replies and
--                     `send_batch` (Replies). Tlv, Exprs.Specs, Batch.Specs and Batch.Messages are the
--                     specification: messages with attribute trees
--   Guest.Trace       what PID 1 does until it goes on or stops, as calls and a result, with the
--                     rules to reason on it; the boot, the mounts and the spawn are written in it
--   Guest.Zeros       `write_zeros` of guest/src/main.rs
--   Guest.Storage     guest/src/storage.rs: the marker, the way to a mounted /var
--   Guest.Etc         guest/src/etcfiles.rs: the texts of the files, and the writes (Files)
--   Guest.Landlock    guest/src/landlock.rs: the rights (Access), the rules and `build`; Rights,
--                     Roots and Fitting have what every rule grants, Permits what the grants come to
--                     on a file, Built and Accepted what the kernel is told
--   Guest.Mounts      guest/src/mounts.rs: the flags (Calls), `prepare_system_env` and
--                     `lockdown_filesystem`; Sealed has what they leave
--   Guest.Hardening   guest/src/hardening.rs: the tables (Knobs) and `apply`, with its counters
--   Guest.Entropy     guest/src/entropy.rs
--   Guest.Network     guest/src/network.rs: the interfaces, the static IPv6 address and its two calls
--                     (Calls), the parsers of the routing tables and the wait for a route (Routes),
--                     the read-back of addresses (Addresses)
--   Guest.Spawn       `spawn_app` of guest/src/main.rs: what is built before the fork (Parent), the
--                     closures in the child (Child); Process is the kernel's side of them
--   Guest.Boot        `main` of guest/src/main.rs, which puts all of these in order
--   Guest.Seccomp     guest/src/seccomp.rs: the program of the architecture gate, the denylist
--   Guest.Shutdown    guest/src/shutdown.rs: the SIGTERM trigger (Trigger), the wipe's interlock
--                     (Interlock), the kill, the wipe and the power-off (Wipe), `scrub_open_dir` on
--                     a tree of entries (Scrub); the watchdog of guest/src/main.rs (Watchdog)
--   Publishing        src/release.rs: what is attached to a release, and the command that makes it
--   Agreement         the host and the guest together: what is validated and exported is what
--                     the guest reads
--   Examples          concrete configs and runs
--
-- How the code is modelled. Text is the list of its code points and bytes are numbers below
-- 256; integers are natural numbers, with the bound or the wrap written where the code has one.
-- A BTreeMap is the list of its entries. `fatal_shutdown` does not return, so it is an error of
-- the model. The answers of system calls, of `recv` and of `wait` are inputs; writes and mounts
-- are recorded. Cargo takes what guest/build.rs prints a line at a time: a baked value is the
-- first line of the exported one, without the white space at its end (`rustc_env`). Threads are
-- functions of one atomic step, and a schedule is a list of steps. The guest is built for
-- x86_64 only, so the native byte order is little-endian and usize has 64 bits.
--
-- Fuel. `read_datagram` has fuel for one step more than the datagram has bytes, and each message
-- takes 16 bytes at least; `write_loop` has one step more than the bytes that remain, and each step
-- writes one at least. The loops that wait (`collect_acks`, `wait_for_entropy`, the app's grace
-- period, the wait for killed processes) have no fuel: they run over what the kernel and the clock
-- say round by round, and end without a result where the code waits for more rounds than the given
-- ones.
--
-- Not modelled: the reading of TOML (serde), the processes and files of the pipeline, the
-- compiler of the seccomp denylist (a library, and a parameter), the script that measures, the
-- files that src/config/mod.rs reads and src/config/scaffold.rs writes. That a further line of
-- an exported value may be an instruction to Cargo of its own is left out.
mod Common
pub mod Std
pub mod Schema
pub mod Loading
pub mod Publishing
pub mod Pipeline
pub mod Guest
pub mod Agreement
pub mod Examples
