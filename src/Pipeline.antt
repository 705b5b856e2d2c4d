-- ===== src/Pipeline.antt =====
-- src/pipeline: what the host tool bakes into the guest init, the command line it boots with, and the
-- record of a measurement.
pub mod Shell
pub mod Wire
pub mod GuestInit
pub mod Cmdline
pub mod Measurement
