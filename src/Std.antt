-- ===== src/Std.antt =====
-- The parts of Rust's standard library that the program's own code computes with: strings,
-- decimal numbers and IPv6 addresses.
pub mod Text
pub mod Decimal
pub mod Ipv6
pub mod Solid
