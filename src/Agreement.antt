-- ===== src/Agreement.antt =====
-- The host tool and the guest init agree: what `Config::validate` lets through and the exports
-- carry is what the guest's parsers read back.
pub mod Lists
pub mod Line
pub mod Firewall
pub mod Exports
pub mod Pairs
pub mod Baked
pub mod Network
pub mod Sysctls
pub mod Ipv6
