-- ===== src/Schema.antt =====
-- src/schema.rs: the data of a `Cargo-Unikernel.toml`, its defaults and `Config::validate`.
pub mod Types
pub mod Defaults
pub mod Errors
pub mod Validate
pub mod Promises
