-- ===== src/Schema/Promises.antt =====
-- What a config that src/schema.rs lets through promises to the rest of the program.
pub mod Paths
pub mod Profile
