-- ===== src/Loading.antt =====
-- Where a build's config comes from: src/config/auto_detect.rs and src/config/overrides.rs.
pub mod AutoDetect
pub mod Overrides
