-- ===== src/Examples.antt =====
-- Concrete configs and runs, at which the theorems are applied.
mod Configs
mod Host
mod Boot
mod Filter
mod Publishing
mod Routes
mod Scrub
mod Sandbox
mod Loading
mod Sysctls
mod Launch
mod Poweroff
mod Denylist
