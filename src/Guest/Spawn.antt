-- ===== src/Guest/Spawn.antt =====
-- `spawn_app` of guest/src/main.rs.
mod Parent
mod Child
unfoldable pub use Parent.*
unfoldable pub use Child.*
pub mod Made
pub mod Process
pub mod Fits
pub mod Confined
pub mod Syscalls
use cargo_unikernel.Common.{ℕ, List, Option}
use cargo_unikernel.Std.Text.{Text}
use cargo_unikernel.Guest.Landlock
use cargo_unikernel.Guest.Trace.{Trace, ◌>>=◌, demand, within}

abbrev pub unchanged : SpawnFatal → SpawnFatal
unchanged e = e

abbrev pub unchanged_op : ChildOp → ChildOp
unchanged_op op = op

unfoldable pub spawn_app :
    (Text → ℕ)
    → (List ℕ → Option Program)
    → Landlock.Calls
    → ChildAnswers
    → SpawnFeatures
    → SpawnConstants
    → Trace ChildOp SpawnFatal ℕ
unfolding confinement spawn_child
spawn_app number compile calls a f k = do
  c ← demand unchanged (confinement number compile calls f k)
  within unchanged_op spawn_failed (spawn_child a f k c)
