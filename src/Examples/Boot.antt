-- ===== src/Examples/Boot.antt =====
-- The theorems on the boot, the storage and the shutdown, at concrete runs.
use cargo_unikernel.Common.{
  any, ◌↔◌, ℕ, ◌≡◌, ◌↔◌, ◌≤◌, refl, Bool, true, false, List, [], ◌∷◌, ◌++◌, replicate, Result, ok,
  arith,
}
use cargo_unikernel.Std.Text.{codes}
use cargo_unikernel.Guest.Firewall.Bytes.{Bytes}
use cargo_unikernel.Guest.Zeros.{write_zeros, zeros, Zeroed, write_zeros-Zeroed}
use cargo_unikernel.Guest.Storage.{
  Op, Answers, superblock_is_ours, volume_label, mount_persistent_var, zero_device, sync_device,
  run_mke2fs, mount_var, call, wipe_and_format, mke2fs_ended,
}
use cargo_unikernel.Guest.Storage.Marker.{superblock_is_ours_iff}
use cargo_unikernel.Guest.Storage.Mounting.{
  VarReady, is_erasing, var_mounted_iff, foreign_only_erased,
}
use cargo_unikernel.Guest.Shutdown.Trigger.{
  WatcherAt, Event, start, step, run, handler_next, watcher_next,
}
use cargo_unikernel.Guest.Shutdown.Trigger.Signals.{two_steps, sigterm_not_lost}
use cargo_unikernel.Guest.Shutdown.Interlock
use cargo_unikernel.Guest.Shutdown.Watchdog.{
  Waited, Watch, watchdog_loop, alarm, watchdog_stops_at_alarm,
}

-- A sink that keeps what it is given.
abbrev keep : Bytes → Bytes → Result ℕ Bytes
keep sink bytes = ok (sink ++ bytes)

keep_writes : (sink bytes after : Bytes) → keep sink bytes ≡ ok after → after ≡ sink ++ bytes
keep_writes sink bytes after h = cc

write_zeros-Zeroed_example : Zeroed (λ s. s) (7 ∷ []) 5 (write_zeros keep (7 ∷ []) 5 (zeros 2))
write_zeros-Zeroed_example = write_zeros-Zeroed keep (λ s. s) keep_writes (7 ∷ []) 5 2 (omega arith)

superblock_is_ours_iff_example :
    (superblock_is_ours (zeros 56 ++ 0x53 ∷ 0xEF ∷ (zeros 62 ++ (codes "CUKINIT" ++ zeros 9)))
      ≡ true)
    ↔ (Path ℕ 0x53 0x53
        × Path ℕ 0xEF 0xEF
        × ((codes "CUKINIT" ++ zeros 9) ≡ volume_label ++ replicate 9 0))
superblock_is_ours_iff_example =
    superblock_is_ours_iff (zeros 56) (zeros 62) (codes "CUKINIT" ++ zeros 9) 0x53 0xEF refl refl
      refl (omega arith) (omega arith)

abbrev blank : Bytes
blank = zeros 136

abbrev labelled : Bytes
labelled = zeros 56 ++ 0x53 ∷ 0xEF ∷ (zeros 62 ++ (codes "CUKINIT" ++ zeros 9))

abbrev device : Result ℕ Bytes → Answers
device superblock = record {
  superblock = superblock;
  opened = ok tt;
  size = ok 4096;
  wiped = λ _. ok tt;
  synced = ok tt;
  formatted = ok true;
  mounted = ok tt;
}

labelled_ours : superblock_is_ours labelled ≡ true
labelled_ours =
    (superblock_is_ours_iff (zeros 56) (zeros 62) (codes "CUKINIT" ++ zeros 9) 0x53 0xEF refl refl
        refl (omega arith) (omega arith)).1
      (refl, refl, refl)

blank_foreign : superblock_is_ours blank ≡ false
unfolding superblock_is_ours
blank_foreign = refl

abbrev erasing : List Op
erasing = zero_device 4096 ∷ sync_device ∷ run_mke2fs ∷ mount_var ∷ []

var_mounted_iff_example :
    (mount_persistent_var (device (ok blank)) ≡ (erasing, ok tt))
    ↔ VarReady (device (ok blank)) erasing
var_mounted_iff_example = var_mounted_iff (device (ok blank)) erasing

blank_erased : any is_erasing (mount_persistent_var (device (ok blank))).0 ≡ true
unfolding mount_persistent_var call wipe_and_format mke2fs_ended superblock_is_ours any
blank_erased = refl

foreign_only_erased_example :
    (sb : Bytes) × ((device (ok blank)).superblock ≡ ok sb) × (superblock_is_ours sb ≡ false)
foreign_only_erased_example = foreign_only_erased (device (ok blank)) blank_erased

-- The signal arrives before the descriptor is published, and the handler ends after.
abbrev early_signal : List Event
early_signal =
    Event.handler_step ∷ Event.handler_step ∷ Event.watcher_step ∷ Event.handler_step ∷ []

early_signal_over : (run start early_signal).signalled ≡ true
unfolding run start step handler_next watcher_next
early_signal_over = refl

sigterm_not_lost_example : (run (run start early_signal) two_steps).watcher ≡ WatcherAt.returned
sigterm_not_lost_example = sigterm_not_lost early_signal early_signal_over

one_wiper_example :
    Interlock.wipers
      (Interlock.run
        (Interlock.enter 2)
        ((0, true) ∷ (1, true) ∷ (0, true) ∷ (1, true) ∷ [])).stages
    ≤ 1
one_wiper_example = Interlock.one_wiper 2 ((0, true) ∷ (1, true) ∷ (0, true) ∷ (1, true) ∷ [])

-- An orphan exits, `wait` is interrupted, and the app exits.
abbrev orphan_first : List (Waited × Bool)
orphan_first = (Waited.exited 9, false) ∷ (Waited.try_again, false) ∷ []

watchdog_stops_at_alarm_example :
    (watchdog_loop 7 orphan_first ≡ Watch.watching)
    × (watchdog_loop 7 (orphan_first ++ (Waited.exited 7, false) ∷ []) ≡ Watch.app_exited 7)
unfolding alarm
watchdog_stops_at_alarm_example =
    watchdog_stops_at_alarm 7 orphan_first (Waited.exited 7) false [] (refl, (refl, tt)) refl
