-- ===== src/Guest/Shutdown/Wipe/PowersOff.antt =====
-- That a shutdown of guest/src/shutdown.rs ends, and what it has wiped.
use cargo_unikernel.Common.{
  ℕ, ◌≡◌, refl, Bool, true, ◌||◌, not, List, [], ◌∷◌, ◌++◌, append_assoc, replicate, ap, sym,
  Option, some, any, arith, Bool-cases, inl, inr,
}
use cargo_unikernel.Guest.Shutdown.Wipe.{
  Ops, before, GraceRound, SettleRound, ShutdownAnswers, process_alive, wait_for_app,
  wait_for_processes_to_exit, wipe_writable_state, force_power_off, kill_wipe_and_power_off,
  run_graceful_shutdown, kill_all, pause, reap, probe,
}

-- The rounds come to an end: the clock is past the deadline in one of them.
abbrev pub GraceEnds : List GraceRound → Type 0
GraceEnds rounds = any (λ r. r.past_deadline) rounds ≡ true

abbrev pub SettleEnds : List SettleRound → Type 0
SettleEnds rounds = any (λ r. not r.before_deadline) rounds ≡ true

prepend_calls :
    (ops : Ops) (o : Option Ops)
    → ((later : Ops) × (o ≡ some later))
    → (later : Ops) × (before ops o ≡ some later)
prepend_calls ops o (later, h) = (ops ++ later, rw h refl)

wait_for_app_ends :
    (app_pid : ℕ) (rounds : List GraceRound)
    → GraceEnds rounds
    → (ops : Ops) × (wait_for_app app_pid rounds ≡ some ops)
unfolding wait_for_app any
wait_for_app_ends app_pid [] h = absurd (cc)
wait_for_app_ends app_pid (r ∷ rounds) h =
    elim (Bool-cases (not (process_alive app_pid r.alive) || r.past_deadline)) [
      | inl over ↦ ([], rw over refl)
      | inr more ↦ rw more (
          prepend_calls (pause ∷ []) (wait_for_app app_pid rounds)
            (wait_for_app_ends app_pid rounds (ground arith)))
    ]

settle_ends :
    (rounds : List SettleRound)
    → SettleEnds rounds
    → (ops : Ops) × (wait_for_processes_to_exit rounds ≡ some ops)
unfolding wait_for_processes_to_exit any
settle_ends [] h = absurd (cc)
settle_ends (r ∷ rounds) h = elim (Bool-cases r.before_deadline) [
  | inr late ↦ ([], rw late refl)
  | inl early ↦ elim (Bool-cases r.others) [
    | inr alone ↦ (replicate r.reaped reap ++ probe ∷ [], rw (early, alone) refl)
    | inl others ↦
        rw (early, others)
          (prepend_calls _ (wait_for_processes_to_exit rounds) (settle_ends rounds (ground arith)))
  ]
]

-- The calls of a shutdown up to the power-off.
abbrev pub PowersOff : Option Ops → ShutdownAnswers → Type 0
PowersOff o a = (ops : Ops) × (o ≡ some (ops ++ force_power_off a.off_refused a.halt_refused))

before-PowersOff :
    (ops : Ops) (o : Option Ops) (a : ShutdownAnswers) → PowersOff o a → PowersOff (before ops o) a
before-PowersOff ops o a (later, h) = (ops ++ later, rw (h, append_assoc) refl)

kill_wipe-PowersOff :
    (persistent : Bool) (a : ShutdownAnswers)
    → SettleEnds a.settle
    → PowersOff (kill_wipe_and_power_off persistent a) a
unfolding kill_wipe_and_power_off
kill_wipe-PowersOff persistent a h = elim (Bool-cases (a.started || not a.armed)) [
  | inl at_once ↦ ([], rw at_once refl)
  | inr wipes ↦
      let settled = settle_ends a.settle h in
      rw (wipes, settled.1)
        (
          kill_all ∷ (settled.0 ++ wipe_writable_state persistent),
          ap (λ ops. some (kill_all ∷ ops))
              (sym (
                append_assoc settled.0 (wipe_writable_state persistent)
                  (force_power_off a.off_refused a.halt_refused))),
        )
]

-- If in the grace period and in the wait for the killed processes the clock passes the deadline in
-- some round, then a graceful shutdown ends: whatever the app does, whether or not the wipe was
-- started before or its deadline can be armed, its last calls are those of `force_power_off`.
pub graceful-PowersOff :
    (app_pid : ℕ) (persistent : Bool) (grace : List GraceRound) (a : ShutdownAnswers)
    → GraceEnds grace
    → SettleEnds a.settle
    → PowersOff (run_graceful_shutdown app_pid persistent grace a) a
unfolding run_graceful_shutdown
graceful-PowersOff app_pid persistent grace a g h =
    let waited = wait_for_app_ends app_pid grace g in
    rw waited.1 (
      before-PowersOff _ _ a (
        before-PowersOff waited.0 (kill_wipe_and_power_off persistent a) a
          (kill_wipe-PowersOff persistent a h)))
