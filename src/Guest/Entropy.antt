-- ===== src/Guest/Entropy.antt =====
-- guest/src/entropy.rs: `wait_for_entropy`. What the clock and `poll` say in each round is the
-- input; nothing comes of rounds at whose end the code still waits.
use cargo_unikernel.Common.{
  ℕ, ◌≡◌, ◌↔◌, refl, ap, Bool, true, false, if◌then◌else◌, List, [], ◌∷◌, ◌++◌, Option, none, some,
  All, Result, ok, err, Bool-cases, inl, inr,
}

-- `Ok(0)`, `EINTR`, another error, and `Ok(_)` with whether `revents` has IN.
pub data Polled : Type 0 where
  timed_out interrupted : Polled
  poll_error : ℕ → Polled
  events : Bool → Polled

-- Whether the clock is before the deadline when it is read, and what `poll` answers.
pub record PollRound : Type 0 where
  pub before_deadline : Bool
  pub polled : Polled

pub data EntropyFatal : Type 0 where
  random_not_opened : ℕ → EntropyFatal
  poll_failed : ℕ → EntropyFatal
  not_initialized : EntropyFatal

abbrev pub EntropyWait : Type 0
EntropyWait = Option (Result EntropyFatal (Unit {0}))

unfoldable pub after_poll : Polled → EntropyWait → EntropyWait
after_poll timed_out later = later
after_poll interrupted later = later
after_poll (poll_error errno) later = some (err (poll_failed errno))
after_poll (events true) later = some (ok tt)
after_poll (events false) later = later

unfoldable pub poll_rounds : List PollRound → EntropyWait
unfolding after_poll
poll_rounds [] = none
poll_rounds (r ∷ rounds) =
    let later = poll_rounds rounds in
    if r.before_deadline then after_poll r.polled later else some (err not_initialized)

unfoldable pub wait_for_entropy : Result ℕ (Unit {0}) → List PollRound → EntropyWait
unfolding poll_rounds
wait_for_entropy (err errno) rounds = some (err (random_not_opened errno))
wait_for_entropy (ok _) rounds = poll_rounds rounds

-- The poll reports neither an error nor a readable device.
abbrev pub Quiet : Polled → Type 0
Quiet timed_out = Unit
Quiet interrupted = Unit
Quiet (poll_error errno) = ⊥
Quiet (events readable) = readable ≡ false

-- A round that the wait has to go on after.
abbrev pub PollsAgain : PollRound → Type 0
PollsAgain r = (r.before_deadline ≡ true) × Quiet r.polled

-- In some round before the deadline the kernel reports `/dev/random` readable, after rounds that
-- report nothing.
abbrev pub Seeded : List PollRound → Type 0
Seeded rounds =
    (waited : List PollRound) × (r : PollRound) × (rest : List PollRound) × (rounds
      ≡ waited ++ r ∷ rest)
    × All PollsAgain waited
    × (r.before_deadline ≡ true)
    × (r.polled ≡ events true)

again-Seeded :
    (r : PollRound) (rounds : List PollRound) → PollsAgain r → Seeded rounds → Seeded (r ∷ rounds)
again-Seeded r rounds h (waited, q, rest, e, quiet, early, ready) =
    (r ∷ waited, q, rest, ap (◌∷◌ r) e, (h, quiet), early, ready)

round-Seeded :
    (r : PollRound) (rounds : List PollRound) (p : Polled)
    → r.before_deadline ≡ true
    → r.polled ≡ p
    → after_poll p (poll_rounds rounds) ≡ some (ok tt)
    → (poll_rounds rounds ≡ some (ok tt) → Seeded rounds)
    → Seeded (r ∷ rounds)
unfolding after_poll
round-Seeded r rounds timed_out early e h k = again-Seeded r rounds (early, rw e tt) (k h)
round-Seeded r rounds interrupted early e h k = again-Seeded r rounds (early, rw e tt) (k h)
round-Seeded r rounds (poll_error errno) early e h k = absurd (cc)
round-Seeded r rounds (events true) early e h k = ([], r, rounds, refl, tt, early, e)
round-Seeded r rounds (events false) early e h k = again-Seeded r rounds (early, rw e refl) (k h)

poll_rounds-Seeded : (rounds : List PollRound) → poll_rounds rounds ≡ some (ok tt) → Seeded rounds
unfolding poll_rounds
poll_rounds-Seeded [] h = absurd (cc)
poll_rounds-Seeded (r ∷ rounds) h = elim (Bool-cases r.before_deadline) [
  | inr late ↦ let stopped : some (err not_initialized) ≡ some (ok tt) = rw late at h in absurd (cc)
  | inl early ↦
      round-Seeded r rounds r.polled early refl (rw early at h) (poll_rounds-Seeded rounds)
]

after_poll-Quiet : (p : Polled) (later : EntropyWait) → Quiet p → after_poll p later ≡ later
unfolding after_poll
after_poll-Quiet timed_out later h = refl
after_poll-Quiet interrupted later h = refl
after_poll-Quiet (poll_error errno) later h = elim h [ ]
after_poll-Quiet (events true) later h = absurd (cc)
after_poll-Quiet (events false) later h = refl

Seeded-poll_rounds :
    (waited : List PollRound) (r : PollRound) (rest : List PollRound)
    → All PollsAgain waited
    → r.before_deadline ≡ true
    → r.polled ≡ events true
    → poll_rounds (waited ++ r ∷ rest) ≡ some (ok tt)
unfolding poll_rounds after_poll
Seeded-poll_rounds [] r rest quiet early ready = rw (early, ready) refl
Seeded-poll_rounds (q ∷ waited) r rest quiet early ready =
    rw (quiet.0.0, after_poll-Quiet q.polled (poll_rounds (waited ++ r ∷ rest)) quiet.0.1)
      (Seeded-poll_rounds waited r rest quiet.1 early ready)

-- The wait lets the boot go on if, and only if, `/dev/random` opens and in some round before the
-- deadline the kernel reports it readable, after rounds that time out, are interrupted or report
-- something else.
pub wait_for_entropy_iff :
    (opened : Result ℕ (Unit {0})) (rounds : List PollRound)
    → (wait_for_entropy opened rounds ≡ some (ok tt)) ↔ ((opened ≡ ok tt) × Seeded rounds)
unfolding wait_for_entropy
wait_for_entropy_iff (err errno) rounds =
    (λ h. absurd (cc), λ h. let open_failed = h.0 in absurd (cc))
wait_for_entropy_iff (ok _) rounds = (
  λ h. (refl, poll_rounds-Seeded rounds h),
  λ h.
      let (waited, r, rest, e, quiet, early, ready) = h.1 in
      rw e (Seeded-poll_rounds waited r rest quiet early ready),
)
