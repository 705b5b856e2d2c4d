-- ===== src/Guest/Shutdown/Trigger/Signals.antt =====
-- No SIGTERM is lost between `on_sigterm` and `wait_for_trigger` of guest/src/shutdown.rs.
use cargo_unikernel.Common.{◌≡◌, refl, Bool, true, false, List, [], ◌∷◌, if◌then◌else◌, arith}
use cargo_unikernel.Guest.Shutdown.Trigger.{
  Trigger, HandlerAt, WatcherAt, Event, start, step, run, go_to, handler_next, watcher_next,
  setup_failed, register_failed, power_pressed,
}

-- Past its check of the flag, the watcher hears of a signal by the pipe only.
abbrev listening : WatcherAt → Bool
listening WatcherAt.registering = true
listening WatcherAt.waiting = true
listening _ = false

abbrev stores : WatcherAt → Bool
stores WatcherAt.published = true
stores WatcherAt.registering = true
stores WatcherAt.waiting = true
stores _ = false

abbrev missed : HandlerAt → Bool
missed (HandlerAt.loaded false) = true
missed _ = false

abbrev running : HandlerAt → Bool
running HandlerAt.idle = false
running _ = true

pub record Inv (s : Trigger) : Type 0 where
  pub flag : running s.handler ≡ true → s.received ≡ true
  pub flag_stays : s.signalled ≡ true → s.received ≡ true
  pub stored : stores s.watcher ≡ true → s.fd_published ≡ true
  pub heard :
      listening s.watcher ≡ true
      → (missed s.handler ≡ false) × (s.signalled ≡ true → s.byte_in_pipe ≡ true)

start-Inv : Inv start
unfolding start
start-Inv = record {
  flag = λ h. absurd (cc);
  flag_stays = λ h. absurd (cc);
  stored = λ h. absurd (cc);
  heard = λ h. absurd (cc);
}

-- What the watcher needs where the pipe is all it listens to.
abbrev Heard : Trigger → Type 0
Heard s = (missed s.handler ≡ false) × (s.signalled ≡ true → s.byte_in_pipe ≡ true)

go_to-Inv :
    (w : WatcherAt) (s : Trigger)
    → Inv s
    → (stores w ≡ true → s.fd_published ≡ true)
    → (listening w ≡ true → Heard s)
    → Inv (go_to w s)
go_to-Inv w s v k h = record { flag = v.flag; flag_stays = v.flag_stays; stored = k; heard = h }

handler_next-Inv : (h : HandlerAt) (s : Trigger) → s.handler ≡ h → Inv s → Inv (handler_next h s)
unfolding handler_next
handler_next-Inv HandlerAt.idle s e v = grind arith
handler_next-Inv HandlerAt.flagged s e v = record {
  flag = λ _. v.flag (ground arith);
  flag_stays = v.flag_stays;
  stored = v.stored;
  heard = λ l. let p = v.stored (ground arith) in (rw p refl, (v.heard l).1);
}
handler_next-Inv (HandlerAt.loaded true) s e v = grind arith
handler_next-Inv (HandlerAt.loaded false) s e v = grind arith

watcher_next-Inv : (w : WatcherAt) (s : Trigger) → s.watcher ≡ w → Inv s → Inv (watcher_next w s)
unfolding watcher_next
watcher_next-Inv WatcherAt.preparing s e v = grind arith
watcher_next-Inv WatcherAt.published s e v =
    go_to-Inv (if s.received then WatcherAt.returned else WatcherAt.registering) s v
      (λ h. v.stored (ground arith)) (λ h. ground (arith, v.flag, v.flag_stays))
watcher_next-Inv WatcherAt.registering s e v = grind arith
watcher_next-Inv WatcherAt.waiting s e v =
    go_to-Inv (if s.byte_in_pipe then WatcherAt.returned else WatcherAt.waiting) s v
      (λ h. v.stored (ground arith)) (λ h. v.heard (ground arith))
watcher_next-Inv WatcherAt.polling s e v =
    go_to-Inv (if s.received then WatcherAt.returned else WatcherAt.polling) s v
      (λ h. absurd (ground arith)) (λ h. absurd (ground arith))
watcher_next-Inv WatcherAt.returned s e v = v

setup_failed-Inv : (w : WatcherAt) (s : Trigger) → Inv s → Inv (setup_failed w s)
unfolding setup_failed
setup_failed-Inv WatcherAt.preparing s v = grind arith
setup_failed-Inv WatcherAt.published s v = v
setup_failed-Inv WatcherAt.registering s v = v
setup_failed-Inv WatcherAt.waiting s v = v
setup_failed-Inv WatcherAt.polling s v = v
setup_failed-Inv WatcherAt.returned s v = v

register_failed-Inv : (w : WatcherAt) (s : Trigger) → Inv s → Inv (register_failed w s)
unfolding register_failed
register_failed-Inv WatcherAt.registering s v = grind arith
register_failed-Inv WatcherAt.published s v = v
register_failed-Inv WatcherAt.preparing s v = v
register_failed-Inv WatcherAt.waiting s v = v
register_failed-Inv WatcherAt.polling s v = v
register_failed-Inv WatcherAt.returned s v = v

power_pressed-Inv : (w : WatcherAt) (s : Trigger) → Inv s → Inv (power_pressed w s)
unfolding power_pressed
power_pressed-Inv WatcherAt.waiting s v = grind arith
power_pressed-Inv WatcherAt.polling s v = grind arith
power_pressed-Inv WatcherAt.published s v = v
power_pressed-Inv WatcherAt.preparing s v = v
power_pressed-Inv WatcherAt.registering s v = v
power_pressed-Inv WatcherAt.returned s v = v

step-Inv : (s : Trigger) (e : Event) → Inv s → Inv (step s e)
unfolding step
step-Inv s Event.handler_step v = handler_next-Inv s.handler s refl v
step-Inv s Event.watcher_step v = watcher_next-Inv s.watcher s refl v
step-Inv s Event.setup_fails v = setup_failed-Inv s.watcher s v
step-Inv s Event.register_fails v = register_failed-Inv s.watcher s v
step-Inv s Event.power_button v = power_pressed-Inv s.watcher s v

run-Inv : (s : Trigger) (es : List Event) → Inv s → Inv (run s es)
unfolding run
run-Inv s [] v = v
run-Inv s (e ∷ es) v = run-Inv (step s e) es (step-Inv s e v)

-- The watcher alone, after a handler's run is over.
abbrev pub two_steps : List Event
two_steps = Event.watcher_step ∷ Event.watcher_step ∷ []

returns :
    (w : WatcherAt) (s : Trigger)
    → s.watcher ≡ w
    → Inv s
    → s.signalled ≡ true
    → (run s two_steps).watcher ≡ WatcherAt.returned
unfolding run step watcher_next
returns WatcherAt.preparing s e v h = rw (e, v.flag_stays h) refl
returns WatcherAt.published s e v h = rw (e, v.flag_stays h) refl
returns WatcherAt.registering s e v h =
    let b : s.byte_in_pipe ≡ true = (v.heard (ground arith)).1 h in rw (e, b) refl
returns WatcherAt.waiting s e v h =
    let b : s.byte_in_pipe ≡ true = (v.heard (ground arith)).1 h in rw (e, b) refl
returns WatcherAt.polling s e v h = rw (e, v.flag_stays h) refl
returns WatcherAt.returned s e v h = rw e refl

-- Whatever the interleaving, the devices' failures and the moment of the signal: once a run of
-- the handler is over, the watcher's next two steps return.
pub sigterm_not_lost :
    (es : List Event)
    → (run start es).signalled ≡ true
    → (run (run start es) two_steps).watcher ≡ WatcherAt.returned
sigterm_not_lost es h =
    returns (run start es).watcher (run start es) refl (run-Inv start es start-Inv) h
