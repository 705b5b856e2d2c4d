-- ===== src/Guest/Shutdown/Trigger.antt =====
-- `on_sigterm` and `wait_for_trigger` of guest/src/shutdown.rs as two threads of atomic steps: a
-- signal handler, which runs to its end before the signal is delivered again, and the watcher.
-- A schedule is the list of the steps in the order in which they happen.
pub mod Signals
use cargo_unikernel.Common.{
  ℕ, suc, zero, ◌≡◌, ◌≢◌, refl, Bool, true, false, not, List, [], ◌∷◌, if◌then◌else◌, ◌||◌, ◌&&◌,
  arith, Bool-cases, inl, inr,
}

-- The handler: not running, after `SIGTERM_RECEIVED.store`, and after the load of the pipe's
-- descriptor, with whether it was published.
pub data HandlerAt : Type 0 where
  idle flagged : HandlerAt
  loaded : Bool → HandlerAt

-- The watcher: setting up epoll and the pipe, after the descriptor's store, registering the
-- devices, in `epoll_wait`, in the fallback that polls, and returned.
pub data WatcherAt : Type 0 where
  preparing published registering waiting polling returned : WatcherAt

pub record Trigger : Type 0 where
  pub handler : HandlerAt
  pub watcher : WatcherAt
  pub received : Bool
  pub fd_published : Bool
  pub byte_in_pipe : Bool
  pub signalled : Bool

pub data Event : Type 0 where
  handler_step watcher_step setup_fails register_fails power_button : Event

unfoldable pub start : Trigger
start = record {
  handler = HandlerAt.idle;
  watcher = WatcherAt.preparing;
  received = false;
  fd_published = false;
  byte_in_pipe = false;
  signalled = false;
}

-- `signalled` records that a run of the handler is over.
unfoldable pub handler_next : HandlerAt → Trigger → Trigger
handler_next HandlerAt.idle s = record s { received = true; handler = HandlerAt.flagged }
handler_next HandlerAt.flagged s = record s { handler = HandlerAt.loaded s.fd_published }
handler_next (HandlerAt.loaded true) s = record s {
  byte_in_pipe = true;
  handler = HandlerAt.idle;
  signalled = true;
}
handler_next (HandlerAt.loaded false) s = record s { handler = HandlerAt.idle; signalled = true }

abbrev pub go_to : WatcherAt → Trigger → Trigger
go_to w s = record s { watcher = w }

unfoldable pub watcher_next : WatcherAt → Trigger → Trigger
watcher_next WatcherAt.preparing s = record s { fd_published = true; watcher = WatcherAt.published }
watcher_next WatcherAt.published s =
    go_to (if s.received then WatcherAt.returned else WatcherAt.registering) s
watcher_next WatcherAt.registering s = go_to WatcherAt.waiting s
watcher_next WatcherAt.waiting s =
    go_to (if s.byte_in_pipe then WatcherAt.returned else WatcherAt.waiting) s
watcher_next WatcherAt.polling s =
    go_to (if s.received then WatcherAt.returned else WatcherAt.polling) s
watcher_next WatcherAt.returned s = s

-- The failures fall back to polling, from where they can happen.
unfoldable pub setup_failed : WatcherAt → Trigger → Trigger
setup_failed WatcherAt.preparing s = go_to WatcherAt.polling s
setup_failed _ s = s

unfoldable pub register_failed : WatcherAt → Trigger → Trigger
register_failed WatcherAt.registering s = go_to WatcherAt.polling s
register_failed _ s = s

unfoldable pub power_pressed : WatcherAt → Trigger → Trigger
power_pressed WatcherAt.waiting s = go_to WatcherAt.returned s
power_pressed WatcherAt.polling s = go_to WatcherAt.returned s
power_pressed _ s = s

unfoldable pub step : Trigger → Event → Trigger
unfolding handler_next watcher_next setup_failed register_failed power_pressed
step s Event.handler_step = handler_next s.handler s
step s Event.watcher_step = watcher_next s.watcher s
step s Event.setup_fails = setup_failed s.watcher s
step s Event.register_fails = register_failed s.watcher s
step s Event.power_button = power_pressed s.watcher s

unfoldable pub run : Trigger → List Event → Trigger
run s [] = s
run s (e ∷ es) = run (step s e) es
