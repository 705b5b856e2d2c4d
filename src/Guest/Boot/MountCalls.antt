-- ===== src/Guest/Boot/MountCalls.antt =====
-- The mounts among the calls of a boot (guest/src/main.rs, `main`).
use cargo_unikernel.Common.{
  ℕ, ◌≡◌, refl, ap, sym, ◌∙◌, Bool, true, false, List, [], ◌∷◌, ◌++◌, append_assoc, map, Result, ok,
  err, Bool-cases, inl, inr,
}
use cargo_unikernel.Std.Text.{Text}
use cargo_unikernel.Guest.Firewall.Rules.{parse_rules}
use cargo_unikernel.Guest.Firewall.Replies.{install}
use cargo_unikernel.Guest.Mounts.{MountOp}
use cargo_unikernel.Guest.Trace.{Trace, ◌>>=◌, demand, attempt, best_effort, within}
use cargo_unikernel.Guest.Trace.Laws.{Ends, good, stopped, bind-Ends, attempt-Ends, demand-Ends}
use cargo_unikernel.Guest.Trace.Exact.{weaken-Ends}
use cargo_unikernel.Guest.Boot.{
  BootOp, filter_packets, mounting, chown, expose_device, make_executable, Stop, BootFeatures,
  BootConstants, BootAnswers, Boot, outcome_of, same, install_filter, chown_dirs, performed,
  expose_sev_guest_device, if_compiled, prepare_app_binary,
}

-- The calls of a boot that are mounts.
abbrev pub mount_call : BootOp → List MountOp
mount_call (mounting op) = op ∷ []
mount_call _ = []

abbrev pub mount_calls : List BootOp → List MountOp
mount_calls [] = []
mount_calls (op ∷ ops) = mount_call op ++ mount_calls ops

pub mount_calls-append :
    (xs ys : List BootOp) → mount_calls (xs ++ ys) ≡ mount_calls xs ++ mount_calls ys
mount_calls-append [] ys = refl
mount_calls-append (x ∷ xs) ys =
    ap (λ ops. mount_call x ++ ops) (mount_calls-append xs ys)
    ∙ sym (append_assoc (mount_call x) (mount_calls xs) (mount_calls ys))

mount_calls-mounting : (ops : List MountOp) → mount_calls (map mounting ops) ≡ ops
mount_calls-mounting [] = refl
mount_calls-mounting (op ∷ ops) = ap (◌∷◌ op) (mount_calls-mounting ops)

-- The mounts of a part of the boot that ends well.
abbrev pub Mounts : {A : Type 0} → List MountOp → Boot A → Type 0
Mounts calls t = Ends (λ ops _. mount_calls ops ≡ calls) t

module _ {A B : Type 0} where
  pub bind-Mounts :
      {X Y : List MountOp} {t : Boot A} (f : A → Boot B)
      → Mounts X t
      → ((a : A) → Mounts Y (f a))
      → Mounts (X ++ Y) (t >>= f)
  bind-Mounts {X = X} f h k = bind-Ends f h (λ ops a e.
      weaken-Ends
        (λ later b e2.
          mount_calls-append ops later ∙ (ap (λ l. l ++ mount_calls later) e ∙ ap (◌++◌ X) e2))
        (k a))

pub none_of :
    {A X : Type 0} (op : BootOp) (f : X → Stop) (r : Result X A)
    → mount_call op ≡ []
    → Mounts [] (attempt op f r)
none_of op f r h = attempt-Ends op f r (λ a _. rw h refl)

pub none_demanded : {A X : Type 0} (f : X → Stop) (r : Result X A) → Mounts [] (demand f r)
none_demanded f r = demand-Ends f r (λ a _. refl)

pub none_best : (op : BootOp) → mount_call op ≡ [] → Mounts [] (best_effort op)
unfolding best_effort
none_best op h = good (op ∷ []) tt (rw h refl)

pub none_filter :
    (f : BootFeatures) (k : BootConstants) (a : BootAnswers) → Mounts [] (install_filter f k a)
unfolding install_filter
none_filter f k a = elim (Bool-cases f.firewall) [
  | inl on ↦ rw on (
      bind-Mounts _ (none_demanded _ (parse_rules k.firewall_rules))
        (λ rules. none_of filter_packets same (outcome_of (install f.net_ipv6 a.send rules)) refl))
  | inr off ↦ rw off (good [] tt refl)
]

pub none_chown :
    (a : BootAnswers) (uid gid : ℕ) (dirs : List Text) → Mounts [] (chown_dirs a uid gid dirs)
unfolding chown_dirs
none_chown a uid gid [] = good [] tt refl
none_chown a uid gid (dir ∷ dirs) =
    bind-Mounts _ (none_of (chown dir uid gid) _ (a.chowned dir) refl)
      (λ _. none_chown a uid gid dirs)

pub none_performed :
    {X : Type 0} (call : X → BootOp) (ops : List X)
    → ((x : X) → mount_call (call x) ≡ [])
    → mount_calls (map call ops) ≡ []
none_performed call [] h = refl
none_performed call (x ∷ xs) h = rw (h x) (none_performed call xs h)

pub none_performed_run :
    {X : Type 0} (call : X → BootOp) (ops : List X)
    → ((x : X) → mount_call (call x) ≡ [])
    → Mounts [] (performed call ops)
unfolding performed
none_performed_run call ops h = good (map call ops) tt (none_performed call ops h)

pub none_exposed : (on there : Bool) → Mounts [] (expose_sev_guest_device on there)
unfolding expose_sev_guest_device
none_exposed true true = none_best expose_device refl
none_exposed true false = good [] tt refl
none_exposed false there = good [] tt refl

pub none_compiled : (on : Bool) (op : BootOp) → mount_call op ≡ [] → Mounts [] (if_compiled on op)
unfolding if_compiled
none_compiled true op h = none_best op h
none_compiled false op h = good [] tt refl

pub none_binary : (k : BootConstants) (a : BootAnswers) → Mounts [] (prepare_app_binary k a)
unfolding prepare_app_binary
none_binary k a =
    bind-Mounts _ (none_demanded same _)
      (λ _. none_of (make_executable k.app_constants.app_path) _ a.app_mode_set refl)

pub only_mounting :
    {E : Type 0} (stop : E → Stop) (t : Trace MountOp E (Unit {0}))
    → Mounts t.0 (within mounting stop t)
unfolding within
only_mounting stop (ops, ok _) = good (map mounting ops) tt (mount_calls-mounting ops)
only_mounting stop (ops, err e) = stopped (map mounting ops) (stop e)
