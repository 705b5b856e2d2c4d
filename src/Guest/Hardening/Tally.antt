-- ===== src/Guest/Hardening/Tally.antt =====
-- The counters and the warnings of guest/src/hardening.rs against the writes.
use cargo_unikernel.Common.{
  ℕ, suc, ◌+◌, ◌%◌, ◌^◌, ◌≡◌, refl, ap, List, [], ◌∷◌, ◌++◌, append-nil, All, Option, none, some,
  Result, ok, err, arith,
}
use cargo_unikernel.Std.Text.{Text, codes}
use cargo_unikernel.Guest.Hardening.{
  Knob, Written, done, no_such_file, write_error, Warning, not_written, not_enumerated, no_entry,
  refused, Sysctls, SysctlAnswers, HardeningFeatures, Listed, no_directory, unreadable, entries,
  warn, bump, note_written, write_sysctl, apply, knobs_of, conf_path, ipv4_interface_knobs,
  ipv6_interface_knobs,
}
use cargo_unikernel.Guest.Hardening.Invariants.{ListedNamed, EntryNamed, NoWrite, apply-Inv}

-- The writes that succeeded, the ones whose file is absent, and the warnings that the others call for.
abbrev pub succeeded : List (Knob × Written) → ℕ
succeeded [] = 0
succeeded ((k, done) ∷ ws) = suc (succeeded ws)
succeeded ((k, no_such_file) ∷ ws) = succeeded ws
succeeded ((k, write_error errno) ∷ ws) = succeeded ws

abbrev pub not_there : List (Knob × Written) → ℕ
not_there [] = 0
not_there ((k, done) ∷ ws) = not_there ws
not_there ((k, no_such_file) ∷ ws) = suc (not_there ws)
not_there ((k, write_error errno) ∷ ws) = not_there ws

abbrev pub failures : List (Knob × Written) → List Warning
failures [] = []
failures ((k, done) ∷ ws) = failures ws
failures ((k, no_such_file) ∷ ws) = failures ws
failures ((k, write_error errno) ∷ ws) = not_written k.0 k.1 errno ∷ failures ws

-- The warnings about writes.
abbrev pub write_warnings : List Warning → List Warning
write_warnings [] = []
write_warnings (not_written path value errno ∷ ws) =
    not_written path value errno ∷ write_warnings ws
write_warnings (not_enumerated path errno ∷ ws) = write_warnings ws
write_warnings (no_entry path errno ∷ ws) = write_warnings ws
write_warnings (refused path ∷ ws) = write_warnings ws

abbrev pub Tallied : Sysctls → Type 0
Tallied s =
    (s.applied ≡ succeeded s.writes % 2 ^ 32)
    × (s.absent ≡ not_there s.writes % 2 ^ 32)
    × (write_warnings s.warnings ≡ failures s.writes)

succeeded-append :
    (ws vs : List (Knob × Written)) → succeeded (ws ++ vs) ≡ succeeded ws + succeeded vs
succeeded-append [] vs = omega arith
succeeded-append ((k, done) ∷ ws) vs = omega (arith, succeeded-append ws vs)
succeeded-append ((k, no_such_file) ∷ ws) vs = succeeded-append ws vs
succeeded-append ((k, write_error errno) ∷ ws) vs = succeeded-append ws vs

not_there-append :
    (ws vs : List (Knob × Written)) → not_there (ws ++ vs) ≡ not_there ws + not_there vs
not_there-append [] vs = omega arith
not_there-append ((k, done) ∷ ws) vs = not_there-append ws vs
not_there-append ((k, no_such_file) ∷ ws) vs = omega (arith, not_there-append ws vs)
not_there-append ((k, write_error errno) ∷ ws) vs = not_there-append ws vs

failures-append : (ws vs : List (Knob × Written)) → failures (ws ++ vs) ≡ failures ws ++ failures vs
failures-append [] vs = refl
failures-append ((k, done) ∷ ws) vs = failures-append ws vs
failures-append ((k, no_such_file) ∷ ws) vs = failures-append ws vs
failures-append ((k, write_error errno) ∷ ws) vs =
    ap (◌∷◌ (not_written k.0 k.1 errno)) (failures-append ws vs)

write_warnings-append :
    (ws vs : List Warning) → write_warnings (ws ++ vs) ≡ write_warnings ws ++ write_warnings vs
write_warnings-append [] vs = refl
write_warnings-append (not_written path value errno ∷ ws) vs =
    ap (◌∷◌ (not_written path value errno)) (write_warnings-append ws vs)
write_warnings-append (not_enumerated path errno ∷ ws) vs = write_warnings-append ws vs
write_warnings-append (no_entry path errno ∷ ws) vs = write_warnings-append ws vs
write_warnings-append (refused path ∷ ws) vs = write_warnings-append ws vs

NoWrite-quiet : (w : Warning) → NoWrite w → write_warnings (w ∷ []) ≡ []
NoWrite-quiet (not_written path value errno) h = absurd h
NoWrite-quiet (not_enumerated path errno) h = refl
NoWrite-quiet (no_entry path errno) h = refl
NoWrite-quiet (refused path) h = refl

warn-Tallied : (w : Warning) (s : Sysctls) → NoWrite w → Tallied s → Tallied (warn w s)
unfolding warn
warn-Tallied w s h (applied, absent, warned) = (
  applied,
  absent,
  rw (write_warnings-append s.warnings (w ∷ []), NoWrite-quiet w h, append-nil) warned,
)

note-Tallied : (k : Knob) (r : Written) (s : Sysctls) → Tallied s → Tallied (note_written k r s)
unfolding note_written bump
note-Tallied k done s (applied, absent, warned) =
    let more = succeeded-append s.writes ((k, done) ∷ []) in
    (
      omega arith,
      rw (not_there-append s.writes ((k, done) ∷ [])) (omega arith),
      rw (failures-append s.writes ((k, done) ∷ []), append-nil) warned,
    )
note-Tallied k no_such_file s (applied, absent, warned) =
    let more = not_there-append s.writes ((k, no_such_file) ∷ []) in
    (
      rw (succeeded-append s.writes ((k, no_such_file) ∷ [])) (omega arith),
      omega arith,
      rw (failures-append s.writes ((k, no_such_file) ∷ []), append-nil) warned,
    )
note-Tallied k (write_error errno) s (applied, absent, warned) = (
  rw (succeeded-append s.writes ((k, write_error errno) ∷ [])) (omega arith),
  rw (not_there-append s.writes ((k, write_error errno) ∷ [])) (omega arith),
  rw
      (
        failures-append s.writes ((k, write_error errno) ∷ []),
        write_warnings-append s.warnings (not_written k.0 k.1 errno ∷ []),
        warned,
      )
      refl,
)

-- Any name.
abbrev Any : Text → Type 0
Any name = Unit

nameless_entries : (es : List (Result ℕ (Option Text))) → All (EntryNamed Any) es
nameless_entries [] = tt
nameless_entries (ok (some name) ∷ es) = (tt, nameless_entries es)
nameless_entries (ok none ∷ es) = (tt, nameless_entries es)
nameless_entries (err errno ∷ es) = (tt, nameless_entries es)

nameless_listing : (l : Listed) → ListedNamed Any l
nameless_listing no_directory = tt
nameless_listing (unreadable errno) = tt
nameless_listing (entries es) = nameless_entries es

-- After `apply`, whatever is compiled in and whatever the files answer, the counter of applied knobs
-- is the number of writes that succeeded, that of absent ones the number of writes to files that
-- are not there, both modulo 2^32, and the warnings about writes are those of all other writes, in
-- order.
pub apply-Tallied :
    (a : SysctlAnswers) (f : HardeningFeatures) (extra : List Knob) → Tallied (apply a f extra)
unfolding write_sysctl knobs_of ipv4_interface_knobs ipv6_interface_knobs
apply-Tallied a f extra =
    apply-Inv a Tallied (λ k. Unit) Any warn-Tallied
      (λ k s _ i. note-Tallied k (a.write s.writes k) s i) (λ k _. tt)
      (λ name _. (tt, (tt, (tt, (tt, tt))))) (λ name _. (tt, (tt, tt)))
      (nameless_listing (a.read_dir (conf_path (codes "ipv4"))))
      (nameless_listing (a.read_dir (conf_path (codes "ipv6")))) f extra (refl, refl, refl)
