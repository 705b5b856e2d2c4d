-- ===== src/Guest/Landlock/Built.antt =====
-- What `build` of guest/src/landlock.rs tells the kernel.
use cargo_unikernel.Common.{
  Holds, bind-Holds, after-Holds, ℕ, ◌≡◌, ◌≤◌, refl, subst, Bool, true, false, leb, not,
  if◌then◌else◌, List, [], ◌∷◌, ◌++◌, Result, ok, err, reject_if, ok_or, All, leb→le, Bool-cases,
  inl, inr, arith,
}
use cargo_unikernel.Std.Text.{Text, contains}
use cargo_unikernel.Guest.Landlock.{
  PathRule, Grant, Calls, Presence, Ruleset, LandlockFatal, fail_with, open_failed, add_opened,
  not_opened, add_rule, add_rules, build_on, ruleset_of, build, rules_of, handled_access_fs,
  min_abi, abi_too_low, create_failed,
}
use cargo_unikernel.Guest.Landlock.Permits.{Bounded, Sandboxed, granted-Sandboxed}
use cargo_unikernel.Guest.Landlock.Roots.{Rooted, rules_of-Rooted}
use cargo_unikernel.Guest.Landlock.Rights.{Each, Confining, rules_of-Confined}

module _ (P : Grant → Type 0) (calls : Calls) where
  add_opened-Holds : (rule : PathRule) → Each P rule → Holds (All P) (add_opened calls rule)
  unfolding add_opened
  add_opened-Holds rule h =
      after-Holds (All P) (fail_with _ (calls.fstat rule.path)) _ (λ is_directory.
        after-Holds (All P) (fail_with _ (calls.add_path rule.path _)) _
          (λ _. (h is_directory, tt)))

  presence-Holds :
      (presence : Presence) (e : LandlockFatal)
      → Holds
          (All P)
          (elim presence [ Presence.optional_path ↦ ok [] | Presence.required_path ↦ err e ])
  presence-Holds Presence.optional_path e = tt
  presence-Holds Presence.required_path e = tt

  opening-Holds :
      (rule : PathRule) (opened : Result ℕ (Unit {0}))
      → Each P rule
      → Holds
          (All P)
          (elim opened [ ok _ ↦ add_opened calls rule | err errno ↦ not_opened rule errno ])
  unfolding not_opened
  opening-Holds rule (ok _) h = add_opened-Holds rule h
  opening-Holds rule (err errno) h = presence-Holds rule.presence (open_failed rule.path errno)

  if-Holds :
      (test : Bool) (e : LandlockFatal) (m : Result LandlockFatal (List Grant))
      → Holds (All P) m
      → Holds (All P) (if test then err e else m)
  if-Holds true e m h = tt
  if-Holds false e m h = h

  add_rule-Holds : (rule : PathRule) → Each P rule → Holds (All P) (add_rule calls rule)
  unfolding add_rule
  add_rule-Holds rule h =
      if-Holds (contains 0 rule.path) _ _ (opening-Holds rule (calls.open_path rule.path) h)

  append-All : (xs ys : List Grant) → All P xs → All P ys → All P (xs ++ ys)
  append-All [] ys a b = b
  append-All (x ∷ xs) ys a b = (a.0, append-All xs ys a.1 b)

  add_rules-Holds :
      (rules : List PathRule) → All (Each P) rules → Holds (All P) (add_rules calls rules)
  unfolding add_rules
  add_rules-Holds [] h = tt
  add_rules-Holds (rule ∷ rules) h =
      bind-Holds (All P) (add_rule calls rule) _ (add_rule-Holds rule h.0) (λ granted a.
        bind-Holds (All P) (add_rules calls rules) _ (add_rules-Holds rules h.1)
          (λ rest b. append-All granted rest a b))

handled_at_min : (abi : ℕ) → 5 ≤ abi → handled_access_fs abi ≡ 0xFFFF
unfolding handled_access_fs
handled_at_min abi h = let enough : leb 5 abi ≡ true = ground arith in rw enough refl

reject-Holds : (abi : ℕ) → Holds (λ _. 5 ≤ abi) (reject_if (not (leb min_abi abi)) abi_too_low)
reject-Holds abi = elim (Bool-cases (leb 5 abi)) [
  | inl enough ↦ rw enough (leb→le 5 abi enough)
  | inr low ↦ rw low tt
]

both :
    (payload_dir : Text) (extra : List Text) (rules : List PathRule)
    → Confining payload_dir rules
    → All (Each (Rooted extra)) rules
    → All (Each (Bounded payload_dir extra)) rules
both payload_dir extra [] a b = tt
both payload_dir extra (rule ∷ rules) a b =
    (λ is_directory. (a.0 is_directory, b.0 is_directory), both payload_dir extra rules a.1 b.1)

build_on-Holds :
    (calls : Calls) (payload_dir : Text) (extra : List Text) (covers : Text → Bool)
    (rules : List PathRule) (abi : ℕ)
    → All (Each (Bounded payload_dir extra)) rules
    → Holds (Sandboxed payload_dir extra covers) (build_on calls rules abi)
unfolding build_on ruleset_of
build_on-Holds calls payload_dir extra covers rules abi h =
    let P = Sandboxed payload_dir extra covers in
    bind-Holds P (reject_if (not (leb min_abi abi)) abi_too_low) _ (reject-Holds abi) (λ _ enough.
      after-Holds P (fail_with create_failed calls.create_ruleset) _ (λ _.
        bind-Holds P (add_rules calls rules) _
          (add_rules-Holds (Bounded payload_dir extra) calls rules h)
          (λ granted bounded.
            granted-Sandboxed payload_dir extra covers (ruleset_of abi granted)
              (handled_at_min abi enough) bounded)))

-- If the ruleset is built without the feature `danger-allow-write-execute`, whatever paths the
-- config adds and whatever the system calls answer: it governs every right of the first five
-- ABIs, and by all its grants together no file can be executed that is not at or below the
-- payload's directory, nothing can be changed that is not at or below a scratch directory, one of
-- the devices or a read-write path of the config, and no device node can be made. So what the
-- app can write and execute lies below both kinds of paths at once.
pub build_confines :
    (calls : Calls) (sev_snp : Bool) (payload_dir : Text) (extra_read extra_read_write : List Text)
    (built : Ruleset) (covers : Text → Bool)
    → build calls
        (record { allow_write_execute = false; sev_snp = sev_snp })
        payload_dir
        extra_read
        extra_read_write
      ≡ ok built
    → Sandboxed payload_dir extra_read_write covers built
unfolding build
build_confines calls sev_snp payload_dir extra_read extra_read_write built covers h =
    let P = Sandboxed payload_dir extra_read_write covers in
    let rules =
      rules_of (record { allow_write_execute = false; sev_snp = sev_snp }) payload_dir extra_read
        extra_read_write in
    subst (Holds P) h (
      after-Holds P (ok_or calls.abi_version abi_too_low) _ (λ abi.
        build_on-Holds calls payload_dir extra_read_write covers rules abi (
          both payload_dir extra_read_write rules
            (rules_of-Confined sev_snp payload_dir extra_read extra_read_write)
            (rules_of-Rooted extra_read_write sev_snp payload_dir extra_read))))
