-- ===== src/Guest/Spawn/Fits.antt =====
-- What `spawn_app` of guest/src/main.rs has parsed and built when it forks.
use cargo_unikernel.Common.{
  ℕ, ◌==◌, ◌||◌, ◌≡◌, ◌≢◌, refl, true, false, List, map, Option, none, some, ◌⊎◌, inl, inr, Result,
  ok, err, Bool-cases, Holds, bind-Holds, after-Holds, ok_or, subst, arith,
}
use cargo_unikernel.Std.Text.{Text, codes}
use cargo_unikernel.Guest.Baked.{
  resource_limits, app_ids, validate_app_ids, baked, parse_pairs, parse_path_list, u32_max,
}
use cargo_unikernel.Guest.Landlock
use cargo_unikernel.Guest.Landlock.{Ruleset, LandlockFatal}
use cargo_unikernel.Guest.Seccomp.Denylist.{denied}
use cargo_unikernel.Guest.Spawn.{
  Program, Confinement, SpawnFeatures, SpawnConstants, SpawnFatal, confinement,
  build_baseline_denylist, build_ruleset, built_rules, or_stop, spawn_constant, denylist_not_built,
}

abbrev pub landlock_built :
    Landlock.Calls → SpawnFeatures → SpawnConstants → Result LandlockFatal Ruleset
landlock_built calls f k =
    Landlock.build calls
      (record { allow_write_execute = f.allow_write_execute; sev_snp = f.sev_snp }) k.payload_dir
      (parse_path_list k.landlock_ro) (parse_path_list k.landlock_rw)

-- The ruleset that the feature asks for.
abbrev pub RulesFit : Landlock.Calls → SpawnFeatures → SpawnConstants → Option Ruleset → Type 0
RulesFit calls f k rules =
    ((f.landlock ≡ false) × (rules ≡ none))
    ⊎ ((f.landlock ≡ true)
        × (built : Ruleset) × (rules ≡ some built)
        × (landlock_built calls f k ≡ ok built))

-- A confinement is that of the constants and the features, with a denylist that was compiled.
pub record Fits (number : Text → ℕ) (compile : List ℕ → Option Program) (calls : Landlock.Calls)
    (f : SpawnFeatures) (k : SpawnConstants) (c : Confinement) : Type 0 where
  pub denylist : compile (map number (denied f.allow_write_execute)) ≡ some c.program
  pub limits :
      resource_limits k.limit_nofile k.limit_nproc k.limit_memlock_mb k.limit_as_mb ≡ ok c.limits
  pub rules : RulesFit calls f k c.rules
  pub ids : app_ids k.app_uid k.app_gid ≡ ok (c.uid, c.gid)
  pub env : parse_pairs k.app_env (codes "[app.runtime].env") ≡ ok c.env

or_stop-Holds :
    {E A : Type 0} (stop : E → SpawnFatal) (r : Result E A) → Holds (λ a. r ≡ ok a) (or_stop stop r)
or_stop-Holds stop (ok a) = refl
or_stop-Holds stop (err e) = tt

ok_or-Holds : {E A : Type 0} (o : Option A) (e : E) → Holds (λ a. o ≡ some a) (ok_or o e)
ok_or-Holds (some a) e = refl
ok_or-Holds none e = tt

built_rules-Holds :
    (r : Result LandlockFatal Ruleset)
    → Holds (λ rules. (built : Ruleset) × (rules ≡ some built) × (r ≡ ok built)) (built_rules r)
built_rules-Holds (ok built) = (built, refl, refl)
built_rules-Holds (err e) = tt

weaken-Holds :
    {E A : Type 0} {P Q : A → Type 0} (r : Result E A)
    → ((a : A) → P a → Q a)
    → Holds P r
    → Holds Q r
weaken-Holds (ok a) k h = k a h
weaken-Holds (err e) k h = tt

build_ruleset-Holds :
    (calls : Landlock.Calls) (f : SpawnFeatures) (k : SpawnConstants)
    → Holds (RulesFit calls f k) (build_ruleset calls f k)
unfolding build_ruleset
build_ruleset-Holds calls f k = elim (Bool-cases f.landlock) [
  | inl on ↦ rw on (
      weaken-Holds (built_rules (landlock_built calls f k)) (λ rules h. inr (refl, h.0, h.1, h.2))
        (built_rules-Holds (landlock_built calls f k)))
  | inr off ↦ rw off (inl (refl, refl))
]

module _ (number : Text → ℕ) (compile : List ℕ → Option Program) (calls : Landlock.Calls)
    (f : SpawnFeatures) (k : SpawnConstants) where
  confinement-Holds : Holds (Fits number compile calls f k) (confinement number compile calls f k)
  unfolding confinement
  confinement-Holds =
      bind-Holds _ (build_baseline_denylist number compile f.allow_write_execute) _
        (ok_or-Holds _ denylist_not_built)
        (λ program denylist.
          bind-Holds _
            (or_stop spawn_constant
              (resource_limits k.limit_nofile k.limit_nproc k.limit_memlock_mb k.limit_as_mb))
            _ (or_stop-Holds _ _)
            (λ limits l.
              bind-Holds _ (build_ruleset calls f k) _ (build_ruleset-Holds calls f k) (λ rules r.
                bind-Holds _ (or_stop spawn_constant (app_ids k.app_uid k.app_gid)) _
                  (or_stop-Holds _ _)
                  (λ ids i.
                    bind-Holds _
                      (or_stop spawn_constant (parse_pairs k.app_env (codes "[app.runtime].env"))) _
                      (or_stop-Holds _ _)
                      (λ env e. record {
                        denylist = denylist;
                        limits = l;
                        rules = r;
                        ids = i;
                        env = e;
                      })))))

  pub confinement-Fits :
      (c : Confinement)
      → confinement number compile calls f k ≡ ok c
      → Fits number compile calls f k c
  confinement-Fits c h = subst (Holds (Fits number compile calls f k)) h confinement-Holds

valid_ids : (uid gid : ℕ) → Holds (λ _. (uid ≢ 0) × (gid ≢ 0)) (validate_app_ids uid gid)
unfolding validate_app_ids
valid_ids uid gid = elim (Bool-cases (uid == 0 || uid == u32_max || gid == 0 || gid == u32_max)) [
  | inl root ↦ rw root tt
  | inr other ↦ rw other (ground arith, ground arith)
]

app_ids-Holds :
    (uid_raw gid_raw : Text) → Holds (λ ids. (ids.0 ≢ 0) × (ids.1 ≢ 0)) (app_ids uid_raw gid_raw)
unfolding app_ids
app_ids-Holds uid_raw gid_raw = after-Holds _ (baked u32_max uid_raw _) _ (λ uid.
    after-Holds _ (baked u32_max gid_raw _) _
      (λ gid. bind-Holds _ (validate_app_ids uid gid) _ (valid_ids uid gid) (λ _ h. h)))

-- Ids that are accepted are not root's.
pub app_ids-unprivileged :
    (uid_raw gid_raw : Text) (uid gid : ℕ)
    → app_ids uid_raw gid_raw ≡ ok (uid, gid)
    → (uid ≢ 0) × (gid ≢ 0)
app_ids-unprivileged uid_raw gid_raw uid gid h =
    subst (Holds (λ ids. (ids.0 ≢ 0) × (ids.1 ≢ 0))) h (app_ids-Holds uid_raw gid_raw)
