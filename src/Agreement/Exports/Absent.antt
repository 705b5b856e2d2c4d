-- ===== src/Agreement/Exports/Absent.antt =====
-- The exports of the sections of src/pipeline/docker/guest_init_script.rs do not hide each other.
use cargo_unikernel.Common.{
  Bool, true, false, ◌≡◌, refl, ◌∙◌, [], ◌∷◌, ◌++◌, Option, none, some, arith,
}
use cargo_unikernel.Std.Text.{Text, codes, text_eq}
use cargo_unikernel.Schema.Types.{Config, Ipv6Static}
use cargo_unikernel.Pipeline.GuestInit.{
  Exports, when, when_some, id_and_env_exports, limit_exports, ipv6_exports, sysctl_exports,
  tmpfs_exports, landlock_exports, network_exports, app_env_exports,
}
use cargo_unikernel.Guest.Baked.{env_var}

-- No export of the list has the name.
abbrev pub Absent : Text → Exports → Type 0
Absent n xs = env_var n xs ≡ none

module _ (n : Text) where
  pub Absent-nil : Absent n []
  unfolding env_var
  Absent-nil = refl

  pub Absent-cons :
      (k v : Text) (xs : Exports) → text_eq k n ≡ false → Absent n xs → Absent n ((k, v) ∷ xs)
  unfolding env_var
  Absent-cons k v xs h a = ground arith

  pub Absent-append : (xs ys : Exports) → Absent n xs → Absent n ys → Absent n (xs ++ ys)
  unfolding env_var
  Absent-append [] ys a b = b
  Absent-append ((k, v) ∷ xs) ys a b = ground (arith, Absent-append xs ys)

  pub Absent-when : (b : Bool) (k v : Text) → text_eq k n ≡ false → Absent n (when b (k, v))
  unfolding when
  Absent-when true k v h = Absent-cons k v [] h Absent-nil
  Absent-when false k v h = Absent-nil

  pub Absent-when_some :
      (k : Text) (o : Option Text) → text_eq k n ≡ false → Absent n (when_some k o)
  unfolding when_some
  Absent-when_some k (some v) h = Absent-cons k v [] h Absent-nil
  Absent-when_some k none h = Absent-nil

  -- Exports of other names change nothing, behind or in front.
  pub env_var-append-Absent : (xs ys : Exports) → Absent n ys → env_var n (xs ++ ys) ≡ env_var n xs
  unfolding env_var
  env_var-append-Absent [] ys a = a
  env_var-append-Absent ((k, v) ∷ xs) ys a = ground (arith, env_var-append-Absent xs ys)

  pub env_var-Absent-append : (xs ys : Exports) → Absent n xs → env_var n (xs ++ ys) ≡ env_var n ys
  unfolding env_var
  env_var-Absent-append [] ys a = refl
  env_var-Absent-append ((k, v) ∷ xs) ys a = ground (arith, env_var-Absent-append xs ys)

  pub env_var-Absent :
      (v : Text) (xs : Exports)
      → text_eq n n ≡ true
      → Absent n xs
      → env_var n ((n, v) ∷ xs) ≡ some v
  unfolding env_var
  env_var-Absent v xs h a = ground arith

pub ruleset absent = (Absent-nil, Absent-cons, Absent-append, Absent-when, Absent-when_some)

pub Absent-ipv6 :
    (n : Text) (o : Option Ipv6Static)
    → text_eq (codes "CARGO_UNIKERNEL_IPV6_STATIC") n ≡ false
    → text_eq (codes "CARGO_UNIKERNEL_IPV6_GATEWAY") n ≡ false
    → text_eq (codes "CARGO_UNIKERNEL_IPV6_IFACE") n ≡ false
    → Absent n (ipv6_exports o)
unfolding ipv6_exports
Absent-ipv6 n none s g i = Absent-nil n
Absent-ipv6 n (some v6) s g i = search absent

-- The value of a name is that in the one group of exports that has it.
module _ (n : Text) (c : Config) where
  pub in_id_and_env :
      Absent n (limit_exports c.app.runtime.limits)
      → Absent n (ipv6_exports c.network.ipv6_static)
      → Absent n (sysctl_exports c.hardening.extra_sysctls)
      → Absent n (tmpfs_exports c.storage.tmpfs)
      → Absent n (landlock_exports c.app.runtime.landlock)
      → Absent n (network_exports c.network)
      → env_var n (app_env_exports c) ≡ env_var n (id_and_env_exports c.app.runtime)
  unfolding app_env_exports
  in_id_and_env a b c d e f = env_var-append-Absent n _ _ (search absent)

  pub in_limits :
      Absent n (id_and_env_exports c.app.runtime)
      → Absent n (ipv6_exports c.network.ipv6_static)
      → Absent n (sysctl_exports c.hardening.extra_sysctls)
      → Absent n (tmpfs_exports c.storage.tmpfs)
      → Absent n (landlock_exports c.app.runtime.landlock)
      → Absent n (network_exports c.network)
      → env_var n (app_env_exports c) ≡ env_var n (limit_exports c.app.runtime.limits)
  unfolding app_env_exports
  in_limits a b c d e f =
      env_var-Absent-append n _ _ a ∙ env_var-append-Absent n _ _ (search absent)

  pub in_ipv6 :
      Absent n (id_and_env_exports c.app.runtime)
      → Absent n (limit_exports c.app.runtime.limits)
      → Absent n (sysctl_exports c.hardening.extra_sysctls)
      → Absent n (tmpfs_exports c.storage.tmpfs)
      → Absent n (landlock_exports c.app.runtime.landlock)
      → Absent n (network_exports c.network)
      → env_var n (app_env_exports c) ≡ env_var n (ipv6_exports c.network.ipv6_static)
  unfolding app_env_exports
  in_ipv6 a b c d e f =
      env_var-Absent-append n _ _ a
      ∙ env_var-Absent-append n _ _ b
      ∙ env_var-append-Absent n _ _ (search absent)

  pub in_sysctls :
      Absent n (id_and_env_exports c.app.runtime)
      → Absent n (limit_exports c.app.runtime.limits)
      → Absent n (ipv6_exports c.network.ipv6_static)
      → Absent n (tmpfs_exports c.storage.tmpfs)
      → Absent n (landlock_exports c.app.runtime.landlock)
      → Absent n (network_exports c.network)
      → env_var n (app_env_exports c) ≡ env_var n (sysctl_exports c.hardening.extra_sysctls)
  unfolding app_env_exports
  in_sysctls a b c d e f =
      env_var-Absent-append n _ _ a
      ∙ env_var-Absent-append n _ _ b
      ∙ env_var-Absent-append n _ _ c
      ∙ env_var-append-Absent n _ _ (search absent)

  pub in_landlock :
      Absent n (id_and_env_exports c.app.runtime)
      → Absent n (limit_exports c.app.runtime.limits)
      → Absent n (ipv6_exports c.network.ipv6_static)
      → Absent n (sysctl_exports c.hardening.extra_sysctls)
      → Absent n (tmpfs_exports c.storage.tmpfs)
      → Absent n (network_exports c.network)
      → env_var n (app_env_exports c) ≡ env_var n (landlock_exports c.app.runtime.landlock)
  unfolding app_env_exports
  in_landlock a b c d e f =
      env_var-Absent-append n _ _ a
      ∙ env_var-Absent-append n _ _ b
      ∙ env_var-Absent-append n _ _ c
      ∙ env_var-Absent-append n _ _ d
      ∙ env_var-Absent-append n _ _ e
      ∙ env_var-append-Absent n _ _ (search absent)

  pub in_network :
      Absent n (id_and_env_exports c.app.runtime)
      → Absent n (limit_exports c.app.runtime.limits)
      → Absent n (ipv6_exports c.network.ipv6_static)
      → Absent n (sysctl_exports c.hardening.extra_sysctls)
      → Absent n (tmpfs_exports c.storage.tmpfs)
      → Absent n (landlock_exports c.app.runtime.landlock)
      → env_var n (app_env_exports c) ≡ env_var n (network_exports c.network)
  unfolding app_env_exports
  in_network a b c d e f =
      env_var-Absent-append n _ _ a
      ∙ env_var-Absent-append n _ _ b
      ∙ env_var-Absent-append n _ _ c
      ∙ env_var-Absent-append n _ _ d
      ∙ env_var-Absent-append n _ _ e
      ∙ env_var-Absent-append n _ _ f
