-- ===== src/Agreement/Baked.antt =====
-- The whole way of a setting: validated by the host, exported by the build script, baked by
-- guest/build.rs and parsed by the guest.
use cargo_unikernel.Common.{
  Bool, false, refl, any, ℕ, ◌≡◌, ◌∙◌, ◌≤◌, ◌*◌, true, ◌||◌, List, [], ◌∷◌, none, some, arith, ok,
  err, is_empty, if◌then◌else◌, ◌==◌, leb, retain, for_each, All,
}
use cargo_unikernel.Std.Text.{Text, codes, join, Lack}
use cargo_unikernel.Std.Decimal.{show, parse_uint-show}
use cargo_unikernel.Schema.Types.{Config}
use cargo_unikernel.Schema.Errors.{
  Table, env_table, sysctls_table, read_paths_table, read_write_paths_table,
}
use cargo_unikernel.Schema.Validate.{validate}
use cargo_unikernel.Schema.Validate.Checked.{validate-Checked}
use cargo_unikernel.Schema.Validate.Entries.{
  validate_kv_encoding, validate_firewall, validate_list_encoding, check_list_entry,
}
use cargo_unikernel.Schema.Validate.Sections.{validate_app}
use cargo_unikernel.Pipeline.Wire.{encode_kv_pairs, encode_inbound, encode_path_list}
use cargo_unikernel.Pipeline.GuestInit.{app_env_exports, has_firewall}
use cargo_unikernel.Std.Solid.{Solid, show-Solid}
use cargo_unikernel.Agreement.Line.{OneLine, rustc_env-OneLine, rustc_env-Solid}
use cargo_unikernel.Agreement.Firewall.Solid.{encode_inbound-Solid}
use cargo_unikernel.Guest.Baked.{
  rustc_env, app_ids_refused, limit_too_large, passthrough, env_var, baked, parse_pairs,
  parse_path_list, non_empty, app_ids, validate_app_ids, limit_mb_bytes, resource_limits, u32_max,
  u64_max, mib,
}
use cargo_unikernel.Guest.Firewall.Rules.{Rule, parse_rules}
use cargo_unikernel.Agreement.Lists.{pieces-join-retain, for_each-All}
use cargo_unikernel.Agreement.Firewall.{RulesFor, parse_rules-encode_inbound}
use cargo_unikernel.Agreement.Pairs.{parse_pairs-encode_kv_pairs}
use cargo_unikernel.Agreement.Exports.{
  uid_name, gid_name, env_name, memlock_name, as_name, nofile_name, nproc_name, sysctls_name,
  firewall_name, read_paths_name, read_write_paths_name, env_var-read_paths,
  env_var-read_write_paths, env_var-uid, env_var-gid, env_var-env, env_var-memlock, env_var-as,
  env_var-nofile, env_var-nproc, env_var-sysctls, env_var-firewall,
}

-- The constant that guest/build.rs bakes for a name, with its default.
abbrev pub baked_value : Config → Text → Text → Text
baked_value c name default = passthrough (app_env_exports c) name default

pub baked-some :
    (c : Config) (name default v : Text)
    → env_var name (app_env_exports c) ≡ some v
    → baked_value c name default ≡ rustc_env v
unfolding passthrough
baked-some c name default v h = rw (h, passthrough)

pub baked-Solid :
    (c : Config) (name default v : Text)
    → env_var name (app_env_exports c) ≡ some v
    → Solid v
    → baked_value c name default ≡ v
baked-Solid c name default v h k = baked-some c name default v h ∙ rustc_env-Solid v k

-- A text that is exported unless it is of nothing.
pub baked_text :
    (c : Config) (name v : Text) (empty : Bool)
    → env_var name (app_env_exports c) ≡ (if empty then none else some v)
    → (empty ≡ true → v ≡ [])
    → OneLine v
    → baked_value c name [] ≡ v
unfolding passthrough any
baked_text c name v true h k l = rw (h, passthrough, k refl) (rustc_env-Solid [] refl)
baked_text c name v false h k l = baked-some c name [] v h ∙ rustc_env-OneLine v l

-- If a config passes `validate` and its filter is built in, the guest parses the exported rules
-- without an error, and they are the rules of the config's entries, in order.
pub firewall_agreement :
    (c : Config)
    → validate c ≡ ok tt
    → has_firewall c.network ≡ true
    → (rs : List Rule) × (parse_rules (baked_value c firewall_name []) ≡ ok rs)
      × RulesFor c.network.firewall.inbound rs
unfolding validate_firewall has_firewall
firewall_agreement c h f =
    let v = validate-Checked c h in
    let (rs, read, fits) = parse_rules-encode_inbound c.network.firewall.inbound (ground arith) in
    (
      rs,
      rw
          (baked-Solid c firewall_name [] (encode_inbound c.network.firewall.inbound)
            (env_var-firewall c ∙ rw f) (encode_inbound-Solid c.network.firewall.inbound rs fits))
          read,
      fits,
    )

no_pairs : (ps : List (Text × Text)) → is_empty ps ≡ true → encode_kv_pairs ps ≡ []
unfolding encode_kv_pairs join
no_pairs [] h = refl
no_pairs (p ∷ ps) h = absurd (cc)

baked_pairs :
    (c : Config) (name : Text) (ps : List (Text × Text)) (what : Text)
    → env_var name (app_env_exports c) ≡ (if is_empty ps then none else some (encode_kv_pairs ps))
    → OneLine (encode_kv_pairs ps)
    → parse_pairs (encode_kv_pairs ps) what ≡ ok ps
    → parse_pairs (baked_value c name []) what ≡ ok ps
baked_pairs c name ps what h l k =
    rw (baked_text c name (encode_kv_pairs ps) (is_empty ps) h (no_pairs ps) l) k

-- If a config passes `validate` and its environment is exported as one line without white space at
-- the end, the guest parses it back to the config's table, entry by entry.
pub env_agreement :
    (c : Config) (what : Text)
    → validate c ≡ ok tt
    → OneLine (encode_kv_pairs c.app.runtime.env)
    → parse_pairs (baked_value c env_name []) what ≡ ok c.app.runtime.env
unfolding validate_kv_encoding
env_agreement c what h l =
    let v = validate-Checked c h in
    baked_pairs c env_name c.app.runtime.env what (env_var-env c) l
      (parse_pairs-encode_kv_pairs env_table what c.app.runtime.env (ground arith))

-- If a config passes `validate` and its sysctls are exported as one line without white space at
-- the end, the guest parses them back to the config's table, entry by entry.
pub sysctls_agreement :
    (c : Config) (what : Text)
    → validate c ≡ ok tt
    → OneLine (encode_kv_pairs c.hardening.extra_sysctls)
    → parse_pairs (baked_value c sysctls_name []) what ≡ ok c.hardening.extra_sysctls
unfolding validate_kv_encoding
sysctls_agreement c what h l =
    let v = validate-Checked c h in
    baked_pairs c sysctls_name c.hardening.extra_sysctls what (env_var-sysctls c) l
      (parse_pairs-encode_kv_pairs sysctls_table what c.hardening.extra_sysctls (ground arith))

baked_number :
    (c : Config) (name default what : Text) (max n : ℕ)
    → n ≤ max
    → env_var name (app_env_exports c) ≡ some (show n)
    → baked max (baked_value c name default) what ≡ ok n
unfolding baked
baked_number c name default what max n h e =
    rw (baked-Solid c name default (show n) e (show-Solid n), parse_uint-show max n h)

-- If a config passes `validate` and its ids fit 32 bits, they reach the guest, which refuses to boot
-- exactly if one of them is 2^32 - 1.
pub app_ids_agreement :
    (c : Config)
    → validate c ≡ ok tt
    → c.app.runtime.uid ≤ u32_max
    → c.app.runtime.gid ≤ u32_max
    → app_ids (baked_value c uid_name (codes "65534")) (baked_value c gid_name (codes "65534")) ≡ (
        if c.app.runtime.uid == u32_max || c.app.runtime.gid == u32_max
        then err app_ids_refused
        else ok (c.app.runtime.uid, c.app.runtime.gid))
unfolding app_ids validate_app_ids validate_app
app_ids_agreement c h u g =
    let v = validate-Checked c h in
    rw
      (
        baked_number c uid_name _ _ u32_max _ u (env_var-uid c),
        baked_number c gid_name _ _ u32_max _ g (env_var-gid c),
      )
      (ground (arith, v.app))

limit_agreement :
    (c : Config) (name default what : Text) (n : ℕ)
    → n ≤ u64_max
    → env_var name (app_env_exports c) ≡ some (show n)
    → limit_mb_bytes (baked_value c name default) what
      ≡ (if leb (n * mib) u64_max then ok (n * mib) else err (limit_too_large what))
unfolding limit_mb_bytes
limit_agreement c name default what n h e = rw (baked_number c name default what u64_max n h e)

-- Resource limits that fit 64 bits reach the guest, the two in MiB as bytes; if one of these does
-- not fit 64 bits as bytes, the guest refuses to boot and names it.
pub resource_limits_agreement :
    (c : Config)
    → c.app.runtime.limits.max_open_files ≤ u64_max
    → c.app.runtime.limits.max_processes ≤ u64_max
    → c.app.runtime.limits.max_locked_memory_mb ≤ u64_max
    → c.app.runtime.limits.max_memory_mb ≤ u64_max
    → resource_limits
        (baked_value c nofile_name (codes "65536"))
        (baked_value c nproc_name (codes "2048"))
        (baked_value c memlock_name (codes "64"))
        (baked_value c as_name (codes "0"))
      ≡ (if leb (c.app.runtime.limits.max_locked_memory_mb * mib) u64_max
          then (if leb (c.app.runtime.limits.max_memory_mb * mib) u64_max
              then ok (record {
                nofile = c.app.runtime.limits.max_open_files;
                nproc = c.app.runtime.limits.max_processes;
                memlock_bytes = c.app.runtime.limits.max_locked_memory_mb * mib;
                address_space_bytes = c.app.runtime.limits.max_memory_mb * mib;
              })
              else err (limit_too_large as_name))
          else err (limit_too_large memlock_name))
unfolding resource_limits
resource_limits_agreement c f p l m =
    rw
      (
        baked_number c nofile_name (codes "65536") nofile_name u64_max _ f (env_var-nofile c),
        baked_number c nproc_name (codes "2048") nproc_name u64_max _ p (env_var-nproc c),
        limit_agreement c memlock_name (codes "64") memlock_name _ l (env_var-memlock c),
        limit_agreement c as_name (codes "0") as_name _ m (env_var-as c),
      )
      (ground arith)

entries-Lack :
    (table : Table) (xs : List Text)
    → All (λ x. check_list_entry table x ≡ ok tt) xs
    → All (Lack b';') xs
unfolding check_list_entry
entries-Lack table [] _ = tt
entries-Lack table (x ∷ xs) (h, hs) = (ground arith, entries-Lack table xs hs)

no_paths : (xs : List Text) → is_empty xs ≡ true → encode_path_list xs ≡ []
unfolding encode_path_list join
no_paths [] h = refl
no_paths (x ∷ xs) h = absurd (cc)

parse_path_list-encode :
    (xs : List Text) (table : Table)
    → for_each (check_list_entry table) xs ≡ ok tt
    → parse_path_list (encode_path_list xs) ≡ retain non_empty xs
unfolding encode_path_list parse_path_list join
parse_path_list-encode xs table k =
    pieces-join-retain xs (entries-Lack table xs (for_each-All (check_list_entry table) xs k))

pub baked_paths :
    (c : Config) (name : Text) (xs : List Text) (table : Table)
    → env_var name (app_env_exports c) ≡ (if is_empty xs then none else some (encode_path_list xs))
    → OneLine (encode_path_list xs)
    → for_each (check_list_entry table) xs ≡ ok tt
    → parse_path_list (baked_value c name []) ≡ retain non_empty xs
baked_paths c name xs table h l k =
    rw (baked_text c name (encode_path_list xs) (is_empty xs) h (no_paths xs) l)
      (parse_path_list-encode xs table k)

-- If a config passes `validate`, has Landlock on, and each of its two lists of paths is exported as
-- one line without white space at the end, the guest gets the config's extra paths, in order
-- and without the empty ones.
pub landlock_agreement :
    (c : Config)
    → validate c ≡ ok tt
    → c.app.runtime.landlock.enabled ≡ true
    → OneLine (encode_path_list c.app.runtime.landlock.extra_read_paths)
    → OneLine (encode_path_list c.app.runtime.landlock.extra_read_write_paths)
    → (parse_path_list (baked_value c read_paths_name [])
        ≡ retain non_empty c.app.runtime.landlock.extra_read_paths)
      × (parse_path_list (baked_value c read_write_paths_name [])
          ≡ retain non_empty c.app.runtime.landlock.extra_read_write_paths)
unfolding validate_list_encoding
landlock_agreement c h on l w =
    let v = validate-Checked c h in
    (
      baked_paths c read_paths_name _ read_paths_table (env_var-read_paths c ∙ rw on) l
          (ground arith),
      baked_paths c read_write_paths_name _ read_write_paths_table
          (env_var-read_write_paths c ∙ rw on) w (ground arith),
    )
