-- ===== src/Guest/Baked.antt =====
-- What the guest reads from its baked-in constants: `passthrough` of guest/build.rs and the
-- parsers of guest/src/main.rs. `fatal_shutdown` does not return, so it is an error here.
use cargo_unikernel.Common.{
  ℕ, ◌*◌, ◌^◌, ◌-◌, Bool, ◌||◌, not, List, [], ◌∷◌, Option, none, some, is_empty, retain, leb, ◌==◌,
  if◌then◌else◌, Result, ok, err, ◌>>=◌, ◌>>◌, ok_or, reject_if, traverse,
}
use cargo_unikernel.Std.Text.{Text, codes, text_eq, split, split_once, trim_end}
use cargo_unikernel.Std.Decimal.{parse_uint}

-- The variable's value in the environment; the last export counts.
unfoldable pub env_var : Text → List (Text × Text) → Option Text
env_var name [] = none
env_var name ((k, v) ∷ rest) = elim (env_var name rest) [
  | some w ↦ some w
  | none ↦ if text_eq k name then some v else none
]

unfoldable pub first_line : Text → Text
first_line [] = []
first_line (c ∷ s) = let rest = first_line s in if c == 10 then [] else c ∷ rest

-- What Cargo makes of `cargo:rustc-env=NAME=value`: it takes the output a line at a time, without
-- the white space around it. That a further line of the value may be an instruction too is not
-- modelled.
unfoldable pub rustc_env : Text → Text
unfolding first_line
rustc_env value = trim_end (first_line value)

unfoldable pub passthrough : List (Text × Text) → Text → Text → Text
unfolding rustc_env
passthrough exports name default =
    rustc_env (elim (env_var name exports) [ some v ↦ v | none ↦ default ])

pub data Fatal : Type 0 where
  malformed_pair : Text → Text → Fatal
  not_a_number : Text → Fatal
  app_ids_refused : Fatal
  limit_too_large : Text → Fatal
  malformed_inbound : Text → Fatal

unfoldable pub non_empty : Text → Bool
non_empty s = not (is_empty s)

unfoldable pub parse_path_list : Text → List Text
parse_path_list raw = retain non_empty (split b';' raw)

unfoldable pub parse_pair : Text → Text → Result Fatal (Text × Text)
parse_pair what pair = ok_or (split_once b'=' pair) (malformed_pair what pair)

unfoldable pub parse_pairs : Text → Text → Result Fatal (List (Text × Text))
parse_pairs raw what = traverse (parse_pair what) (retain non_empty (split b';' raw))

-- `baked::<u32>` and `baked::<u64>` differ by the largest value.
unfoldable pub baked : ℕ → Text → Text → Result Fatal ℕ
baked max raw what = ok_or (parse_uint max raw) (not_a_number what)

abbrev pub u32_max : ℕ
u32_max = 2 ^ 32 - 1

abbrev pub u64_max : ℕ
u64_max = 2 ^ 64 - 1

unfoldable pub validate_app_ids : ℕ → ℕ → Result Fatal (Unit {0})
validate_app_ids uid gid =
    reject_if (uid == 0 || uid == u32_max || gid == 0 || gid == u32_max) app_ids_refused

unfoldable pub app_ids : Text → Text → Result Fatal (ℕ × ℕ)
app_ids uid_raw gid_raw = do
  uid ← baked u32_max uid_raw (codes "CARGO_UNIKERNEL_APP_UID")
  gid ← baked u32_max gid_raw (codes "CARGO_UNIKERNEL_APP_GID")
  validate_app_ids uid gid
  ok (uid, gid)

abbrev pub mib : ℕ
mib = 1024 * 1024

unfoldable pub limit_mb_bytes : Text → Text → Result Fatal ℕ
limit_mb_bytes raw what = do
  n ← baked u64_max raw what
  if leb (n * mib) u64_max then ok (n * mib) else err (limit_too_large what)

pub record ResourceLimits : Type 0 where
  pub nofile : ℕ
  pub nproc : ℕ
  pub memlock_bytes : ℕ
  pub address_space_bytes : ℕ

unfoldable pub resource_limits : Text → Text → Text → Text → Result Fatal ResourceLimits
resource_limits nofile_raw nproc_raw memlock_raw as_raw = do
  nofile ← baked u64_max nofile_raw (codes "CARGO_UNIKERNEL_LIMIT_NOFILE")
  nproc ← baked u64_max nproc_raw (codes "CARGO_UNIKERNEL_LIMIT_NPROC")
  memlock ← limit_mb_bytes memlock_raw (codes "CARGO_UNIKERNEL_LIMIT_MEMLOCK_MB")
  address_space ← limit_mb_bytes as_raw (codes "CARGO_UNIKERNEL_LIMIT_AS_MB")
  ok (record {
    nofile = nofile;
    nproc = nproc;
    memlock_bytes = memlock;
    address_space_bytes = address_space;
  })
