-- ===== src/Examples/Loading.antt =====
-- The theorems on where a config comes from, at concrete projects and flags.
use cargo_unikernel.Common.{◌≡◌, refl, [], ◌∷◌, none, some, ok, traverse}
use cargo_unikernel.Std.Text.{codes, text_eq, trim, trim_start, trim_end, is_whitespace}
use cargo_unikernel.Schema.Types.{Config}
use cargo_unikernel.Schema.Validate.{validate}
use cargo_unikernel.Schema.Validate.Sections.{validate_project}
use cargo_unikernel.Loading.AutoDetect.{build_config, binary_app, detect, detect-validate}
use cargo_unikernel.Loading.Overrides.{
  ProfileArg, BuildOverrides, override_profile, override_format, override_vcpus, override_vcpu_type,
  parse_format, validated, apply_overrides,
}
use cargo_unikernel.Loading.Overrides.Applied.{Overridden, apply_overrides-Accepted}
use cargo_unikernel.Examples.Configs.{casual, casual_valid}

abbrev detected : Config
detected = build_config (codes "server.bin") (binary_app (codes "out/server.bin"))

server_detected :
    detect
      (some (record { file_stem = some (codes "server.bin"); path = codes "out/server.bin" }))
      none
      none
    ≡ some detected
unfolding detect
server_detected = refl

detect-validate_example : validate detected ≡ validate_project detected
detect-validate_example =
    detect-validate
      (some (record { file_stem = some (codes "server.bin"); path = codes "out/server.bin" })) none
      none detected server_detected

-- `--format " cpio" --profile casual`.
abbrev cpio_flag : BuildOverrides
cpio_flag = record {
  format = some (codes " cpio" ∷ []);
  profile = some ProfileArg.casual_arg;
  vcpus = none;
  vcpu_type = none;
}

validated-casual : validated casual ≡ ok casual
unfolding validated
validated-casual = rw (validated, casual_valid) refl

cpio_applied : apply_overrides casual cpio_flag ≡ ok casual
unfolding apply_overrides override_profile override_format override_vcpus override_vcpu_type
    parse_format traverse trim trim_start trim_end is_whitespace text_eq
cpio_applied = validated-casual

apply_overrides-Accepted_example : (validate casual ≡ ok tt) × Overridden casual cpio_flag casual
apply_overrides-Accepted_example = apply_overrides-Accepted casual cpio_flag casual cpio_applied
