-- ===== src/Loading/Overrides.antt =====
-- src/config/overrides.rs: the flags of the command line over a config.
pub mod Applied
use cargo_unikernel.Common.{
  ℕ, ◌≡◌, refl, subst, Bool, true, false, List, [], ◌∷◌, Option, none, some, Result, ok, err, ◌>>=◌,
  ◌>>◌, ok_or, traverse, Holds, bind-Holds, after-Holds, if◌then◌else◌,
}
use cargo_unikernel.Std.Text.{Text, codes, text_eq, trim}
use cargo_unikernel.Schema.Types.{Config, ProfileKind, SevSnp, OutputFormat}
use cargo_unikernel.Schema.Errors.{ValidationError}
use cargo_unikernel.Schema.Validate.{validate}

pub data ProfileArg : Type 0 where
  casual_arg sev_snp_arg : ProfileArg

pub record BuildOverrides : Type 0 where
  pub format : Option (List Text)
  pub profile : Option ProfileArg
  pub vcpus : Option ℕ
  pub vcpu_type : Option Text

pub data OverrideError : Type 0 where
  unknown_format : Text → OverrideError
  vcpus_requires_sev_snp vcpu_type_requires_sev_snp : OverrideError
  invalid_config : ValidationError → OverrideError

abbrev pub kind_of : ProfileArg → ProfileKind
kind_of ProfileArg.casual_arg = ProfileKind.casual
kind_of ProfileArg.sev_snp_arg = ProfileKind.sev_snp

unfoldable pub override_profile : Option ProfileArg → Config → Config
override_profile none config = config
override_profile (some arg) config = record config { profile = record { kind = kind_of arg } }

unfoldable pub parse_format : Text → Result OverrideError OutputFormat
parse_format f =
    let name = trim f in
    if text_eq name (codes "cpio")
    then ok OutputFormat.cpio
    else if text_eq name (codes "uki")
    then ok OutputFormat.uki
    else if text_eq name (codes "binary")
    then ok OutputFormat.binary
    else err (unknown_format name)

unfoldable pub override_format : Option (List Text) → Config → Result OverrideError Config
override_format none config = ok config
override_format (some formats) config = do
  parsed ← traverse parse_format formats
  ok (record config { output = record { formats = parsed; dir = config.output.dir } })

unfoldable pub override_vcpus : Option ℕ → Config → Result OverrideError Config
override_vcpus none config = ok config
override_vcpus (some vcpus) config = do
  snp ← ok_or config.sev_snp vcpus_requires_sev_snp
  ok (record config { sev_snp = some (record snp { vcpus = vcpus }) })

unfoldable pub override_vcpu_type : Option Text → Config → Result OverrideError Config
override_vcpu_type none config = ok config
override_vcpu_type (some vcpu_type) config = do
  snp ← ok_or config.sev_snp vcpu_type_requires_sev_snp
  ok (record config { sev_snp = some (record snp { vcpu_type = vcpu_type }) })

-- `config.validate()?; Ok(config)`.
unfoldable pub validated : Config → Result OverrideError Config
validated config = elim (validate config) [ ok _ ↦ ok config | err e ↦ err (invalid_config e) ]

unfoldable pub apply_overrides : Config → BuildOverrides → Result OverrideError Config
unfolding override_profile override_format override_vcpus override_vcpu_type validated
apply_overrides config overrides = do
  formatted ← override_format overrides.format (override_profile overrides.profile config)
  sized ← override_vcpus overrides.vcpus formatted
  typed ← override_vcpu_type overrides.vcpu_type sized
  validated typed
