-- ===== src/Pipeline/Measurement.antt =====
-- src/pipeline/measurement.rs: the read-back of the launch measurement and the record of its inputs.
-- What the container has left is the input.
pub mod Records
use cargo_unikernel.Common.{
  ℕ, ◌≡◌, refl, Bool, true, ◌&&◌, ◌||◌, not, leb, ◌==◌, [], length, Option, none, some, Result, ok,
  ◌>>=◌, ◌>>◌, ok_or, reject_if, ◌⊎◌, inl, inr, any,
}
use cargo_unikernel.Std.Text.{Text, trim}
use cargo_unikernel.Schema.Types.{Config, SevSnp, ProfileKind}
use cargo_unikernel.Schema.Promises.Profile.{sev_snp-Measured}

pub record ComponentHashes : Type 0 where
  pub kernel_sha256 : Option Text
  pub cpio_sha256 : Option Text
  pub app_sha256 : Option Text
  pub guest_init_sha256 : Option Text
  pub ovmf_sha256 : Option Text

-- The file of the measurement, if one was made, and what it reads as; whether the sidecar could be
-- written.
pub record Produced : Type 0 where
  pub sev_measurement : Option (Option Text)
  pub component_hashes : ComponentHashes
  pub sidecar_written : Bool

pub record Sidecar : Type 0 where
  pub measurement_sha384 : Text
  pub vcpus : ℕ
  pub vcpu_type : Text
  pub kernel_cmdline : Text
  pub ovmf_source : Text
  pub component_sha256 : ComponentHashes

pub data MeasurementError : Type 0 where
  not_produced not_readable not_sha384 no_section not_written : MeasurementError

-- `is_ascii_hexdigit`.
unfoldable pub is_ascii_hexdigit : ℕ → Bool
is_ascii_hexdigit c =
    (leb b'0' c && leb c b'9') || ((leb b'a' c && leb c b'f') || (leb b'A' c && leb c b'F'))

unfoldable pub is_sha384 : Text → Bool
unfolding is_ascii_hexdigit
is_sha384 hex = length hex == 96 && not (any (λ c. not (is_ascii_hexdigit c)) hex)

-- `preset.or_else(path).unwrap_or_default()`.
abbrev pub ovmf_source_of : Option Text → Option Text → Text
ovmf_source_of (some preset) path = preset
ovmf_source_of none (some path) = path
ovmf_source_of none none = []

unfoldable pub sidecar_of : Text → SevSnp → ComponentHashes → Sidecar
sidecar_of hex sev hashes = record {
  measurement_sha384 = hex;
  vcpus = sev.vcpus;
  vcpu_type = sev.vcpu_type;
  kernel_cmdline = sev.kernel_cmdline;
  ovmf_source = ovmf_source_of sev.ovmf.preset sev.ovmf.path;
  component_sha256 = record {
    kernel_sha256 = hashes.kernel_sha256;
    cpio_sha256 = hashes.cpio_sha256;
    app_sha256 = hashes.app_sha256;
    guest_init_sha256 = hashes.guest_init_sha256;
    ovmf_sha256 = hashes.ovmf_sha256;
  };
}

-- The measurement, and the sidecar that was written.
unfoldable pub compute : Config → Produced → Result MeasurementError (Text × Sidecar)
unfolding is_sha384 sidecar_of
compute c artifacts = do
  file ← ok_or artifacts.sev_measurement not_produced
  raw ← ok_or file not_readable
  reject_if (not (is_sha384 (trim raw))) not_sha384
  sev ← ok_or c.sev_snp no_section
  reject_if (not artifacts.sidecar_written) not_written
  ok (trim raw, sidecar_of (trim raw) sev artifacts.component_hashes)
