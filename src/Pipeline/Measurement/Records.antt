-- ===== src/Pipeline/Measurement/Records.antt =====
-- When `compute` of src/pipeline/measurement.rs succeeds, and what its record says.
use cargo_unikernel.Common.{
  ℕ, ◌≡◌, ◌↔◌, ◌⊎◌, inl, inr, refl, sym, subst, ◌∙◌, true, false, not, any, All, [], ◌∷◌, length,
  Option, none, some, Result, ok, arith, Bool-cases, Option-cases,
}
use cargo_unikernel.Std.Text.{Text, codes, trim, contains}
use cargo_unikernel.Schema.Types.{Config, SevSnp, ProfileKind}
use cargo_unikernel.Schema.Validate.{validate}
use cargo_unikernel.Schema.Validate.Sections.{is_some}
use cargo_unikernel.Schema.Promises.Profile.{Measured, sev_snp-Measured}
use cargo_unikernel.Pipeline.Cmdline.{cmdline_for}
use cargo_unikernel.Pipeline.Measurement.{
  Produced, Sidecar, MeasurementError, is_ascii_hexdigit, is_sha384, ovmf_source_of, sidecar_of,
  compute,
}

-- The one source of the firmware that is set.
abbrev pub Source : Option Text → Option Text → Text → Type 0
Source preset path source =
    ((preset ≡ some source) × (path ≡ none)) ⊎ ((preset ≡ none) × (path ≡ some source))

-- 96 hexadecimal digits.
abbrev pub Sha384 : Text → Type 0
Sha384 hex = (length hex ≡ 96) × All (λ c. contains c (codes "0123456789abcdefABCDEF") ≡ true) hex

-- The file has the digits, and the sidecar has them, the config's vCPUs and their type, the
-- command line that the build boots with, the firmware's source, and the hash of each component.
abbrev pub SidecarFor : Config → Produced → Text → Sidecar → Type 0
SidecarFor c artifacts hex sidecar =
    (raw : Text) × (snp : SevSnp) × (source : Text) × (artifacts.sev_measurement ≡ some (some raw))
    × (hex ≡ trim raw)
    × Sha384 hex
    × (artifacts.sidecar_written ≡ true)
    × (c.sev_snp ≡ some snp)
    × Source snp.ovmf.preset snp.ovmf.path source
    × (sidecar ≡ record {
      measurement_sha384 = hex;
      vcpus = snp.vcpus;
      vcpu_type = snp.vcpu_type;
      kernel_cmdline = cmdline_for c;
      ovmf_source = source;
      component_sha256 = artifacts.component_hashes;
    })

ovmf_source_of-Source :
    (preset path : Option Text)
    → is_some preset ≡ not (is_some path)
    → Source preset path (ovmf_source_of preset path)
ovmf_source_of-Source (some p) none h = inl (refl, refl)
ovmf_source_of-Source none (some p) h = inr (refl, refl)
ovmf_source_of-Source (some p) (some q) h = absurd (cc)
ovmf_source_of-Source none none h = absurd (cc)

Source-ovmf_source_of :
    (preset path : Option Text) (source : Text)
    → Source preset path source
    → ovmf_source_of preset path ≡ source
Source-ovmf_source_of preset path source (inl (e, k)) = rw e refl
Source-ovmf_source_of preset path source (inr (e, k)) = rw (e, k) refl

hexdigit_listed : (c : ℕ) → is_ascii_hexdigit c ≡ contains c (codes "0123456789abcdefABCDEF")
unfolding is_ascii_hexdigit contains
hexdigit_listed c = ground arith

digits_listed :
    (hex : Text)
    → any (λ c. not (is_ascii_hexdigit c)) hex ≡ false
    → All (λ c. contains c (codes "0123456789abcdefABCDEF") ≡ true) hex
unfolding any
digits_listed [] h = tt
digits_listed (c ∷ hex) h =
    let digit : is_ascii_hexdigit c ≡ true = ground arith in
    (sym (hexdigit_listed c) ∙ digit, digits_listed hex (ground arith))

digits_only :
    (hex : Text)
    → All (λ c. contains c (codes "0123456789abcdefABCDEF") ≡ true) hex
    → any (λ c. not (is_ascii_hexdigit c)) hex ≡ false
unfolding any
digits_only [] h = refl
digits_only (c ∷ hex) h = rw (hexdigit_listed c, h.0, digits_only hex h.1) refl

is_sha384-Sha384 : (hex : Text) → is_sha384 hex ≡ true → Sha384 hex
unfolding is_sha384
is_sha384-Sha384 hex h = (ground arith, digits_listed hex (ground arith))

Sha384-is_sha384 : (hex : Text) → Sha384 hex → is_sha384 hex ≡ true
unfolding is_sha384
Sha384-is_sha384 hex h = rw (h.0, digits_only hex h.1) refl

cmdline_for-section :
    (c : Config) (snp : SevSnp) → c.sev_snp ≡ some snp → cmdline_for c ≡ snp.kernel_cmdline
unfolding cmdline_for
cmdline_for-section c snp h = rw h refl

recorded_so :
    (c : Config) (artifacts : Produced) (hex : Text) (sidecar : Sidecar) (snp : SevSnp)
    → Measured c snp
    → compute c artifacts ≡ ok (hex, sidecar)
    → SidecarFor c artifacts hex sidecar
unfolding compute sidecar_of
recorded_so c artifacts hex sidecar snp m h = elim (Option-cases artifacts.sev_measurement) [
  | inl missing ↦ absurd (let failed = rw missing at h in cc)
  | inr (file, made) ↦ elim (Option-cases file) [
    | inl unread ↦ absurd (let failed = rw unread at (rw made at h) in cc)
    | inr (raw, read) ↦ elim (Bool-cases (is_sha384 (trim raw))) [
      | inr bad ↦ absurd (let failed = rw bad at (rw read at (rw made at h)) in cc)
      | inl good ↦ elim (Bool-cases artifacts.sidecar_written) [
        | inr lost ↦ absurd (
            let failed = rw lost at (rw m.section at (rw good at (rw read at (rw made at h)))) in
            cc)
        | inl written ↦
            let ended : Path (Result MeasurementError (Text × Sidecar))
                (ok (trim raw, sidecar_of (trim raw) snp artifacts.component_hashes))
                (ok (hex, sidecar)) =
              rw written at (rw m.section at (rw good at (rw read at (rw made at h)))) in
            let digits : trim raw ≡ hex = cc in
            let record_is : sidecar_of (trim raw) snp artifacts.component_hashes ≡ sidecar = cc in
            (
              raw,
              snp,
              ovmf_source_of snp.ovmf.preset snp.ovmf.path,
              rw (made, read) refl,
              sym digits,
              subst Sha384 digits (is_sha384-Sha384 (trim raw) good),
              written,
              m.section,
              ovmf_source_of-Source snp.ovmf.preset snp.ovmf.path m.one_ovmf,
              sym record_is ∙ rw (digits, cmdline_for-section c snp m.section) refl,
            )
      ]
    ]
  ]
]

records_so :
    (c : Config) (artifacts : Produced) (hex : Text) (sidecar : Sidecar)
    → SidecarFor c artifacts hex sidecar
    → compute c artifacts ≡ ok (hex, sidecar)
unfolding compute sidecar_of
records_so c artifacts hex sidecar (raw, snp, source, made, digits, sha, written, section, one, e) =
    let good : is_sha384 (trim raw) ≡ true =
      Sha384-is_sha384 (trim raw) (subst Sha384 digits sha) in
    let from = Source-ovmf_source_of snp.ovmf.preset snp.ovmf.path source one in
    rw (compute, made, good, section, written, e, digits, from, cmdline_for-section c snp section)
      refl

-- If a config for SEV-SNP passes `validate`, `compute` returns a measurement and writes a sidecar if,
-- and only if, the container has left a readable file with 96 hexadecimal digits in white space and
-- the sidecar can be written; the measurement is the digits, and the sidecar names them, the
-- config's vCPUs and their type, the command line that the build boots with, the one source of
-- the firmware that is set, and the hash of each component under its own name.
pub compute_records_iff :
    (c : Config) (artifacts : Produced) (hex : Text) (sidecar : Sidecar)
    → validate c ≡ ok tt
    → c.profile.kind ≡ ProfileKind.sev_snp
    → (compute c artifacts ≡ ok (hex, sidecar)) ↔ SidecarFor c artifacts hex sidecar
compute_records_iff c artifacts hex sidecar h kind =
    let (snp, m) = sev_snp-Measured c h kind in
    (recorded_so c artifacts hex sidecar snp m, records_so c artifacts hex sidecar)
