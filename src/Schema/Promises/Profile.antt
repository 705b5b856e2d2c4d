-- ===== src/Schema/Promises/Profile.antt =====
-- What the profile of a validated config (src/schema.rs) promises about its pins and its
-- launch measurement.
use cargo_unikernel.Common.{
  ◌≡◌, ◌≢◌, ap, refl, true, false, not, any, List, [], ◌∷◌, ◌⊎◌, inl, inr, Bool-cases, subst,
  Option, none, some, arith, ok,
}
use cargo_unikernel.Std.Text.{Text, codes, text_eq, text_eq_iff, is_blank}
use cargo_unikernel.Schema.Types.{Config, ProfileKind, SevSnp, MeasuredBoot, OutputFormat}
use cargo_unikernel.Schema.Validate.{validate}
use cargo_unikernel.Schema.Validate.Checked.{validate-Checked}
use cargo_unikernel.Schema.Validate.Sections.{
  cli_version, is_some, check_pinned, validate_project, check_profile, validate_profile, check_ovmf,
  is_uki, is_measured_uki, is_latest,
}

-- A list that has the format.
unfoldable pub Has : OutputFormat → List OutputFormat → Type 0
Has f [] = ⊥
Has f (x ∷ xs) = (x ≡ f) ⊎ Has f xs

pub record Measured (c : Config) (snp : SevSnp) : Type 0 where
  pub section : c.sev_snp ≡ some snp
  pub version : c.project.cargo_unikernel_version ≡ some cli_version
  pub snapshot : c.toolchain.apt_snapshot ≢ some (codes "latest")
  pub vcpus : snp.vcpus ≢ 0
  pub vcpu_type : is_blank snp.vcpu_type ≡ false
  pub one_ovmf : is_some snp.ovmf.preset ≡ not (is_some snp.ovmf.path)
  pub uki_built :
      (snp.measured_boot ≢ some MeasuredBoot.uki) ⊎ Has OutputFormat.uki c.output.formats

uki-Has : (formats : List OutputFormat) → any is_uki formats ≡ true → Has OutputFormat.uki formats
unfolding any Has
uki-Has [] h = absurd (cc)
uki-Has (OutputFormat.uki ∷ xs) h = inl refl
uki-Has (OutputFormat.cpio ∷ xs) h = inr (uki-Has xs h)
uki-Has (OutputFormat.binary ∷ xs) h = inr (uki-Has xs h)

pinned-eq :
    (pin : Option Text) → is_some pin ≡ true → check_pinned pin ≡ ok tt → pin ≡ some cli_version
unfolding check_pinned
pinned-eq none h k = absurd (cc)
pinned-eq (some v) h k = ap some ((text_eq_iff v cli_version).0 (ground arith))

not_latest :
    (snapshot : Option Text) → is_latest snapshot ≡ false → snapshot ≢ some (codes "latest")
not_latest none h = λ e. absurd (cc)
not_latest (some s) h = λ e.
    let same : s ≡ codes "latest" = cc in
    let t : text_eq s (codes "latest") ≡ true = (text_eq_iff s (codes "latest")).1 same in
    absurd (cc)

one_source :
    (preset path : Option Text)
    → check_ovmf preset path ≡ ok tt
    → is_some preset ≡ not (is_some path)
unfolding check_ovmf
one_source (some a) (some b) h = absurd (cc)
one_source (some a) none h = refl
one_source none (some b) h = refl
one_source none none h = absurd (cc)

section-Measured :
    (c : Config) (section : Option SevSnp)
    → c.sev_snp ≡ section
    → check_pinned c.project.cargo_unikernel_version ≡ ok tt
    → check_profile ProfileKind.sev_snp c ≡ ok tt
    → (snp : SevSnp) × Measured c snp
unfolding check_profile
section-Measured c none e p h = absurd (ground arith)
section-Measured c (some snp) e p h = (
  snp,
  record {
    section = e;
    version = pinned-eq c.project.cargo_unikernel_version (ground arith) p;
    snapshot = not_latest c.toolchain.apt_snapshot (ground arith);
    vcpus = ground arith;
    vcpu_type = ground arith;
    one_ovmf = one_source snp.ovmf.preset snp.ovmf.path (ground arith);
    uki_built = elim (Bool-cases (is_measured_uki snp.measured_boot)) [
      | inl uki ↦ inr (uki-Has c.output.formats (built uki))
      | inr other ↦ inl (λ m. not_uki other m)
    ];
  },
)
  where
    built : is_measured_uki snp.measured_boot ≡ true → any is_uki c.output.formats ≡ true
    built m = ground arith

    not_uki :
        is_measured_uki snp.measured_boot ≡ false → snp.measured_boot ≡ some MeasuredBoot.uki → ⊥
    not_uki other m =
        absurd (let t : is_measured_uki snp.measured_boot ≡ true = ap is_measured_uki m in cc)

-- A config for SEV-SNP that passes `validate` has a `[sev_snp]` section with vCPUs, a vCPU type and
-- exactly one source of OVMF, pins this version of the tool and not the latest packages, and
-- builds a UKI if that is what is measured.
pub sev_snp-Measured :
    (c : Config)
    → validate c ≡ ok tt
    → c.profile.kind ≡ ProfileKind.sev_snp
    → (snp : SevSnp) × Measured c snp
unfolding validate_project validate_profile
sev_snp-Measured c h k =
    let v = validate-Checked c h in
    section-Measured c c.sev_snp refl (ground (arith, v.project))
      (subst (λ p. check_profile p c ≡ ok tt) k v.profile)
