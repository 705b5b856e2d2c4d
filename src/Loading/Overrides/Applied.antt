-- ===== src/Loading/Overrides/Applied.antt =====
-- What the flags of src/config/overrides.rs make of a config.
use cargo_unikernel.Common.{
  ℕ, ◌≡◌, refl, subst, List, Option, none, some, Result, ok, err, ◌>>=◌, traverse, ap, Option-cases,
  inl, inr, Holds, bind-Holds,
}
use cargo_unikernel.Std.Text.{Text}
use cargo_unikernel.Schema.Types.{Config, ProfileKind, OutputFormat, SevSnp}
use cargo_unikernel.Schema.Errors.{ValidationError}
use cargo_unikernel.Schema.Validate.{validate}
use cargo_unikernel.Loading.Overrides.{
  ProfileArg, BuildOverrides, OverrideError, invalid_config, kind_of, override_profile,
  parse_format, override_format, override_vcpus, override_vcpu_type, validated, apply_overrides,
}

-- The kind that the flag asks for, or the config's.
abbrev pub kind_after : Option ProfileArg → ProfileKind → ProfileKind
kind_after none kind = kind
kind_after (some arg) kind = kind_of arg

-- The formats that the flag asks for, or the config's.
abbrev pub FormatsAfter : Option (List Text) → List OutputFormat → List OutputFormat → Type 0
FormatsAfter none formats after = after ≡ formats
FormatsAfter (some names) formats after = traverse parse_format names ≡ ok after

-- The flag, or else what the section has.
abbrev pub or_kept : {A : Type 0} → Option A → A → A
or_kept none kept = kept
or_kept (some flag) kept = flag

-- The section of SEV-SNP: with the vCPUs and the type that the flags name, and the rest as it was;
-- without a section neither flag is given.
abbrev pub SnpAfter : Option ℕ → Option Text → Option SevSnp → Option SevSnp → Type 0
SnpAfter vcpus vcpu_type none after = (after ≡ none) × (vcpus ≡ none) × (vcpu_type ≡ none)
SnpAfter vcpus vcpu_type (some snp) after =
    after
    ≡ some (record snp {
      vcpus = or_kept vcpus snp.vcpus;
      vcpu_type = or_kept vcpu_type snp.vcpu_type;
    })

-- Everything but the section of SEV-SNP.
abbrev pub Outside : Config → BuildOverrides → Config → Type 0
Outside config overrides after =
    (record after { profile = config.profile; output = config.output; sev_snp = config.sev_snp }
      ≡ config)
    × (after.output.dir ≡ config.output.dir)
    × (after.profile.kind ≡ kind_after overrides.profile config.profile.kind)
    × FormatsAfter overrides.format config.output.formats after.output.formats

-- With a section as some flags for it make it.
abbrev pub OverriddenBy : Config → BuildOverrides → Option ℕ → Option Text → Config → Type 0
OverriddenBy config overrides vcpus vcpu_type after =
    Outside config overrides after × SnpAfter vcpus vcpu_type config.sev_snp after.sev_snp

abbrev pub Overridden : Config → BuildOverrides → Config → Type 0
Overridden config overrides after =
    OverriddenBy config overrides overrides.vcpus overrides.vcpu_type after

abbrev with_vcpus : ℕ → Option SevSnp → Option SevSnp
with_vcpus n none = none
with_vcpus n (some snp) = some (record snp { vcpus = n })

abbrev with_vcpu_type : Text → Option SevSnp → Option SevSnp
with_vcpu_type t none = none
with_vcpu_type t (some snp) = some (record snp { vcpu_type = t })

SnpAfter-same : (section : Option SevSnp) → SnpAfter none none section section
SnpAfter-same none = (refl, refl, refl)
SnpAfter-same (some snp) = refl

SnpAfter-vcpus :
    (n : ℕ) (section : Option SevSnp) (snp : SevSnp)
    → SnpAfter none none section (some snp)
    → SnpAfter (some n) none section (some (record snp { vcpus = n }))
SnpAfter-vcpus n none snp h = let none_there = h.0 in absurd (cc)
SnpAfter-vcpus n (some kept) snp h = ap (with_vcpus n) h

SnpAfter-vcpu_type :
    (vcpus : Option ℕ) (t : Text) (section : Option SevSnp) (snp : SevSnp)
    → SnpAfter vcpus none section (some snp)
    → SnpAfter vcpus (some t) section (some (record snp { vcpu_type = t }))
SnpAfter-vcpu_type vcpus t none snp h = let none_there = h.0 in absurd (cc)
SnpAfter-vcpu_type vcpus t (some kept) snp h = ap (with_vcpu_type t) h

module _ (config : Config) (overrides : BuildOverrides) where
  abbrev Formatted : Config → Type 0
  Formatted after = OverriddenBy config overrides none none after

  abbrev Sized : Config → Type 0
  Sized after = OverriddenBy config overrides overrides.vcpus none after

  traversed-Formatted :
      (profile : Option ProfileArg) (names : List Text)
      → overrides.profile ≡ profile
      → overrides.format ≡ some names
      → (formats : Result OverrideError (List OutputFormat)) → traverse parse_format names ≡ formats
      → Holds Formatted (
          formats >>= λ parsed. ok (record (override_profile profile config) {
            output = record {
              formats = parsed;
              dir = (override_profile profile config).output.dir;
            };
          }))
  unfolding override_profile
  traversed-Formatted none names p f (ok parsed) h =
      rw (p, f) ((refl, refl, refl, h), SnpAfter-same config.sev_snp)
  traversed-Formatted (some arg) names p f (ok parsed) h =
      rw (p, f) ((refl, refl, refl, h), SnpAfter-same config.sev_snp)
  traversed-Formatted profile names p f (err e) h = tt

  unformatted :
      (profile : Option ProfileArg)
      → overrides.profile ≡ profile
      → overrides.format ≡ none
      → Formatted (override_profile profile config)
  unfolding override_profile
  unformatted none p f = rw (p, f) ((refl, refl, refl, refl), SnpAfter-same config.sev_snp)
  unformatted (some arg) p f = rw (p, f) ((refl, refl, refl, refl), SnpAfter-same config.sev_snp)

  format-Formatted :
      (format : Option (List Text))
      → overrides.format ≡ format
      → Holds Formatted (override_format format (override_profile overrides.profile config))
  unfolding override_format
  format-Formatted none f = unformatted overrides.profile refl f
  format-Formatted (some names) f =
      traversed-Formatted overrides.profile names refl f (traverse parse_format names) refl

  vcpus-Sized :
      (vcpus : Option ℕ) (after : Config)
      → Formatted after
      → Holds (OverriddenBy config overrides vcpus none) (override_vcpus vcpus after)
  unfolding override_vcpus
  vcpus-Sized none after h = h
  vcpus-Sized (some n) after h = elim (Option-cases after.sev_snp) [
    | inl missing ↦ rw missing tt
    | inr (snp, e) ↦ rw e (h.0, SnpAfter-vcpus n config.sev_snp snp (rw e at h.1))
  ]

  vcpu_type-Overridden :
      (vcpus : Option ℕ) (vcpu_type : Option Text) (after : Config)
      → OverriddenBy config overrides vcpus none after
      → Holds (OverriddenBy config overrides vcpus vcpu_type) (override_vcpu_type vcpu_type after)
  unfolding override_vcpu_type
  vcpu_type-Overridden vcpus none after h = h
  vcpu_type-Overridden vcpus (some t) after h = elim (Option-cases after.sev_snp) [
    | inl missing ↦ rw missing tt
    | inr (snp, e) ↦ rw e (h.0, SnpAfter-vcpu_type vcpus t config.sev_snp snp (rw e at h.1))
  ]

  abbrev Accepted : Config → Type 0
  Accepted after = (validate after ≡ ok tt) × Overridden config overrides after

  validated-Accepted :
      (after : Config)
      → Overridden config overrides after
      → (checked : Result ValidationError (Unit {0})) → validate after ≡ checked
      → Holds Accepted (elim checked [ ok _ ↦ ok after | err e ↦ err (invalid_config e) ])
  validated-Accepted after h (ok _) v = (v, h)
  validated-Accepted after h (err e) v = tt

  -- If `apply_overrides` returns a config, then that config passes `Config::validate`; it is the
  -- given one but for the profile, the formats, and the vCPUs and their type in the SEV-SNP section;
  -- each of these is what its flag names, and that of the given config without the flag, and a
  -- flag for the section is given only if there is one.
  pub apply_overrides-Accepted :
      (after : Config)
      → apply_overrides config overrides ≡ ok after
      → (validate after ≡ ok tt) × Overridden config overrides after
  unfolding apply_overrides validated
  apply_overrides-Accepted after h = subst (Holds Accepted) h (
      bind-Holds Accepted
        (override_format overrides.format (override_profile overrides.profile config)) _
        (format-Formatted overrides.format refl)
        (λ formatted f.
          bind-Holds Accepted (override_vcpus overrides.vcpus formatted) _
            (vcpus-Sized overrides.vcpus formatted f)
            (λ sized s.
              bind-Holds Accepted (override_vcpu_type overrides.vcpu_type sized) _
                (vcpu_type-Overridden overrides.vcpus overrides.vcpu_type sized s)
                (λ typed t. validated-Accepted typed t (validate typed) refl))))
