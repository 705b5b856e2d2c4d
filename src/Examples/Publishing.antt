-- ===== src/Examples/Publishing.antt =====
-- A release of one file, on gh's and git's answers, and a measurement that was read back.
use cargo_unikernel.Common.{
  ◌↔◌, ◌≡◌, refl, true, false, any, List, [], ◌∷◌, ◌++◌, none, some, ok, retain,
}
use cargo_unikernel.Std.Text.{
  Text, codes, text_eq, starts_with, trim, trim_start, trim_end, is_whitespace,
}
use cargo_unikernel.Schema.Types.{SevSnp, MeasuredBoot}
use cargo_unikernel.Pipeline.Measurement.{
  Produced, Sidecar, compute, is_sha384, is_ascii_hexdigit, sidecar_of,
}
use cargo_unikernel.Pipeline.Measurement.Records.{SidecarFor, compute_records_iff}
use cargo_unikernel.Publishing.{
  PublishAnswers, candidate_assets, select_assets, dist_dir_of, publish, join_path, with_slash,
  trim_slashes, host_path, tag_of, resolve_git_tag,
}
use cargo_unikernel.Publishing.Published.{Commanded, release_publishes}
use cargo_unikernel.Publishing.Attached.{Attached}
use cargo_unikernel.Examples.Configs.{casual, casual_valid, measured, measured_valid}

abbrev answers : PublishAnswers
answers = record {
  gh_available = true;
  built = true;
  exists = λ path. text_eq path (codes "/work/dist/my-app.cpio");
  described = some (codes "v1.0\n");
  revision = none;
  has_release = λ tag. false;
  gh_release = λ args. some true;
}

one_asset :
    select_assets answers.exists casual (dist_dir_of (codes "/work") casual)
    ≡ codes "/work/dist/my-app.cpio" ∷ []
unfolding select_assets candidate_assets join_path with_slash trim_slashes host_path starts_with
    text_eq retain any
one_asset = refl

release_publishes_example :
    (lead : List Text) × (assets : List Text) × (publish (codes "/work") none false answers casual
      ≡ ok (codes "v1.0", lead ++ assets))
    × Commanded (codes "/work") casual (codes "v1.0") false lead
    × Attached answers.exists casual (dist_dir_of (codes "/work") casual) assets
unfolding select_assets candidate_assets join_path with_slash trim_slashes host_path starts_with
    text_eq retain any tag_of resolve_git_tag trim trim_start trim_end is_whitespace
release_publishes_example =
    release_publishes (codes "/work") none false answers casual (codes "v1.0") casual_valid refl
      refl refl refl (λ args. refl)

abbrev digits : Text
digits =
    codes
      "0123456789abcdef0123456789abcdef0123456789abcdef0123456789abcdef0123456789abcdef0123456789abcdef"

abbrev produced : Produced
produced = record {
  sev_measurement = some (some (digits ++ codes "\n"));
  component_hashes = record {
    kernel_sha256 = none;
    cpio_sha256 = none;
    app_sha256 = none;
    guest_init_sha256 = none;
    ovmf_sha256 = none;
  };
  sidecar_written = true;
}

abbrev section : SevSnp
section = record {
  vcpus = 2;
  vcpu_type = codes "EPYC-v4";
  kernel_cmdline = codes "console=ttyS0";
  ovmf = record { preset = some (codes "default"); path = none };
  measured_boot = some MeasuredBoot.uki;
}

abbrev sidecar : Sidecar
sidecar = sidecar_of digits section produced.component_hashes

compute_records_iff_example :
    (compute measured produced ≡ ok (digits, sidecar)) ↔ SidecarFor measured produced digits sidecar
compute_records_iff_example =
    compute_records_iff measured produced digits sidecar measured_valid refl

measurement_read : compute measured produced ≡ ok (digits, sidecar)
unfolding compute sidecar_of trim trim_start trim_end is_whitespace is_sha384 is_ascii_hexdigit any
measurement_read = refl
