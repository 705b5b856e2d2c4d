-- ===== src/Agreement/Sysctls.antt =====
-- `[hardening].extra_sysctls` from the config to the writes: src/schema.rs, the two build scripts,
-- and `parse_pairs` and `apply_extra` in the guest.
use cargo_unikernel.Common.{
  ◌≡◌, refl, ap, ◌∙◌, List, [], ◌∷◌, ◌++◌, append_assoc, append-nil, map, ok, for_each, arith,
}
use cargo_unikernel.Std.Text.{Text}
use cargo_unikernel.Schema.Types.{Config}
use cargo_unikernel.Schema.Validate.{validate}
use cargo_unikernel.Schema.Validate.Checked.{validate-Checked}
use cargo_unikernel.Schema.Validate.Entries.{check_sysctl_path, validate_extra_sysctl_paths}
use cargo_unikernel.Guest.Baked.{parse_pairs}
use cargo_unikernel.Guest.Hardening.{
  Knob, Written, done, no_such_file, write_error, Sysctls, SysctlAnswers, HardeningFeatures,
  attempts, note_written, write_sysctl, apply_extra, apply, apply_categories, untouched,
}
use cargo_unikernel.Guest.Hardening.Confined.{checked-is_sysctl_path}
use cargo_unikernel.Pipeline.Wire.{encode_kv_pairs}
use cargo_unikernel.Agreement.Line.{OneLine}
use cargo_unikernel.Agreement.Exports.{sysctls_name}
use cargo_unikernel.Agreement.Baked.{baked_value, sysctls_agreement}

map-append :
    (ws vs : List (Knob × Written))
    → map (λ w. w.0) (ws ++ vs) ≡ map (λ w. w.0) ws ++ map (λ w. w.0) vs
map-append [] vs = refl
map-append (w ∷ ws) vs = ap (◌∷◌ w.0) (map-append ws vs)

note-attempts :
    (k : Knob) (r : Written) (s : Sysctls) → attempts (note_written k r s) ≡ attempts s ++ k ∷ []
unfolding note_written
note-attempts k done s = map-append s.writes ((k, done) ∷ [])
note-attempts k no_such_file s = map-append s.writes ((k, no_such_file) ∷ [])
note-attempts k (write_error errno) s = map-append s.writes ((k, write_error errno) ∷ [])

extra-attempts :
    (a : SysctlAnswers) (ps : List Knob) (s : Sysctls)
    → for_each check_sysctl_path ps ≡ ok tt
    → attempts (apply_extra a ps s) ≡ attempts s ++ ps
unfolding apply_extra write_sysctl for_each
extra-attempts a [] s h = rw append-nil refl
extra-attempts a ((path, value) ∷ ps) s h =
    let this = checked-is_sysctl_path path value (ground arith) in
    let wrote = note-attempts (path, value) (a.write s.writes (path, value)) s in
    rw (apply_extra, this)
      (extra-attempts a ps (write_sysctl a (path, value) s) (ground arith)
        ∙ (ap (λ ks. ks ++ ps) wrote ∙ append_assoc (attempts s) ((path, value) ∷ []) ps))

-- If a config passes `validate` and its extra sysctls are exported as one line without white space at
-- the end, the guest parses them from the exported constant, and
-- `apply` writes each of them, in the config's order, after all that the compiled-in categories
-- write: none is refused, and none is overwritten by a category.
pub extra_sysctls_written :
    (c : Config) (what : Text) (a : SysctlAnswers) (f : HardeningFeatures)
    → validate c ≡ ok tt
    → OneLine (encode_kv_pairs c.hardening.extra_sysctls)
    → (extra : List Knob) × (parse_pairs (baked_value c sysctls_name []) what ≡ ok extra)
      × (attempts (apply a f extra) ≡ attempts (apply a f []) ++ c.hardening.extra_sysctls)
unfolding apply apply_extra validate_extra_sysctl_paths
extra_sysctls_written c what a f h l = (
  c.hardening.extra_sysctls,
  sysctls_agreement c what h l,
  extra-attempts a c.hardening.extra_sysctls (apply_categories a f untouched)
      (validate-Checked c h).sysctls,
)
