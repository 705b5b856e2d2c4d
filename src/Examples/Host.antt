-- ===== src/Examples/Host.antt =====
-- The theorems on configs, at the concrete ones.
use cargo_unikernel.Common.{◌≡◌, refl, true, List, [], ◌∷◌, ◌++◌, map, ok, retain, arith}
use cargo_unikernel.Std.Text.{codes, join, contains, trim_end, is_whitespace}
use cargo_unikernel.Pipeline.Wire.{encode_kv_pairs, encode_path_list, kv_text}
use cargo_unikernel.Agreement.Line.{OneLine}
use cargo_unikernel.Schema.Types.{SevSnp, has_any}
use cargo_unikernel.Schema.Promises.Paths.{Inside, resolve, output_dir-Inside}
use cargo_unikernel.Schema.Promises.Profile.{Measured, sev_snp-Measured}
use cargo_unikernel.Pipeline.GuestInit.{has_firewall}
use cargo_unikernel.Guest.Baked.{
  rustc_env, first_line, app_ids, parse_pairs, parse_path_list, non_empty, resource_limits,
}
use cargo_unikernel.Guest.Firewall.Rules.{Rule, parse_rules}
use cargo_unikernel.Guest.Etc.{resolv_conf_body, concat, nameserver_line}
use cargo_unikernel.Agreement.Firewall.{RulesFor}
use cargo_unikernel.Agreement.Exports.{
  uid_name, gid_name, env_name, nofile_name, nproc_name, memlock_name, as_name, sysctls_name,
  firewall_name, read_paths_name, read_write_paths_name, nameservers_name,
}
use cargo_unikernel.Agreement.Baked.{
  baked_value, firewall_agreement, env_agreement, app_ids_agreement, resource_limits_agreement,
  landlock_agreement,
}
use cargo_unikernel.Agreement.Network.{nameservers_agreement, search_text}
use cargo_unikernel.Guest.Hardening.{Knob, attempts, apply}
use cargo_unikernel.Agreement.Sysctls.{extra_sysctls_written}
use cargo_unikernel.Examples.Sysctls.{sysctl_files, all_hardening}
use cargo_unikernel.Examples.Configs.{casual, measured, casual_valid, measured_valid}

casual_filtered : has_firewall casual.network ≡ true
unfolding has_firewall has_any
casual_filtered = refl

firewall_agreement_example :
    (rs : List Rule) × (parse_rules (baked_value casual firewall_name []) ≡ ok rs)
    × RulesFor casual.network.firewall.inbound rs
firewall_agreement_example = firewall_agreement casual casual_valid casual_filtered

-- A value ends at its first line.
cut_at_newline : rustc_env (codes "MODE=a\nb;NEXT=c") ≡ codes "MODE=a"
unfolding rustc_env first_line trim_end is_whitespace
cut_at_newline = refl

env_line : OneLine (encode_kv_pairs casual.app.runtime.env)
unfolding encode_kv_pairs encode_path_list kv_text join contains trim_end is_whitespace
env_line = (refl, refl)

sysctls_line : OneLine (encode_kv_pairs casual.hardening.extra_sysctls)
unfolding encode_kv_pairs encode_path_list kv_text join contains trim_end is_whitespace
sysctls_line = (refl, refl)

nameservers_line : OneLine (encode_path_list casual.network.nameservers)
unfolding encode_kv_pairs encode_path_list kv_text join contains trim_end is_whitespace
nameservers_line = (refl, refl)

read_paths_line : OneLine (encode_path_list casual.app.runtime.landlock.extra_read_paths)
unfolding encode_kv_pairs encode_path_list kv_text join contains trim_end is_whitespace
read_paths_line = (refl, refl)

read_write_paths_line :
    OneLine (encode_path_list casual.app.runtime.landlock.extra_read_write_paths)
unfolding encode_kv_pairs encode_path_list kv_text join contains trim_end is_whitespace
read_write_paths_line = (refl, refl)

env_agreement_example :
    parse_pairs (baked_value casual env_name []) (codes "env") ≡ ok casual.app.runtime.env
env_agreement_example = env_agreement casual (codes "env") casual_valid env_line

app_ids_agreement_example :
    app_ids
      (baked_value casual uid_name (codes "65534"))
      (baked_value casual gid_name (codes "65534"))
    ≡ ok (65534, 65534)
app_ids_agreement_example = app_ids_agreement casual casual_valid (omega arith) (omega arith)

resource_limits_agreement_example :
    resource_limits
      (baked_value casual nofile_name (codes "65536"))
      (baked_value casual nproc_name (codes "2048"))
      (baked_value casual memlock_name (codes "64"))
      (baked_value casual as_name (codes "0"))
    ≡ ok
        (record { nofile = 65536; nproc = 2048; memlock_bytes = 67108864; address_space_bytes = 0 })
resource_limits_agreement_example =
    resource_limits_agreement casual (omega arith) (omega arith) (omega arith) (omega arith)

landlock_agreement_example :
    (parse_path_list (baked_value casual read_paths_name [])
      ≡ retain non_empty casual.app.runtime.landlock.extra_read_paths)
    × (parse_path_list (baked_value casual read_write_paths_name [])
        ≡ retain non_empty casual.app.runtime.landlock.extra_read_write_paths)
landlock_agreement_example =
    landlock_agreement casual casual_valid refl read_paths_line read_write_paths_line

casual_resolvers :
    retain non_empty casual.network.nameservers ≡ codes "9.9.9.9" ∷ codes "1.1.1.1" ∷ []
unfolding retain non_empty
casual_resolvers = refl

nameservers_agreement_example :
    resolv_conf_body
      (baked_value casual nameservers_name [])
      (codes "example.org")
      (codes "nameserver 10.0.2.3")
    ≡ concat (map nameserver_line (codes "9.9.9.9" ∷ codes "1.1.1.1" ∷ []))
      ++ search_text
          (codes "example.org")
          (concat (map nameserver_line (codes "9.9.9.9" ∷ codes "1.1.1.1" ∷ [])))
nameservers_agreement_example =
    nameservers_agreement casual (codes "example.org") (codes "nameserver 10.0.2.3")
      (codes "9.9.9.9") (codes "1.1.1.1" ∷ []) casual_valid nameservers_line casual_resolvers

output_dir-Inside_example :
    Inside
      (resolve (codes "my-app" ∷ codes "home" ∷ []) (codes "dist/"))
      (codes "my-app" ∷ codes "home" ∷ [])
output_dir-Inside_example =
    output_dir-Inside casual (codes "my-app" ∷ codes "home" ∷ []) casual_valid

sev_snp-Measured_example : (snp : SevSnp) × Measured measured snp
sev_snp-Measured_example = sev_snp-Measured measured measured_valid refl

extra_sysctls_written_example :
    (extra : List Knob) × (parse_pairs (baked_value casual sysctls_name []) (codes "sysctls")
      ≡ ok extra)
    × (attempts (apply sysctl_files all_hardening extra)
        ≡ attempts (apply sysctl_files all_hardening []) ++ casual.hardening.extra_sysctls)
extra_sysctls_written_example =
    extra_sysctls_written casual (codes "sysctls") sysctl_files all_hardening casual_valid
      sysctls_line
