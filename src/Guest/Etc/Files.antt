-- ===== src/Guest/Etc/Files.antt =====
-- guest/src/etcfiles.rs: the files that `write_etc` writes. What the calls answer is the input.
use cargo_unikernel.Common.{ℕ, List, [], ◌∷◌, ◌++◌, if◌then◌else◌, Result, ok, err, is_empty}
use cargo_unikernel.Std.Text.{Text, codes}
use cargo_unikernel.Guest.Etc.{passwd, group, resolv_conf_body}

pub data EtcOp : Type 0 where
  write : Text → Text → EtcOp
  make_read_only : Text → EtcOp

-- `written` is by path; `pnp` is what `/proc/net/pnp` reads as.
pub record EtcAnswers : Type 0 where
  pub written : Text → Result ℕ (Unit {0})
  pub pnp : Result ℕ Text

unfoldable pub hosts : Text
hosts =
    codes "127.0.0.1"
    ++ 9
      ∷ (codes "localhost"
          ++ 10 ∷ (codes "::1" ++ 9 ∷ (codes "localhost ip6-localhost ip6-loopback" ++ 10 ∷ [])))

unfoldable pub nsswitch : Text
nsswitch =
    codes "hosts: files dns"
    ++ 10 ∷ (codes "passwd: files" ++ 10 ∷ (codes "group: files" ++ 10 ∷ []))

unfoldable pub write_file : EtcAnswers → Text → Text → List EtcOp
write_file a path contents = elim (a.written path) [
  | err _ ↦ write path contents ∷ []
  | ok _ ↦ write path contents ∷ make_read_only path ∷ []
]

unfoldable pub text_or_empty : Result ℕ Text → Text
text_or_empty (ok s) = s
text_or_empty (err _) = []

unfoldable pub write_resolv_conf : EtcAnswers → Text → Text → List EtcOp
unfolding text_or_empty write_file
write_resolv_conf a nameservers search =
    let body = resolv_conf_body nameservers search (text_or_empty a.pnp) in
    if is_empty body then [] else write_file a (codes "/etc/resolv.conf") body

unfoldable pub write_etc : EtcAnswers → ℕ → ℕ → Text → Text → List EtcOp
unfolding hosts nsswitch write_file write_resolv_conf
write_etc a uid gid nameservers search =
    write_file a (codes "/etc/hosts") hosts
    ++ (write_file a (codes "/etc/nsswitch.conf") nsswitch
        ++ (write_file a (codes "/etc/passwd") (passwd uid gid)
            ++ (write_file a (codes "/etc/group") (group gid)
                ++ write_resolv_conf a nameservers search)))
