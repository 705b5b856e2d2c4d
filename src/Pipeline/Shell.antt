-- ===== src/Pipeline/Shell.antt =====
-- The shell text of src/pipeline/docker/helpers.rs: `shell_quote` and `write_export`.
use cargo_unikernel.Common.{[], ◌∷◌, ◌++◌, ◌==◌, if◌then◌else◌, ◌≡◌, refl}
use cargo_unikernel.Std.Text.{Text, codes}

-- `s.replace('\'', r"'\''")`.
unfoldable pub escape_quotes : Text → Text
escape_quotes [] = []
escape_quotes (c ∷ s) =
    if c == b'\'' then b'\'' ∷ b'\\' ∷ b'\'' ∷ b'\'' ∷ escape_quotes s else c ∷ escape_quotes s

unfoldable pub shell_quote : Text → Text
unfolding escape_quotes
shell_quote s = b'\'' ∷ (escape_quotes s ++ b'\'' ∷ [])

-- `writeln!(s, "export {name}={}", shell_quote(&value.to_string()))`.
unfoldable pub write_export : Text → Text → Text → Text
unfolding shell_quote
write_export s name value =
    s ++ (codes "export " ++ (name ++ b'=' ∷ (shell_quote value ++ 10 ∷ [])))

quoted_export :
    write_export [] (codes "VALUE") (codes "$(touch /tmp/injected)'quoted")
    ≡ codes "export VALUE='$(touch /tmp/injected)'\\''quoted'" ++ 10 ∷ []
unfolding write_export
quoted_export = refl
