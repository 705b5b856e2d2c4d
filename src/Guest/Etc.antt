-- ===== src/Guest/Etc.antt =====
-- guest/src/etcfiles.rs: the texts of `/etc/passwd`, `/etc/group` and `/etc/resolv.conf`.
pub mod Files
use cargo_unikernel.Common.{
  ℕ, Bool, ◌||◌, ◌&&◌, not, List, [], ◌∷◌, ◌++◌, ◌==◌, if◌then◌else◌, is_empty, retain, any, map,
}
use cargo_unikernel.Std.Text.{Text, codes, text_eq, starts_with, split, is_whitespace}
use cargo_unikernel.Std.Decimal.{show}
use cargo_unikernel.Guest.Baked.{non_empty}

abbrev pub nobody_id : ℕ
nobody_id = 65534

-- A text is a list of code points; 10 ends a line.
unfoldable pub passwd : ℕ → ℕ → Text
passwd uid gid =
    codes "root:x:0:0:root:/:/dev/null"
    ++ 10
      ∷ (codes "app:x:"
          ++ (show uid
              ++ b':'
                ∷ (show gid
                    ++ (codes ":app:/var:/dev/null"
                        ++ 10
                          ∷ (if not (uid == nobody_id)
                              then codes "nobody:x:65534:65534:nobody:/:/dev/null" ++ 10 ∷ []
                              else [])))))

unfoldable pub group : ℕ → Text
group gid =
    codes "root:x:0:"
    ++ 10
      ∷ (codes "app:x:"
          ++ (show gid
              ++ b':'
                ∷ 10
                ∷ (if not (gid == nobody_id) then codes "nobody:x:65534:" ++ 10 ∷ [] else [])))

-- `s.contains(part)` for a text.
unfoldable pub contains_text : Text → Text → Bool
contains_text part [] = is_empty part
contains_text part (c ∷ s) = starts_with part (c ∷ s) || contains_text part s

unfoldable pub strip_return : Text → Text
strip_return [] = []
strip_return (c ∷ s) = let rest = strip_return s in if c == 13 && is_empty s then [] else c ∷ rest

-- `s.lines()`: a line ends with `\n` or `\r\n`, and the last may have no end.
unfoldable pub lines_of : List Text → List Text
unfolding strip_return
lines_of [] = []
lines_of ([] ∷ []) = []
lines_of ((c ∷ s) ∷ []) = (c ∷ s) ∷ []
lines_of (l ∷ (m ∷ ls)) = strip_return l ∷ lines_of (m ∷ ls)

unfoldable pub lines : Text → List Text
unfolding lines_of
lines s = lines_of (split 10 s)

-- `line.split_whitespace().next()`, or nothing.
unfoldable pub leading_word : Text → Text
leading_word [] = []
leading_word (c ∷ s) = if is_whitespace c then [] else c ∷ leading_word s

unfoldable pub first_word : Text → Text
unfolding leading_word
first_word [] = []
first_word (c ∷ s) = let rest = first_word s in if is_whitespace c then rest else c ∷ leading_word s

unfoldable pub is_resolver_directive : Text → Bool
is_resolver_directive line =
    any (text_eq (first_word line)) (codes "nameserver" ∷ codes "domain" ∷ codes "search" ∷ [])

unfoldable pub line_of : Text → Text
line_of line = line ++ 10 ∷ []

unfoldable pub nameserver_line : Text → Text
unfolding line_of
nameserver_line server = line_of (codes "nameserver " ++ server)

unfoldable pub concat : List Text → Text
concat [] = []
concat (l ∷ ls) = l ++ concat ls

unfoldable pub servers_text : Text → Text → Text
servers_text nameservers pnp =
    if is_empty nameservers
    then concat (map line_of (retain is_resolver_directive (lines pnp)))
    else concat (map nameserver_line (retain non_empty (split b';' nameservers)))

unfoldable pub resolv_conf_body : Text → Text → Text → Text
resolv_conf_body nameservers search pnp =
    let body = servers_text nameservers pnp in
    if not (contains_text (codes "nameserver ") body)
    then []
    else if not (is_empty search) && not (contains_text (codes "search ") body)
    then body ++ line_of (codes "search " ++ search)
    else body
