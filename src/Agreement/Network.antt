-- ===== src/Agreement/Network.antt =====
-- The resolvers of `[network]`, from the config to the guest's `/etc/resolv.conf`.
use cargo_unikernel.Common.{
  ◌≡◌, refl, ap, sym, append-nil, ◌∙◌, Bool, true, false, ◌&&◌, not, List, [], ◌∷◌, ◌++◌, map,
  arith, ok, is_empty, if◌then◌else◌, retain,
}
use cargo_unikernel.Std.Text.{Text, codes, split, starts_with}
use cargo_unikernel.Schema.Types.{Config}
use cargo_unikernel.Schema.Errors.{nameservers_table}
use cargo_unikernel.Schema.Validate.{validate}
use cargo_unikernel.Schema.Validate.Checked.{validate-Checked}
use cargo_unikernel.Schema.Validate.Entries.{validate_list_encoding}
use cargo_unikernel.Guest.Baked.{non_empty, parse_path_list}
use cargo_unikernel.Guest.Etc.{
  contains_text, line_of, nameserver_line, concat, servers_text, resolv_conf_body,
}
use cargo_unikernel.Pipeline.Wire.{encode_path_list}
use cargo_unikernel.Agreement.Line.{OneLine}
use cargo_unikernel.Agreement.Baked.{baked_value, baked_paths}
use cargo_unikernel.Agreement.Exports.{nameservers_name, env_var-nameservers}

-- The line that names the search domain, if one is due.
abbrev pub search_text : Text → Text → Text
search_text search body =
    if not (is_empty search) && not (contains_text (codes "search ") body)
    then line_of (codes "search " ++ search)
    else []

named :
    (s : Text) (rest : Text)
    → contains_text (codes "nameserver ") (nameserver_line s ++ rest) ≡ true
unfolding contains_text nameserver_line line_of starts_with
named s rest = refl

servers_text-join :
    (raw pnp : Text) (s : Text) (ss : List Text)
    → parse_path_list raw ≡ s ∷ ss
    → servers_text raw pnp ≡ concat (map nameserver_line (s ∷ ss))
unfolding servers_text parse_path_list split retain non_empty
servers_text-join [] pnp s ss h = absurd (cc)
servers_text-join (c ∷ raw) pnp s ss h = ap (λ xs. concat (map nameserver_line xs)) h

-- An optional tail.
optional_tail :
    (b : Bool) (body tail : Text)
    → (if b then body ++ tail else body) ≡ body ++ (if b then tail else [])
optional_tail true body tail = refl
optional_tail false body tail = sym (append-nil body)

-- If a config passes `validate`, its resolvers are exported as one line without white space at the
-- end, and at least one of them is not empty, the guest's
-- `/etc/resolv.conf` lists the config's, in order, whatever DHCP said, and then the search domain
-- if there is one and no line so far has `search `.
pub nameservers_agreement :
    (c : Config) (search pnp : Text) (s : Text) (ss : List Text)
    → validate c ≡ ok tt
    → OneLine (encode_path_list c.network.nameservers)
    → retain non_empty c.network.nameservers ≡ s ∷ ss
    → let body = concat (map nameserver_line (s ∷ ss)) in
      resolv_conf_body (baked_value c nameservers_name []) search pnp
      ≡ body ++ search_text search body
unfolding resolv_conf_body concat validate_list_encoding
nameservers_agreement c search pnp s ss h l e =
    let v = validate-Checked c h in
    let read =
      baked_paths c nameservers_name _ nameservers_table (env_var-nameservers c) l
        (ground (arith, v.lists)) in
    rw
      (
        servers_text-join (baked_value c nameservers_name []) pnp s ss (read ∙ e),
        named s (concat (map nameserver_line ss)),
      )
      (optional_tail _ (concat (map nameserver_line (s ∷ ss))) _)
