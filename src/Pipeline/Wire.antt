-- ===== src/Pipeline/Wire.antt =====
-- The wire formats of src/pipeline/docker/guest_init_script.rs: a list or a map travels to the
-- guest as one `;`-joined text.
use cargo_unikernel.Common.{List, ◌∷◌, ◌++◌, map}
use cargo_unikernel.Std.Text.{Text, join}
use cargo_unikernel.Schema.Types.{InboundPorts}

unfoldable pub encode_path_list : List Text → Text
encode_path_list entries = join b';' entries

unfoldable pub kv_text : Text × Text → Text
kv_text (k, v) = k ++ b'=' ∷ v

unfoldable pub encode_kv_pairs : List (Text × Text) → Text
encode_kv_pairs pairs = join b';' (map kv_text pairs)

-- `format!("{}:{}", entry.proto, entry.ports)`.
unfoldable pub inbound_text : InboundPorts → Text
inbound_text entry = entry.proto ++ b':' ∷ entry.ports

unfoldable pub encode_inbound : List InboundPorts → Text
encode_inbound inbound = join b';' (map inbound_text inbound)
