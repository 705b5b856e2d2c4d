-- ===== src/Agreement/Pairs.antt =====
-- `key=value` tables from the config to the guest: `[app.runtime].env` and
-- `[hardening].extra_sysctls`.
use cargo_unikernel.Common.{◌≡◌, refl, List, [], ◌∷◌, map, All, arith, ok, traverse, for_each}
use cargo_unikernel.Std.Text.{Text, contains, contains-append, Lack, split_once-append}
use cargo_unikernel.Schema.Errors.{Table}
use cargo_unikernel.Schema.Validate.Entries.{check_kv_pair}
use cargo_unikernel.Pipeline.Wire.{kv_text, encode_kv_pairs}
use cargo_unikernel.Guest.Baked.{parse_pair, parse_pairs}
use cargo_unikernel.Agreement.Lists.{NonEmpty, NonEmpty-append, pieces-join, for_each-All}

module _ (table : Table) (what : Text) where
  abbrev Passes : Text × Text → Type 0
  Passes p = check_kv_pair table p ≡ ok tt

  kv_text-Lack : (p : Text × Text) → Passes p → Lack b';' (kv_text p)
  unfolding check_kv_pair kv_text contains
  kv_text-Lack (k, v) h = ground (arith, contains-append b';' k (b'=' ∷ v))

  parse_pair-kv_text : (p : Text × Text) → Passes p → parse_pair what (kv_text p) ≡ ok p
  unfolding check_kv_pair kv_text parse_pair
  parse_pair-kv_text (k, v) h = rw (split_once-append b'=' k v (ground arith))

  kv_text-NonEmpty : (p : Text × Text) → NonEmpty (kv_text p)
  unfolding kv_text
  kv_text-NonEmpty (k, v) = NonEmpty-append k b'=' v

  map-kv_text :
      (ps : List (Text × Text))
      → All Passes ps
      → All (Lack b';') (map kv_text ps)
        × All NonEmpty (map kv_text ps)
        × (traverse (parse_pair what) (map kv_text ps) ≡ ok ps)
  unfolding traverse
  map-kv_text [] _ = (tt, tt, refl)
  map-kv_text (p ∷ ps) (h, hs) =
      let (lacks, full, read) = map-kv_text ps hs in
      ((kv_text-Lack p h, lacks), (kv_text-NonEmpty p, full), rw (parse_pair-kv_text p h, read))

  -- A checked table is read back by the guest as it was written, the empty table included.
  pub parse_pairs-encode_kv_pairs :
      (ps : List (Text × Text))
      → for_each (check_kv_pair table) ps ≡ ok tt
      → parse_pairs (encode_kv_pairs ps) what ≡ ok ps
  unfolding parse_pairs encode_kv_pairs
  parse_pairs-encode_kv_pairs ps h =
      let (lacks, full, read) = map-kv_text ps (for_each-All (check_kv_pair table) ps h) in
      rw (pieces-join (map kv_text ps) lacks full) read
