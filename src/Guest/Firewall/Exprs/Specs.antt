-- ===== src/Guest/Firewall/Exprs/Specs.antt =====
-- The attribute tree that each nf_tables expression of guest/src/firewall.rs stands for.
use cargo_unikernel.Common.{
  ℕ, ◌-◌, ◌<◌, ◌≡◌, refl, [], ◌∷◌, ◌++◌, arith, length, length-append, length-replicate,
}
use cargo_unikernel.Std.Text.{Text, codes}
use cargo_unikernel.Guest.Firewall.Bytes.{Bytes, le32, be32, align4}
use cargo_unikernel.Guest.Firewall.NlBuf.{Act, put_attr, put_be32, put_str, nested}
use cargo_unikernel.Guest.Firewall.NlBuf.Laws.{
  Emits, Emits1, seq, one, put_attr-Emits1, nested-Emits1,
}
use cargo_unikernel.Guest.Firewall.Tlv.{
  Attr, leaf, group, Attrs, end, and, encode_attr, encode_attrs, padding, sizes,
}
use cargo_unikernel.Guest.Firewall.Exprs.{
  expr, meta_load, ct_state_load, payload_load, cmp, range, bitwise_mask, verdict,
}
use cargo_unikernel.Guest.Firewall.Uapi.{reg_verdict, reg_1, range_eq, transport_header, ct_state}
use cargo_unikernel.Guest.Firewall.Uapi.Nfta

-- A number is four big-endian bytes, a text ends in a NUL.
abbrev pub number : ℕ → ℕ → Attr
number t value = leaf t (be32 value)

abbrev pub text : ℕ → Text → Attr
text t value = leaf t (value ++ 0 ∷ [])

abbrev pub value_in : ℕ → Bytes → Attr
value_in t value = group t (and (leaf Nfta.data_value value) end)

abbrev pub expr_attr : Text → Attrs → Attr
expr_attr name xs =
    group Nfta.list_elem (and (text Nfta.expr_name name) (and (group Nfta.expr_data xs) end))

abbrev pub meta_attr : ℕ → Attr
meta_attr key =
    expr_attr (codes "meta")
      (and (number Nfta.meta_key key) (and (number Nfta.meta_dreg reg_1) end))

abbrev pub ct_attr : Attr
ct_attr =
    expr_attr (codes "ct") (and (number Nfta.ct_key ct_state) (and (number Nfta.ct_dreg reg_1) end))

abbrev pub payload_attr : ℕ → ℕ → Attr
payload_attr offset len = expr_attr (codes "payload") (
    and (number Nfta.payload_dreg reg_1) (
      and (number Nfta.payload_base transport_header)
        (and (number Nfta.payload_offset offset) (and (number Nfta.payload_len len) end))))

abbrev pub cmp_attr : ℕ → Bytes → Attr
cmp_attr op value = expr_attr (codes "cmp") (
    and (number Nfta.cmp_sreg reg_1)
      (and (number Nfta.cmp_op op) (and (value_in Nfta.cmp_data value) end)))

abbrev pub range_attr : Bytes → Bytes → Attr
range_attr first last = expr_attr (codes "range") (
    and (number Nfta.range_sreg reg_1) (
      and (number Nfta.range_op range_eq)
        (and (value_in Nfta.range_from_data first) (and (value_in Nfta.range_to_data last) end))))

abbrev pub bitwise_attr : ℕ → Attr
bitwise_attr mask = expr_attr (codes "bitwise") (
    and (number Nfta.bitwise_sreg reg_1) (
      and (number Nfta.bitwise_dreg reg_1) (
        and (number Nfta.bitwise_len 4) (
          and (value_in Nfta.bitwise_mask (le32 mask))
            (and (value_in Nfta.bitwise_xor (le32 0)) end)))))

abbrev pub verdict_attr : ℕ → Attr
verdict_attr code = expr_attr (codes "immediate") (
    and (number Nfta.immediate_dreg reg_verdict) (
      and
        (group Nfta.immediate_data
          (and (group Nfta.data_verdict (and (number Nfta.verdict_code code) end)) end))
        end))

pub number-Emits1 : (t value : ℕ) → Emits1 (put_be32 t value) (number t value)
unfolding put_be32
number-Emits1 t value = put_attr-Emits1 t (be32 value) (omega arith)

pub text-Emits1 :
    (t : ℕ) (value : Text) → length value < 65000 → Emits1 (put_str t value) (text t value)
unfolding put_str
text-Emits1 t value h =
    put_attr-Emits1 t (value ++ 0 ∷ []) (omega (arith, length-append value (0 ∷ [])))

expr-Emits1 :
    {body : Act (Unit {0})} (name : Text) (xs : Attrs)
    → length (encode_attrs xs) < 400
    → length (encode_attr (text Nfta.expr_name name)) < 110
    → length name < 65000
    → Emits body xs
    → Emits1 (expr name body) (expr_attr name xs)
unfolding expr
expr-Emits1 name xs h k l e = nested-Emits1 Nfta.list_elem _ (omega sizes) (
    seq (text-Emits1 Nfta.expr_name name l) (one (nested-Emits1 Nfta.expr_data xs (omega sizes) e)))

leaf_bound :
    (t : ℕ) (value : Bytes) → length value < 100 → length (encode_attr (leaf t value)) < 110
unfolding encode_attr
leaf_bound t value h = omega (
  arith,
  length-append value (padding (length value)),
  length-replicate {A = ℕ} (align4 (length value) - length value) 0,
)

value-Emits1 :
    (t : ℕ) (value : Bytes)
    → length value < 100
    → Emits1 (nested t (put_attr Nfta.data_value value)) (value_in t value)
value-Emits1 t value h =
    nested-Emits1 t _ (omega (sizes, leaf_bound Nfta.data_value value h))
      (one (put_attr-Emits1 Nfta.data_value value (omega arith)))

name_bound :
    (name : Text) → length name < 90 → length (encode_attr (text Nfta.expr_name name)) < 110
name_bound name h =
    leaf_bound Nfta.expr_name (name ++ 0 ∷ []) (omega (arith, length-append name (0 ∷ [])))

number_bound : (t value : ℕ) → length (encode_attr (number t value)) ≡ 8
unfolding encode_attr
number_bound t value = refl

value_bound :
    (t : ℕ) (value : Bytes) → length value < 100 → length (encode_attr (value_in t value)) < 120
value_bound t value h = omega (sizes, leaf_bound Nfta.data_value value h)

pub meta_load-Emits1 : (key : ℕ) → Emits1 (meta_load key) (meta_attr key)
unfolding meta_load
meta_load-Emits1 key =
    expr-Emits1 (codes "meta") _ (omega (sizes, number_bound))
      (name_bound (codes "meta") (omega arith)) (omega arith)
      (seq (number-Emits1 _ _) (one (number-Emits1 _ _)))

pub ct_state_load-Emits1 : Emits1 (ct_state_load) (ct_attr)
unfolding ct_state_load
ct_state_load-Emits1 =
    expr-Emits1 (codes "ct") _ (omega (sizes, number_bound)) (name_bound (codes "ct") (omega arith))
      (omega arith) (seq (number-Emits1 _ _) (one (number-Emits1 _ _)))

pub payload_load-Emits1 :
    (offset len : ℕ) → Emits1 (payload_load offset len) (payload_attr offset len)
unfolding payload_load
payload_load-Emits1 offset len =
    expr-Emits1 (codes "payload") _ (omega (sizes, number_bound))
      (name_bound (codes "payload") (omega arith)) (omega arith)
      (seq (number-Emits1 _ _)
        (seq (number-Emits1 _ _) (seq (number-Emits1 _ _) (one (number-Emits1 _ _)))))

pub cmp-Emits1 :
    (op : ℕ) (value : Bytes) → length value < 100 → Emits1 (cmp op value) (cmp_attr op value)
unfolding cmp
cmp-Emits1 op value h =
    expr-Emits1 (codes "cmp") _ (omega (sizes, number_bound, value_bound Nfta.cmp_data value h))
      (name_bound (codes "cmp") (omega arith)) (omega arith)
      (seq (number-Emits1 _ _) (seq (number-Emits1 _ _) (one (value-Emits1 _ value h))))

pub range-Emits1 :
    (first last : Bytes)
    → length first < 100
    → length last < 100
    → Emits1 (range first last) (range_attr first last)
unfolding range
range-Emits1 first last h k =
    expr-Emits1 (codes "range") _
      (omega (
        sizes,
        number_bound,
        value_bound Nfta.range_from_data first h,
        value_bound Nfta.range_to_data last k,
      ))
      (name_bound (codes "range") (omega arith)) (omega arith)
      (seq (number-Emits1 _ _)
        (seq (number-Emits1 _ _) (seq (value-Emits1 _ first h) (one (value-Emits1 _ last k)))))

pub bitwise_mask-Emits1 : (mask : ℕ) → Emits1 (bitwise_mask mask) (bitwise_attr mask)
unfolding bitwise_mask
bitwise_mask-Emits1 mask =
    expr-Emits1 (codes "bitwise") _
      (omega (
        sizes,
        number_bound,
        value_bound Nfta.bitwise_mask (le32 mask) (omega arith),
        value_bound Nfta.bitwise_xor (le32 0) (omega arith),
      ))
      (name_bound (codes "bitwise") (omega arith)) (omega arith)
      (seq (number-Emits1 _ _) (
        seq (number-Emits1 _ _) (
          seq (number-Emits1 _ _) (
            seq (value-Emits1 _ (le32 mask) (omega arith))
              (one (value-Emits1 _ (le32 0) (omega arith)))))))

pub verdict-Emits1 : (code : ℕ) → Emits1 (verdict code) (verdict_attr code)
unfolding verdict
verdict-Emits1 code =
    expr-Emits1 (codes "immediate") _ (omega (sizes, number_bound))
      (name_bound (codes "immediate") (omega arith)) (omega arith)
      (seq (number-Emits1 _ _) (
        one (
          nested-Emits1 _ _ (omega (sizes, number_bound))
            (one (nested-Emits1 _ _ (omega (sizes, number_bound)) (one (number-Emits1 _ _)))))))
