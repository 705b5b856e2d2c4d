-- ===== src/Guest/Firewall/Tlv.antt =====
-- Netlink attributes as a tree, with the bytes that stand for it: the specification of what
-- guest/src/firewall.rs writes by patching.
use cargo_unikernel.Common.{
  ℕ, ◌+◌, ◌-◌, ◌%◌, ◌<◌, ◌≤◌, ◌≡◌, refl, List, [], ◌∷◌, ◌++◌, arith, length, length-append,
  length-replicate, replicate, bit_or,
}
use cargo_unikernel.Guest.Firewall.Bytes.{Bytes, le16, align4}

mutual
  pub data Attr : Type 0 where
    leaf : ℕ → Bytes → Attr
    group : ℕ → Attrs → Attr

  pub data Attrs : Type 0 where
    end : Attrs
    and : Attr → Attrs → Attrs

-- A payload is filled up with zeros to a multiple of four bytes.
abbrev pub padding : ℕ → Bytes
padding len = replicate (align4 len - len) 0

unfoldable mutual
  pub encode_attr : Attr → Bytes
  encode_attr (leaf t payload) =
      le16 (4 + length payload) ++ (le16 t ++ (payload ++ padding (length payload)))
  encode_attr (group t xs) =
      le16 (4 + length (encode_attrs xs)) ++ (le16 (bit_or t 0x8000) ++ encode_attrs xs)

  pub encode_attrs : Attrs → Bytes
  encode_attrs end = []
  encode_attrs (and x xs) = encode_attr x ++ encode_attrs xs

padded_length : (payload : Bytes) → length (payload ++ padding (length payload)) % 4 ≡ 0
padded_length payload = omega (
  arith,
  length-append payload (padding (length payload)),
  length-replicate {A = ℕ} (align4 (length payload) - length payload) 0,
)

mutual
  unfolding encode_attr encode_attrs

  encode_attr_aligned : (x : Attr) → length (encode_attr x) % 4 ≡ 0
  encode_attr_aligned (leaf t payload) = omega (arith, padded_length payload)
  encode_attr_aligned (group t xs) = omega (arith, encode_attrs_aligned xs)

  encode_attrs_aligned : (xs : Attrs) → length (encode_attrs xs) % 4 ≡ 0
  encode_attrs_aligned end = refl
  encode_attrs_aligned (and x xs) = omega (
    arith,
    length-append (encode_attr x) (encode_attrs xs),
    encode_attr_aligned x,
    encode_attrs_aligned xs,
  )

-- Every attribute takes a multiple of four bytes.
pub encode_attrs-aligned : (xs : Attrs) → length (encode_attrs xs) % 4 ≡ 0
encode_attrs-aligned xs = encode_attrs_aligned xs

pub encode_attr-aligned : (x : Attr) → length (encode_attr x) % 4 ≡ 0
encode_attr-aligned x = encode_attr_aligned x

-- The sizes, so that a proof about a bound need not unfold the encoding.
pub length-encode_attrs_end : length (encode_attrs end) ≡ 0
unfolding encode_attrs
length-encode_attrs_end = refl

pub length-encode_attrs_and :
    (x : Attr) (xs : Attrs)
    → length (encode_attrs (and x xs)) ≡ length (encode_attr x) + length (encode_attrs xs)
unfolding encode_attrs
length-encode_attrs_and x xs = length-append (encode_attr x) (encode_attrs xs)

pub length-encode_attr-group :
    (t : ℕ) (xs : Attrs) → length (encode_attr (group t xs)) ≡ 4 + length (encode_attrs xs)
unfolding encode_attr
length-encode_attr-group t xs = omega arith

pub ruleset sizes =
    (arith, length-encode_attrs_end, length-encode_attrs_and, length-encode_attr-group)
