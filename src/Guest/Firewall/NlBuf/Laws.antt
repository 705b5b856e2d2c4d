-- ===== src/Guest/Firewall/NlBuf/Laws.antt =====
-- The patched buffer of guest/src/firewall.rs against the attribute trees: at an aligned buffer
-- an action appends the bytes of its attributes, and the overflow latch stays as it was.
use cargo_unikernel.Common.{
  ℕ, suc, leb, ltb, ◌||◌, ◌+◌, ◌-◌, ◌%◌, ◌<◌, ◌≡◌, refl, ap, ◌∙◌, false, [], ◌++◌, arith,
  append_assoc, append-nil, length, length-append, drop, take-length-append, drop-length-append,
  replicate, bit_or,
}
use cargo_unikernel.Guest.Firewall.Bytes.{Bytes, le16, align4}
use cargo_unikernel.Guest.Firewall.NlBuf.{
  NlBuf, Act, ◌>>◌, pad, splice, patch, put_attr, end_nested, nested,
}
use cargo_unikernel.Guest.Firewall.Tlv.{
  Attr, leaf, group, Attrs, end, and, encode_attr, encode_attrs, encode_attrs-aligned,
  encode_attr-aligned, padding,
}

abbrev pub Aligned : NlBuf → Type 0
Aligned b = length b.bytes % 4 ≡ 0

abbrev pub append : NlBuf → Bytes → NlBuf
append b xs = record b { bytes = b.bytes ++ xs }

-- The action writes the one attribute.
pub record Emits1 (f : Act (Unit {0})) (x : Attr) : Type 0 where
  pub run : (b : NlBuf) → Aligned b → f b ≡ (tt, append b (encode_attr x))

-- The action writes the attributes in order.
pub record Emits (f : Act (Unit {0})) (xs : Attrs) : Type 0 where
  pub run : (b : NlBuf) → Aligned b → f b ≡ (tt, append b (encode_attrs xs))

pub append-Aligned :
    (b : NlBuf) (xs : Bytes) → Aligned b → length xs % 4 ≡ 0 → Aligned (append b xs)
append-Aligned b xs h k = omega (arith, length-append b.bytes xs)

drop-past : (pre old rest : Bytes) → drop (length pre + length old) (pre ++ (old ++ rest)) ≡ rest
drop-past pre old rest =
    rw (← length-append pre old, ← append_assoc pre old rest) (drop-length-append (pre ++ old) rest)

splice-append :
    (pre old new rest : Bytes)
    → length old ≡ length new
    → splice (length pre) new (pre ++ (old ++ rest)) ≡ pre ++ (new ++ rest)
unfolding splice
splice-append pre old new rest h =
    rw (take-length-append pre (old ++ rest), ← h, drop-past pre old rest) refl

pub seq :
    {f g : Act (Unit {0})} {x : Attr} {xs : Attrs}
    → Emits1 f x
    → Emits g xs
    → Emits (f >> g) (and x xs)
unfolding encode_attrs
seq {f} {g} {x} {xs} p q = record {
  run = λ b h.
      ap (λ r. g r.1) (p.run b h)
      ∙ q.run (append b (encode_attr x)) (append-Aligned b _ h (encode_attr-aligned x))
      ∙ ap (λ ys. (tt, record b { bytes = ys })) (append_assoc b.bytes _ _);
}

pub one : {f : Act (Unit {0})} {x : Attr} → Emits1 f x → Emits f (and x end)
unfolding encode_attrs
one {f} {x} p = record { run = λ b h. rw append-nil (p.run b h) }

-- From an aligned start the filling depends on what follows it only.
pad_after :
    (b : NlBuf) (xs : Bytes)
    → Aligned b
    → pad (append b xs) ≡ (tt, append b (xs ++ padding (length xs)))
unfolding pad
pad_after b xs h =
    let n = length xs in
    let e : align4 (length (b.bytes ++ xs)) - length (b.bytes ++ xs) ≡ align4 n - n =
      omega (arith, length-append b.bytes xs) in
    rw e (ap (λ ys. (tt, record b { bytes = ys })) (append_assoc b.bytes xs _))

padding_header : (n : ℕ) → padding (suc (suc (suc (suc n)))) ≡ padding n
padding_header n = ap (λ k. replicate k 0) (omega arith)

small :
    (t : ℕ) (payload : Bytes) → 4 + length payload < 65536 → leb 65536 (4 + length payload) ≡ false
small t payload h = ground arith

pub put_attr-Emits1 :
    (t : ℕ) (payload : Bytes)
    → 4 + length payload < 65536
    → Emits1 (put_attr t payload) (leaf t payload)
unfolding put_attr encode_attr
put_attr-Emits1 t payload h = record {
  run = λ b a.
      let joined =
        append_assoc (b.bytes ++ le16 (4 + length payload)) (le16 t) payload
        ∙ append_assoc b.bytes (le16 (4 + length payload)) (le16 t ++ payload) in
      rw (small t payload h) (
        ap (λ ys. pad (record b { bytes = ys })) joined
        ∙ pad_after b _ a
        ∙ ap (λ ps. (tt, append b (le16 (4 + length payload) ++ (le16 t ++ (payload ++ ps)))))
            (padding_header (length payload)));
}

padding_aligned : (n : ℕ) → n % 4 ≡ 0 → padding n ≡ []
padding_aligned n h = let e : align4 n - n ≡ 0 = omega arith in ap (λ k. replicate k 0) e

-- A patch replaces the bytes of its slot.
patch_run :
    (limit value : ℕ) (new old rest : Bytes) (b : NlBuf)
    → value < limit
    → length old ≡ length new
    → patch limit (length b.bytes) new value (append b (old ++ rest)) ≡ (tt, append b (new ++ rest))
unfolding patch
patch_run limit value new old rest b h k = rw (fits, splice-append b.bytes old new rest k) refl
  where
    fits :
        (leb limit value || ltb (length (b.bytes ++ (old ++ rest))) (length b.bytes + length new))
        ≡ false
    fits = ground (arith, length-append b.bytes (old ++ rest), length-append old rest)

-- Ending a body whose bytes are aligned: no filling, and the length counts the header.
pub end_run :
    (limit : ℕ) (enc : ℕ → Bytes) (old rest : Bytes) (b : NlBuf)
    → Aligned b
    → ((n : ℕ) → length old ≡ length (enc n))
    → length (old ++ rest) % 4 ≡ 0
    → length (old ++ rest) < limit
    → (pad >> λ b'.
          patch limit
            (length b.bytes)
            (enc (length b'.bytes - length b.bytes))
            (length b'.bytes - length b.bytes)
            b')
        (append b (old ++ rest))
      ≡ (tt, append b (enc (length (old ++ rest)) ++ rest))
end_run limit enc old rest b a k d h =
    rw (pad_after b (old ++ rest) a, padding_aligned _ d, append-nil)
      (let e : length (b.bytes ++ (old ++ rest)) - length b.bytes ≡ length (old ++ rest) =
          omega (arith, length-append b.bytes (old ++ rest)) in
        rw e (patch_run limit _ (enc (length (old ++ rest))) old rest b h (k _)))

pub header_length : (n : ℕ) → suc (suc (suc (suc n))) ≡ 4 + n
header_length n = omega arith

-- A nested attribute's patched length counts its header and its body.
pub nested-Emits1 :
    {f : Act (Unit {0})} (t : ℕ) (xs : Attrs)
    → 4 + length (encode_attrs xs) < 65536
    → Emits f xs
    → Emits1 (nested t f) (group t xs)
unfolding nested encode_attr
nested-Emits1 {f} t xs h e = record {
  run = λ b a.
      let header = le16 0 ++ le16 (bit_or t 0x8000) in
      let body = le16 (bit_or t 0x8000) ++ encode_attrs xs in
      ap (λ ys. end_nested (length b.bytes) (f (record b { bytes = ys })).1)
        (append_assoc b.bytes (le16 0) (le16 (bit_or t 0x8000)))
      ∙ ap (λ r. end_nested (length b.bytes) r.1)
          (e.run (append b header) (append-Aligned b header a refl))
      ∙ ap (λ ys. end_nested (length b.bytes) (record b { bytes = ys }))
          (append_assoc b.bytes header (encode_attrs xs))
      ∙ end_run 65536 le16 (le16 0) body b a (λ n. refl) (omega (arith, encode_attrs-aligned xs))
          (omega arith)
      ∙ ap (λ n. (tt, append b (le16 n ++ body))) (header_length (length (encode_attrs xs)));
}
