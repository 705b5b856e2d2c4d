-- ===== src/Guest/Firewall/NlBuf/Messages.antt =====
-- Whole messages of guest/src/firewall.rs: a header, an `nfgenmsg` and attributes, against the
-- bytes that the patched buffer ends with.
use cargo_unikernel.Common.{
  ℕ, ◌+◌, ◌%◌, ◌<◌, ◌^◌, ◌≡◌, refl, sym, ap, ◌∙◌, List, [], ◌∷◌, ◌++◌, arith, append_assoc,
  append-nil, length, length-append,
}
use cargo_unikernel.Guest.Firewall.Bytes.{Bytes, le16, le32, be16}
use cargo_unikernel.Guest.Firewall.NlBuf.{NlBuf, Act, ◌>>=◌, ◌>>◌, pure, message, end_msg}
use cargo_unikernel.Guest.Firewall.NlBuf.Laws.{
  Aligned, append, append-Aligned, Emits, end_run, header_length,
}
use cargo_unikernel.Guest.Firewall.Tlv.{Attrs, encode_attrs, encode_attrs-aligned}

pub record Msg : Type 0 where
  pub msg_type : ℕ
  pub flags : ℕ
  pub seq : ℕ
  pub family : ℕ
  pub res_id : ℕ
  pub attrs : Attrs

-- What follows the length field.
unfoldable pub msg_body : Msg → Bytes
msg_body m =
    le16 m.msg_type
    ++ (le16 m.flags
        ++ (le32 m.seq ++ (le32 0 ++ (m.family ∷ 0 ∷ (be16 m.res_id ++ encode_attrs m.attrs)))))

unfoldable pub encode_msg : Msg → Bytes
unfolding msg_body
encode_msg m = le32 (4 + length (msg_body m)) ++ msg_body m

unfoldable pub encode_msgs : List Msg → Bytes
unfolding encode_msg
encode_msgs [] = []
encode_msgs (m ∷ ms) = encode_msg m ++ encode_msgs ms

-- The action writes the messages in order and returns the value.
pub record Sends {A : Type 0} (f : Act A) (a : A) (ms : List Msg) : Type 0 where
  pub run : (b : NlBuf) → Aligned b → f b ≡ (a, append b (encode_msgs ms))

pub encode_msg-aligned : (m : Msg) → length (encode_msg m) % 4 ≡ 0
unfolding encode_msg
encode_msg-aligned m = omega (arith, encode_attrs-aligned m.attrs)

pub encode_msgs-aligned : (ms : List Msg) → length (encode_msgs ms) % 4 ≡ 0
unfolding encode_msgs
encode_msgs-aligned [] = refl
encode_msgs-aligned (m ∷ ms) = omega (
  arith,
  length-append (encode_msg m) (encode_msgs ms),
  encode_msg-aligned m,
  encode_msgs-aligned ms,
)

header_joined :
    (pre : Bytes) (ty fl sq : ℕ) (fam res : ℕ)
    → ((((((pre ++ le32 0) ++ le16 ty) ++ le16 fl) ++ le32 sq) ++ le32 0) ++ fam ∷ 0 ∷ [])
        ++ be16 res
      ≡ pre ++ (le32 0 ++ (le16 ty ++ (le16 fl ++ (le32 sq ++ (le32 0 ++ (fam ∷ 0 ∷ be16 res))))))
header_joined pre ty fl sq fam res = simp append_assoc

pub message-Sends :
    {f : Act (Unit {0})} (m : Msg)
    → length (encode_attrs m.attrs) < 65536
    → Emits f m.attrs
    → Sends (message m.msg_type m.flags m.seq m.family m.res_id f) tt (m ∷ [])
unfolding message encode_msgs
message-Sends {f} m h e = record {
  run = λ b a.
      let at = length b.bytes in
      let header =
        le32 0
        ++ (le16 m.msg_type
            ++ (le16 m.flags ++ (le32 m.seq ++ (le32 0 ++ (m.family ∷ 0 ∷ be16 m.res_id))))) in
      ap (λ ys. end_msg at (f (record b { bytes = ys })).1)
        (header_joined b.bytes m.msg_type m.flags m.seq m.family m.res_id)
      ∙ ap (λ r. end_msg at r.1) (e.run (append b header) (append-Aligned b header a refl))
      ∙ ap (λ ys. end_msg at (record b { bytes = ys }))
          (append_assoc b.bytes header (encode_attrs m.attrs))
      ∙ end_run (2 ^ 32) le32 (le32 0) (msg_body m) b a (λ n. refl)
          (omega (arith, encode_attrs-aligned m.attrs)) (omega arith)
      ∙ ap (λ n. (tt, append b (le32 n ++ msg_body m))) (header_length (length (msg_body m)))
      ∙ ap (λ ys. (tt, append b ys)) (sym (append-nil (encode_msg m)));
}

encode_msgs-append : (ms ns : List Msg) → encode_msgs (ms ++ ns) ≡ encode_msgs ms ++ encode_msgs ns
unfolding encode_msgs
encode_msgs-append [] ns = refl
encode_msgs-append (m ∷ ms) ns = simp (encode_msgs-append ms, append_assoc)

pub bind :
    {A B : Type 0} {f : Act A} (g : A → Act B) {a : A} {c : B} {ms ns : List Msg}
    → Sends f a ms
    → Sends (g a) c ns
    → Sends (f >>= g) c (ms ++ ns)
bind g {a = a} {c = c} {ms = ms} {ns = ns} p q = record {
  run = λ b h.
      ap (λ r. g r.0 r.1) (p.run b h)
      ∙ q.run (append b (encode_msgs ms)) (append-Aligned b _ h (encode_msgs-aligned ms))
      ∙ ap (λ ys. (c, record b { bytes = ys }))
          (append_assoc b.bytes _ _ ∙ ap (◌++◌ b.bytes) (sym (encode_msgs-append ms ns)));
}

pub andthen :
    {B : Type 0} {f : Act (Unit {0})} {g : Act B} {c : B} {m : Msg} {ns : List Msg}
    → Sends f tt (m ∷ [])
    → Sends g c ns
    → Sends (f >> g) c (m ∷ ns)
andthen {g = g} p q = bind (λ _. g) p q

pub nothing : {A : Type 0} (a : A) → Sends (pure a) a []
unfolding encode_msgs
nothing a = record {
  run = λ b h. ap (λ ys. (a, record b { bytes = ys })) (sym (append-nil b.bytes));
}
