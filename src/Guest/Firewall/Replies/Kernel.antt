-- ===== src/Guest/Firewall/Replies/Kernel.antt =====
-- What the kernel answers to a batch (`struct nlmsgerr` of linux/netlink.h), and what
-- `send_batch` of guest/src/firewall.rs makes of it.
use cargo_unikernel.Common.{
  ℕ, suc, ◌+◌, ◌-◌, ◌^◌, ◌≤◌, ◌<◌, ◌≡◌, refl, ap, ◌∙◌, min, le→leb, ltb, ◌==◌, ◌||◌, not,
  if◌then◌else◌, false, Option, none, some, List, [], ◌∷◌, ◌++◌, take, drop, replicate, length,
  Result, ok, err, arith, length-append, length-replicate, append_assoc, take-length-append,
  drop-length-append,
}
use cargo_unikernel.Guest.Firewall.Bytes.{Bytes, le16, le32, of_le32-le32, align4}
use cargo_unikernel.Guest.Firewall.Tlv.{padding}
use cargo_unikernel.Guest.Firewall.Replies.{
  SendError, rejected, get, u16_of, u32_of, rejected_seq, u32_or_zero, split_message, split_at,
  checked_align, saturating_neg, check_reply,
}

-- An acknowledgement or an error: its header, the code, and the message it answers.
pub record Reply : Type 0 where
  pub flags : ℕ
  pub seq : ℕ
  pub port : ℕ
  pub code : ℕ
  pub about_len : ℕ
  pub about_type : ℕ
  pub about_flags : ℕ
  pub about_seq : ℕ
  pub about_port : ℕ
  pub about_rest : Bytes

unfoldable pub encode_reply : Reply → Bytes
encode_reply r =
    le32 (36 + length r.about_rest)
    ++ (le16 2
        ++ (le16 r.flags
            ++ (le32 r.seq
                ++ (le32 r.port
                    ++ (le32 r.code
                        ++ (le32 r.about_len
                            ++ (le16 r.about_type
                                ++ (le16 r.about_flags
                                    ++ (le32 r.about_seq
                                        ++ (le32 r.about_port ++ r.about_rest))))))))))

abbrev pub pad_reply : Reply → Bytes
pad_reply r = padding (length r.about_rest)

-- Several replies in one datagram, each filled up to four bytes.
unfoldable pub encode_replies : List Reply → Bytes
encode_replies [] = []
encode_replies (r ∷ rs) = encode_reply r ++ (pad_reply r ++ encode_replies rs)

-- The numbers of a reply fit their fields.
pub record Fits (r : Reply) : Type 0 where
  pub small : length r.about_rest < 2 ^ 31
  pub code_32 : r.code < 2 ^ 32
  pub seq_32 : r.about_seq < 2 ^ 32

-- What a datagram's replies come to.
unfoldable pub answer : ℕ → List Reply → Result SendError ℕ
answer acks [] = ok acks
answer acks (r ∷ rs) =
    if r.code == 0 then answer (suc acks) rs else err (rejected r.about_seq (saturating_neg r.code))

-- What the conversation comes to: the first rejection before enough acknowledgements.
unfoldable pub verdict : ℕ → ℕ → List (List Reply) → Option (Result SendError (Unit {0}))
verdict ackable acks [] = if ltb acks ackable then none else some (ok tt)
verdict ackable acks (rs ∷ rest) =
    if not (ltb acks ackable)
    then some (ok tt)
    else elim (answer acks rs) [ err e ↦ some (err e) | ok total ↦ verdict ackable total rest ]

pub length-encode_reply : (r : Reply) → length (encode_reply r) ≡ 36 + length r.about_rest
unfolding encode_reply
length-encode_reply r = omega arith

pub get-slice :
    (from to : ℕ) (xs : Bytes)
    → to ≤ length xs
    → get from to xs ≡ some (take (to - from) (drop from xs))
unfolding get
get-slice from to xs h = rw (le→leb to (length xs) h) refl

-- The fields that the reader takes.
len_field :
    (r : Reply) (rest : Bytes)
    → get 0 4 (encode_reply r ++ rest) ≡ some (le32 (36 + length r.about_rest))
unfolding encode_reply
len_field r rest = get-slice 0 4 (encode_reply r ++ rest) (omega arith)

type_field : (r : Reply) → get 4 6 (encode_reply r) ≡ some (le16 2)
unfolding encode_reply
type_field r = get-slice 4 6 (encode_reply r) (omega arith)

code_field : (r : Reply) → get 16 20 (encode_reply r) ≡ some (le32 r.code)
unfolding encode_reply
code_field r = get-slice 16 20 (encode_reply r) (omega arith)

about_seq_field : (r : Reply) → get 28 32 (encode_reply r) ≡ some (le32 r.about_seq)
unfolding encode_reply
about_seq_field r = get-slice 28 32 (encode_reply r) (omega arith)

u32_of-le32 : (n : ℕ) → n < 2 ^ 32 → u32_of (le32 n) ≡ n
unfolding u32_of
u32_of-le32 n h = of_le32-le32 n h

rejected_seq-encode_reply : (r : Reply) → Fits r → rejected_seq (encode_reply r) ≡ r.about_seq
unfolding rejected_seq
rejected_seq-encode_reply r h =
    ap u32_or_zero (about_seq_field r) ∙ u32_of-le32 r.about_seq h.seq_32

-- An acknowledgement counts once; an error names the message it is about.
pub check_reply-encode_reply :
    (r : Reply)
    → Fits r
    → check_reply (encode_reply r)
      ≡ (if r.code == 0 then ok 1 else err (rejected r.about_seq (saturating_neg r.code)))
unfolding check_reply u16_of
check_reply-encode_reply r h =
    rw (type_field r, code_field r, rejected_seq-encode_reply r h, u32_of-le32 r.code h.code_32)
      refl

checked_align-fits : (n : ℕ) → n < 2 ^ 63 → checked_align n ≡ some (align4 n)
unfolding checked_align
checked_align-fits n h = ground arith

-- A message whose length field is right, filled up to four bytes.
module _ (message rest : Bytes) (long : 16 ≤ length message) (short : length message < 2 ^ 63) where
  abbrev reply : Bytes
  reply = message ++ (padding (length message) ++ rest)

  length-reply : length reply ≡ align4 (length message) + length rest
  length-reply = omega (
    arith,
    length-append message (padding (length message) ++ rest),
    length-append (padding (length message)) rest,
    length-replicate {A = ℕ} (align4 (length message) - length message) 0,
  )

  sound_length : (ltb (length message) 16 || ltb (length reply) (length message)) ≡ false
  sound_length = ground (arith, length-reply)

  padded : ltb (length reply) (align4 (length message)) ≡ false
  padded = ground (arith, length-reply)

  header_part : get 0 (length message) reply ≡ some message
  header_part =
      get-slice 0 (length message) reply (omega (arith, length-reply))
      ∙ ap (λ k. some (take k reply))
          (let e : length message - 0 ≡ length message = omega arith in e)
      ∙ ap some (take-length-append message (padding (length message) ++ rest))

  rest_part : drop (min (align4 (length message)) (length reply)) reply ≡ rest
  rest_part =
      let e : min (align4 (length message)) (length reply)
          ≡ length (message ++ padding (length message)) =
        omega (
          arith,
          length-reply,
          length-append message (padding (length message)),
          length-replicate {A = ℕ} (align4 (length message) - length message) 0,
        ) in
      rw (e, ← append_assoc message (padding (length message)) rest)
        (drop-length-append (message ++ padding (length message)) rest)

  split_at-message : split_at reply (length message) ≡ ok (some (message, rest))
  unfolding split_at
  split_at-message =
      rw (sound_length, checked_align-fits (length message) short, padded, header_part, rest_part)
        refl

-- A reply whose fields fit is split off the front of a datagram, its padding skipped, whatever
-- bytes follow.
pub split_message-encode_reply :
    (r : Reply) (rest : Bytes)
    → Fits r
    → split_message (encode_reply r ++ (pad_reply r ++ rest)) ≡ ok (some (encode_reply r, rest))
unfolding split_message split_at
split_message-encode_reply r rest h =
    let message = encode_reply r in
    let pads : padding (length message) ≡ pad_reply r =
      ap (λ n. replicate n 0) (omega (arith, length-encode_reply r)) in
    let split : split_at (message ++ (pad_reply r ++ rest)) (36 + length r.about_rest)
        ≡ ok (some (message, rest)) =
      rw (← length-encode_reply r, ← pads)
        (split_at-message message rest (omega (arith, length-encode_reply r))
          (omega (arith, length-encode_reply r, h.small))) in
    let long : ltb (length (message ++ (pad_reply r ++ rest))) 16 ≡ false =
      ground (arith, length-append message (pad_reply r ++ rest), length-encode_reply r) in
    rw
      (
        long,
        len_field r (pad_reply r ++ rest),
        u32_of-le32 (36 + length r.about_rest) (omega (arith, h.small)),
      )
      split
