-- ===== src/Guest/Firewall/Replies/Conversation.antt =====
-- The loops of `send_batch` of guest/src/firewall.rs on the kernel's replies as data.
use cargo_unikernel.Common.{
  ℕ, suc, zero, ◌≢◌, ◌+◌, ◌*◌, ◌^◌, ◌≤◌, ◌<◌, ◌≡◌, refl, ap, ◌∙◌, ltb, ◌==◌, true, false, none,
  some, List, [], ◌∷◌, ◌++◌, length, Result, ok, err, Result-cases, arith, All, length-append, map,
  Bool-cases, inl, inr,
}
use cargo_unikernel.Guest.Firewall.Bytes.{Bytes}
use cargo_unikernel.Guest.Firewall.Replies.{
  rejected, saturating_neg, split_message, add_acks, read_datagram, collect_acks,
}
use cargo_unikernel.Guest.Firewall.Replies.Kernel.{
  Reply, Fits, encode_reply, pad_reply, encode_replies, answer, verdict, split_message-encode_reply,
  check_reply-encode_reply, length-encode_reply,
}

-- Every reply takes at least 36 bytes.
length-encode_replies : (rs : List Reply) → length rs * 36 ≤ length (encode_replies rs)
unfolding encode_replies
length-encode_replies [] = omega arith
length-encode_replies (r ∷ rs) = omega (
  arith,
  length-encode_replies rs,
  length-append (encode_reply r) (pad_reply r ++ encode_replies rs),
  length-append (pad_reply r) (encode_replies rs),
  length-encode_reply r,
)

counted : (acks n : ℕ) → acks + suc n < 2 ^ 64 → add_acks acks 1 ≡ suc acks
counted acks n h = omega arith

split_message_nil : split_message [] ≡ ok none
unfolding split_message
split_message_nil = refl

-- With fuel for each reply, and one more, the inner loop gives the answer.
read_datagram-answer :
    (fuel acks : ℕ) (rs : List Reply)
    → All Fits rs
    → length rs < fuel
    → acks + length rs < 2 ^ 64
    → read_datagram fuel acks (encode_replies rs) ≡ some (answer acks rs)
unfolding read_datagram answer encode_replies
read_datagram-answer zero acks rs fits enough small = ground arith
read_datagram-answer (suc fuel) acks [] fits enough small =
    rw (read_datagram, split_message_nil) refl
read_datagram-answer (suc fuel) acks (r ∷ rs) fits enough small = elim (Bool-cases (r.code == 0)) [
  | inl success ↦
      rw
        (
          read_datagram,
          split_message-encode_reply r (encode_replies rs) fits.0,
          check_reply-encode_reply r fits.0,
          success,
        )
        (rw (counted acks (length rs) (omega arith))
          (read_datagram-answer fuel (suc acks) rs fits.1 (omega arith) (omega arith)))
  | inr failure ↦
      rw
        (
          read_datagram,
          split_message-encode_reply r (encode_replies rs) fits.0,
          check_reply-encode_reply r fits.0,
          failure,
        )
        refl
]

-- What `recv` returns for a datagram of replies.
abbrev pub received : List Reply → Result ℕ Bytes
received rs = ok (encode_replies rs)

-- The replies fit their fields, and each datagram the buffer.
pub record Readable (rs : List Reply) : Type 0 where
  pub fits : All Fits rs
  pub short : length (encode_replies rs) ≤ 8192

pub collect_acks-verdict :
    (ackable acks : ℕ) (groups : List (List Reply))
    → All Readable groups
    → ackable + 8192 < 2 ^ 64
    → collect_acks ackable acks (map received groups) ≡ verdict ackable acks groups
unfolding collect_acks verdict
collect_acks-verdict ackable acks [] readable small = refl
collect_acks-verdict ackable acks (rs ∷ rest) readable small =
    elim (Bool-cases (ltb acks ackable)) [
      | inl waiting ↦
          let bound : acks < ackable = ground arith in
          let fits_buffer : ltb 8192 (length (encode_replies rs)) ≡ false =
            ground (arith, readable.0.short) in
          let datagram =
            read_datagram-answer (suc (length (encode_replies rs))) acks rs readable.0.fits
              (omega (arith, length-encode_replies rs))
              (omega (arith, length-encode_replies rs, readable.0.short)) in
          rw (waiting, fits_buffer, datagram)
            (elim (Result-cases (answer acks rs)) [
              | inl (total, e) ↦ rw e (collect_acks-verdict ackable total rest readable.1 small)
              | inr (e, p) ↦ rw p refl
            ])
      | inr done ↦ rw done refl
    ]

-- All of the replies are acknowledgements.
abbrev pub Acknowledges : List Reply → Type 0
Acknowledges rs = All (λ r. r.code ≡ 0) rs

unfoldable pub total : List (List Reply) → ℕ
total [] = 0
total (rs ∷ rest) = length rs + total rest

answer-acks :
    (acks : ℕ) (rs : List Reply) → Acknowledges rs → answer acks rs ≡ ok (acks + length rs)
unfolding answer
answer-acks acks [] h = ap ok (omega arith)
answer-acks acks (r ∷ rs) h = rw h.0 (answer-acks (suc acks) rs h.1 ∙ ap ok (omega arith))

-- An error after acknowledgements.
answer-rejected :
    (acks : ℕ) (rs : List Reply) (bad : Reply) (more : List Reply)
    → Acknowledges rs
    → bad.code ≢ 0
    → answer acks (rs ++ bad ∷ more) ≡ err (rejected bad.about_seq (saturating_neg bad.code))
unfolding answer
answer-rejected acks [] bad more h k = let e : (bad.code == 0) ≡ false = ground arith in rw e refl
answer-rejected acks (r ∷ rs) bad more h k = rw h.0 (answer-rejected (suc acks) rs bad more h.1 k)

pub verdict-acknowledged :
    (ackable acks : ℕ) (groups : List (List Reply))
    → All Acknowledges groups
    → ackable ≤ acks + total groups
    → verdict ackable acks groups ≡ some (ok tt)
unfolding verdict total
verdict-acknowledged ackable acks [] h k =
    let e : ltb acks ackable ≡ false = ground arith in rw e refl
verdict-acknowledged ackable acks (rs ∷ rest) h k = elim (Bool-cases (ltb acks ackable)) [
  | inl waiting ↦
      rw (waiting, answer-acks acks rs h.0)
        (verdict-acknowledged ackable (acks + length rs) rest h.1 (omega arith))
  | inr done ↦ rw done refl
]

-- Too few acknowledgements, then a datagram with an error.
pub verdict-rejected :
    (ackable acks : ℕ) (groups : List (List Reply)) (rs : List Reply) (bad : Reply)
    (more : List Reply) (later : List (List Reply))
    → All Acknowledges groups
    → Acknowledges rs
    → bad.code ≢ 0
    → acks + total groups < ackable
    → verdict ackable acks (groups ++ (rs ++ bad ∷ more) ∷ later)
      ≡ some (err (rejected bad.about_seq (saturating_neg bad.code)))
unfolding verdict total
verdict-rejected ackable acks [] rs bad more later h a b k =
    let e : ltb acks ackable ≡ true = ground arith in
    rw (e, answer-rejected acks rs bad more a b) refl
verdict-rejected ackable acks (g ∷ groups) rs bad more later h a b k =
    let e : ltb acks ackable ≡ true = ground arith in
    rw (e, answer-acks acks g h.0)
      (verdict-rejected ackable (acks + length g) groups rs bad more later h.1 a b (omega arith))
