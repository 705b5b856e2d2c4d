-- ===== src/Guest/Firewall/Replies.antt =====
-- `split_message`, `check_reply`, `send_batch` and `install` of guest/src/firewall.rs. What the
-- system calls of `send_batch` return is its input: the results of the calls that open the
-- socket and send the batch, and the results of `recv` in order.
pub mod Kernel
pub mod Conversation
pub mod Install
use cargo_unikernel.Common.{
  ℕ, suc, zero, ◌+◌, ◌-◌, ◌*◌, ◌/◌, ◌%◌, ◌^◌, ◌≤◌, ◌<◌, min, leb, ltb, ◌==◌, ◌&&◌, ◌||◌, not,
  if◌then◌else◌, Bool, Option, none, some, List, [], ◌∷◌, take, drop, length, Result, ok, err,
  ◌>>=◌, ◌>>◌, ok_or, reject_if,
}
use cargo_unikernel.Guest.Firewall.Bytes.{Bytes, of_le16, of_le32}
use cargo_unikernel.Guest.Firewall.Rules.{Rule}
use cargo_unikernel.Guest.Firewall.Uapi.{nlmsg_hdr_len, nlmsg_alignto, nlmsg_error}
use cargo_unikernel.Guest.Firewall.Batch.{Batch, build_batch}
use cargo_unikernel.Guest.Firewall.NlBuf.{BuildError}

pub data SendError : Type 0 where
  system : ℕ → SendError
  short_read : SendError
  malformed_length : SendError
  length_overflow : SendError
  truncated_padding : SendError
  truncated_header : SendError
  truncated_error : SendError
  rejected : ℕ → ℕ → SendError

-- Rust's `xs.get(from..to)`.
unfoldable pub get : ℕ → ℕ → Bytes → Option Bytes
get from to xs = if leb to (length xs) then some (take (to - from) (drop from xs)) else none

-- `from_ne_bytes` of two and of four bytes.
unfoldable pub u16_of : Bytes → ℕ
u16_of (a ∷ b ∷ []) = of_le16 a b
u16_of _ = 0

unfoldable pub u32_of : Bytes → ℕ
u32_of (a ∷ b ∷ c ∷ d ∷ []) = of_le32 a b c d
u32_of _ = 0

-- `n.checked_add(NLMSG_ALIGNTO - 1).map(|n| n & !(NLMSG_ALIGNTO - 1))` of a 64-bit number.
unfoldable pub checked_align : ℕ → Option ℕ
checked_align n =
    if ltb (n + (nlmsg_alignto - 1)) (2 ^ 64)
    then some ((n + (nlmsg_alignto - 1)) / nlmsg_alignto * nlmsg_alignto)
    else none

unfoldable pub split_at : Bytes → ℕ → Result SendError (Option (Bytes × Bytes))
split_at reply len = do
  reject_if (ltb len nlmsg_hdr_len || ltb (length reply) len) malformed_length
  aligned ← ok_or (checked_align len) length_overflow
  reject_if (ltb (length reply) aligned && not (len == length reply)) truncated_padding
  header ← ok_or (get 0 len reply) malformed_length
  ok (some (header, drop (min aligned (length reply)) reply))

unfoldable pub split_message : Bytes → Result SendError (Option (Bytes × Bytes))
unfolding split_at
split_message reply =
    if ltb (length reply) nlmsg_hdr_len
    then ok none
    else elim (get 0 4 reply) [ none ↦ ok none | some len ↦ split_at reply (u32_of len) ]

-- `code.saturating_neg()`, on the two's complement of 32 bits.
abbrev pub saturating_neg : ℕ → ℕ
saturating_neg code = if code == 2 ^ 31 then 2 ^ 31 - 1 else (2 ^ 32 - code) % 2 ^ 32

abbrev pub u32_or_zero : Option Bytes → ℕ
u32_or_zero none = 0
u32_or_zero (some b) = u32_of b

unfoldable pub rejected_seq : Bytes → ℕ
rejected_seq message = u32_or_zero (get (nlmsg_hdr_len + 12) (nlmsg_hdr_len + 16) message)

unfoldable pub check_reply : Bytes → Result SendError ℕ
unfolding rejected_seq
check_reply message = do
  msg_type ← ok_or (get 4 6 message) truncated_header
  if not (u16_of msg_type == nlmsg_error) then ok 0 else (do
    code ← ok_or (get nlmsg_hdr_len (nlmsg_hdr_len + 4) message) truncated_error
    if u32_of code == 0
        then ok 1
        else err (rejected (rejected_seq message) (saturating_neg (u32_of code))))

-- `acks.saturating_add(n)`.
abbrev pub add_acks : ℕ → ℕ → ℕ
add_acks acks n = min (acks + n) (2 ^ 64 - 1)

-- The inner loop, on fuel: `none` when the fuel runs out.
unfoldable pub read_datagram : ℕ → ℕ → Bytes → Option (Result SendError ℕ)
read_datagram zero acks reply = none
read_datagram (suc fuel) acks reply = elim (split_message reply) [
  | err e ↦ some (err e)
  | ok none ↦ some (ok acks)
  | ok (some (header, rest)) ↦ elim (check_reply header) [
    | err e ↦ some (err e)
    | ok n ↦ read_datagram fuel (add_acks acks n) rest
  ]
]

-- The outer loop over what `recv` returns, at most 8192 bytes each time. `none` while it waits
-- for more than the results given.
unfoldable pub collect_acks : ℕ → ℕ → List (Result ℕ Bytes) → Option (Result SendError (Unit {0}))
collect_acks ackable acks [] = if ltb acks ackable then none else some (ok tt)
collect_acks ackable acks (r ∷ rs) = if not (ltb acks ackable) then some (ok tt) else elim r [
  | err errno ↦ some (err (system errno))
  | ok datagram ↦
      if ltb 8192 (length datagram)
      then some (err short_read)
      else elim (read_datagram (suc (length datagram)) acks datagram) [
        | none ↦ none
        | some (err e) ↦ some (err e)
        | some (ok total) ↦ collect_acks ackable total rs
      ]
]

-- The calls before the loop, and the loop.
unfoldable pub send_batch :
    Result ℕ (Unit {0}) → List (Result ℕ Bytes) → Batch → Option (Result SendError (Unit {0}))
send_batch (err errno) replies batch = some (err (system errno))
send_batch (ok _) replies batch = collect_acks batch.ackable 0 replies

-- What the boot does: it goes on, or it stops with one of the two messages.
pub data Installed : Type 0 where
  installed : Installed
  build_failed : BuildError → Installed
  install_failed : SendError → Installed

-- `if let Err(e) = send_batch(&batch)`.
abbrev pub after_send : Option (Result SendError (Unit {0})) → Option Installed
after_send none = none
after_send (some (err e)) = some (install_failed e)
after_send (some (ok _)) = some installed

unfoldable pub install :
    Bool → (Batch → Option (Result SendError (Unit {0}))) → List Rule → Option Installed
install ipv6 send rules = elim (build_batch ipv6 rules) [
  | err e ↦ some (build_failed e)
  | ok batch ↦ after_send (send batch)
]
