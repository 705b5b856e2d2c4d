-- ===== src/Guest/Firewall/NlBuf.antt =====
-- `NlBuf` of guest/src/firewall.rs: a buffer whose length fields are patched in once their
-- content is known. A method is an action on the buffer.
pub mod Laws
pub mod Messages
use cargo_unikernel.Common.{
  ℕ, ◌+◌, ◌-◌, ◌^◌, Bool, true, false, ◌||◌, not, List, [], ◌∷◌, ◌++◌, Result, ok, err, leb, ltb,
  if◌then◌else◌, length, take, drop, replicate, bit_or,
}
use cargo_unikernel.Guest.Firewall.Bytes.{Bytes, le16, le32, be16, be32, align4}

pub record NlBuf : Type 0 where
  pub bytes : Bytes
  pub overflowed : Bool

-- `NlBuf::default()`.
unfoldable pub default_buf : NlBuf
default_buf = record { bytes = []; overflowed = false }

abbrev pub Act : Type 0 → Type 0
Act A = NlBuf → A × NlBuf

infixl 5 ◌>>=◌ ◌>>◌
abbrev pub ◌>>=◌ : {A B : Type 0} → Act A → (A → Act B) → Act B
◌>>=◌ m f b = let r = m b in f r.0 r.1

abbrev pub ◌>>◌ : {B : Type 0} → Act (Unit {0}) → Act B → Act B
m >> k = m >>= λ _. k

abbrev pub pure : {A : Type 0} → A → Act A
pure a b = (a, b)

unfoldable pub put : Bytes → Act (Unit {0})
put xs b = (tt, record b { bytes = b.bytes ++ xs })

unfoldable pub pad : Act (Unit {0})
pad b = (tt, record b { bytes = b.bytes ++ replicate (align4 (length b.bytes) - length b.bytes) 0 })

-- `bytes[at..at + len].copy_from_slice(new)`.
unfoldable pub splice : ℕ → Bytes → Bytes → Bytes
splice at new xs = take at xs ++ (new ++ drop (at + length new) xs)

-- `u32::try_from` refuses a value that does not fit, and `get_mut` a slot outside the buffer.
unfoldable pub patch : ℕ → ℕ → Bytes → ℕ → Act (Unit {0})
unfolding splice
patch limit at new value b =
    if leb limit value || ltb (length b.bytes) (at + length new)
    then (tt, record b { overflowed = true })
    else (tt, record b { bytes = splice at new b.bytes })

unfoldable pub patch_u32 : ℕ → ℕ → Act (Unit {0})
unfolding patch
patch_u32 at value = patch (2 ^ 32) at (le32 value) value

unfoldable pub patch_u16 : ℕ → ℕ → Act (Unit {0})
unfolding patch
patch_u16 at value = patch (2 ^ 16) at (le16 value) value

unfoldable pub begin_msg : ℕ → ℕ → ℕ → Act ℕ
unfolding put
begin_msg msg_type flags seq b =
    (do
      put (le32 0)
      put (le16 msg_type)
      put (le16 flags)
      put (le32 seq)
      put (le32 0)
      pure (length b.bytes))
      b

unfoldable pub end_msg : ℕ → Act (Unit {0})
unfolding pad patch_u32
end_msg at = do pad; λ b. patch_u32 at (length b.bytes - at) b

unfoldable pub put_nfgenmsg : ℕ → ℕ → Act (Unit {0})
unfolding put
put_nfgenmsg family res_id = do put (family ∷ 0 ∷ []); put (be16 res_id)

abbrev pub nla_hdr_len : ℕ
nla_hdr_len = 4

unfoldable pub put_attr : ℕ → Bytes → Act (Unit {0})
unfolding put pad
put_attr attr_type payload b =
    let len = nla_hdr_len + length payload in
    if leb (2 ^ 16) len
    then (tt, record b { overflowed = true })
    else (do put (le16 len); put (le16 attr_type); put payload; pad) b

unfoldable pub put_be32 : ℕ → ℕ → Act (Unit {0})
unfolding put_attr
put_be32 attr_type value = put_attr attr_type (be32 value)

unfoldable pub put_str : ℕ → Bytes → Act (Unit {0})
unfolding put_attr
put_str attr_type value = put_attr attr_type (value ++ 0 ∷ [])

-- `NLA_F_NESTED`.
abbrev pub nla_f_nested : ℕ
nla_f_nested = 0x8000

unfoldable pub begin_nested : ℕ → Act ℕ
unfolding put
begin_nested attr_type b =
    (do put (le16 0); put (le16 (bit_or attr_type nla_f_nested)); pure (length b.bytes)) b

unfoldable pub end_nested : ℕ → Act (Unit {0})
unfolding pad patch_u16
end_nested at = do pad; λ b. patch_u16 at (length b.bytes - at) b

-- The `begin_msg`/`end_msg` pair that stands around every message and its `nfgenmsg`.
unfoldable pub message : ℕ → ℕ → ℕ → ℕ → ℕ → Act (Unit {0}) → Act (Unit {0})
unfolding begin_msg end_msg put_nfgenmsg
message msg_type flags seq family res_id body = do
  at ← begin_msg msg_type flags seq
  put_nfgenmsg family res_id
  body
  end_msg at

pub data BuildError : Type 0 where
  message_limits_exceeded : BuildError

unfoldable pub finish : NlBuf → Result BuildError Bytes
finish b = if b.overflowed then err message_limits_exceeded else ok b.bytes

-- The `begin_nested`/`end_nested` pair that stands around every body.
unfoldable pub nested : ℕ → Act (Unit {0}) → Act (Unit {0})
unfolding begin_nested end_nested
nested attr_type body = do at ← begin_nested attr_type; body; end_nested at
