-- ===== src/Guest/Firewall/Bytes.antt =====
-- Integers as bytes. The guest is built for x86_64 only, so `to_ne_bytes` is little-endian.
use cargo_unikernel.Common.{ℕ, ◌+◌, ◌*◌, ◌/◌, ◌%◌, ◌<◌, ◌^◌, ◌≡◌, List, [], ◌∷◌, arith}

abbrev pub Bytes : Type 0
Bytes = List ℕ

abbrev pub le16 : ℕ → Bytes
le16 n = n % 256 ∷ n / 256 % 256 ∷ []

abbrev pub le32 : ℕ → Bytes
le32 n = n % 256 ∷ n / 256 % 256 ∷ n / 65536 % 256 ∷ n / 16777216 % 256 ∷ []

abbrev pub be16 : ℕ → Bytes
be16 n = n / 256 % 256 ∷ n % 256 ∷ []

abbrev pub be32 : ℕ → Bytes
be32 n = n / 16777216 % 256 ∷ n / 65536 % 256 ∷ n / 256 % 256 ∷ n % 256 ∷ []

-- `from_ne_bytes`, and `from_be_bytes` of two bytes.
abbrev pub of_le16 : ℕ → ℕ → ℕ
of_le16 a b = a + b * 256

abbrev pub of_le32 : ℕ → ℕ → ℕ → ℕ → ℕ
of_le32 a b c d = a + b * 256 + c * 65536 + d * 16777216

abbrev pub of_be16 : ℕ → ℕ → ℕ
of_be16 a b = a * 256 + b

pub of_le16-le16 : (n : ℕ) → n < 65536 → of_le16 (n % 256) (n / 256 % 256) ≡ n
of_le16-le16 n h = omega arith

pub of_le32-le32 :
    (n : ℕ)
    → n < 2 ^ 32
    → of_le32 (n % 256) (n / 256 % 256) (n / 65536 % 256) (n / 16777216 % 256) ≡ n
of_le32-le32 n h = omega arith

-- `len.next_multiple_of(4)`.
abbrev pub align4 : ℕ → ℕ
align4 len = (len + 3) / 4 * 4
