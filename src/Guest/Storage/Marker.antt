-- ===== src/Guest/Storage/Marker.antt =====
-- When guest/src/storage.rs takes a device for its own, and what it does to the others.
use cargo_unikernel.Common.{
  ℕ, ◌-◌, ◌<◌, ◌≡◌, refl, ap, ◌∙◌, sym, ◌↔◌, suc, zero, Bool, true, false, ◌&&◌, not, ◌==◌,
  if◌then◌else◌, [], ◌∷◌, ◌++◌, take, drop, length, length-append, append_assoc, append-nil,
  take-length-append, drop-length-append, replicate, arith,
}
use cargo_unikernel.Std.Text.{text_eq, text_eq_iff}
use cargo_unikernel.Guest.Firewall.Bytes.{Bytes, of_le16}
use cargo_unikernel.Guest.Storage.{volume_label, first_byte, all_zero, superblock_is_ours}

all_zero_iff : (bs : Bytes) → (all_zero bs ≡ true) ↔ (bs ≡ replicate (length bs) 0)
unfolding all_zero
all_zero_iff [] = (λ _. refl, λ _. refl)
all_zero_iff (b ∷ bs) = (λ h. ground (arith, all_zero_iff bs), λ h. ground (arith, all_zero_iff bs))

drop-past : (n : ℕ) (p q : Bytes) → length p ≡ n → drop n (p ++ q) ≡ q
drop-past n p q h = rw⁻¹ h (drop-length-append p q)

take-all : (n : ℕ) (p : Bytes) → length p ≡ n → take n p ≡ p
take-all n p h = rw⁻¹ h (ap (take (length p)) (sym (append-nil p)) ∙ take-length-append p [])

take-drop : (n : ℕ) (p : Bytes) → take n p ++ drop n p ≡ p
take-drop zero p = refl
take-drop (suc n) [] = refl
take-drop (suc n) (x ∷ p) = ap (◌∷◌ x) (take-drop n p)

length-drop : (n : ℕ) (p : Bytes) → length (drop n p) ≡ length p - n
length-drop zero p = omega arith
length-drop (suc n) [] = omega arith
length-drop (suc n) (x ∷ p) = omega (arith, length-drop n p)

and-left : (x y : Bool) → (x && y) ≡ true → x ≡ true
and-left x y h = ground arith

and-right : (x y : Bool) → (x && y) ≡ true → y ≡ true
and-right x y h = ground arith

-- The label as the code compares it, in two parts.
label_parts :
    (label : Bytes)
    → length label ≡ 16
    → ((text_eq (take 7 label) volume_label && all_zero (drop 7 label)) ≡ true)
      ↔ (label ≡ volume_label ++ replicate 9 0)
unfolding text_eq all_zero
label_parts label h =
    let tail : length (drop 7 label) ≡ 9 = omega (arith, length-drop 7 label) in
    (
      λ both.
          let head_eq : take 7 label ≡ volume_label =
            (text_eq_iff (take 7 label) volume_label).0 (and-left _ _ both) in
          let tail_eq : drop 7 label ≡ replicate 9 0 =
            (all_zero_iff (drop 7 label)).0 (and-right _ _ both) ∙ ap (λ k. replicate k 0) tail in
          sym (take-drop 7 label)
          ∙ ap (λ p. p ++ drop 7 label) head_eq
          ∙ ap (◌++◌ volume_label) tail_eq,
      λ e. rw e refl,
    )

module _ (pre mid label : Bytes) (a b : ℕ) (l : length pre ≡ 56) (m : length mid ≡ 62)
    (n : length label ≡ 16) where
  abbrev sb : Bytes
  sb = pre ++ a ∷ b ∷ (mid ++ label)

  drop-magic : drop 56 sb ≡ a ∷ b ∷ (mid ++ label)
  drop-magic = drop-past 56 pre (a ∷ b ∷ (mid ++ label)) l

  drop-second : drop 57 sb ≡ b ∷ (mid ++ label)
  drop-second =
      ap (drop 57) (sym (append_assoc pre (a ∷ []) (b ∷ (mid ++ label))))
      ∙ drop-past 57 (pre ++ a ∷ []) (b ∷ (mid ++ label))
          (omega (arith, l, length-append pre (a ∷ [])))

  label_bytes : take 16 (drop 120 sb) ≡ label
  label_bytes =
      ap (λ xs. take 16 (drop 120 xs)) (sym (append_assoc pre (a ∷ b ∷ mid) label))
      ∙ ap (take 16) (
          drop-past 120 (pre ++ a ∷ b ∷ mid) label
            (omega (arith, l, m, length-append pre (a ∷ b ∷ mid))))
      ∙ take-all 16 label n

  -- A superblock of 136 bytes is taken for this image's own exactly if its two magic bytes are
  -- ext4's and its label is the image's, filled up with zeros.
  pub superblock_is_ours_iff :
      a < 256
      → b < 256
      → (superblock_is_ours sb ≡ true)
        ↔ ((a ≡ 0x53) × (b ≡ 0xEF) × (label ≡ volume_label ++ replicate 9 0))
  unfolding superblock_is_ours text_eq all_zero
  superblock_is_ours_iff p q =
      rw (ap first_byte drop-magic, ap first_byte drop-second, label_bytes)
        (λ h. magic_and_label h, λ e. rw (e.0, e.1, e.2) refl)
    where
      magic_and_label :
          (if not (of_le16 a b == 0xEF53)
              then false
              else (text_eq (take 7 label) volume_label && all_zero (drop 7 label)))
            ≡ true
          → (a ≡ 0x53) × (b ≡ 0xEF) × (label ≡ volume_label ++ replicate 9 0)
      magic_and_label h =
          let magic : of_le16 a b ≡ 0xEF53 = ground arith in
          (omega arith, omega arith, (label_parts label n).0 (ground arith))
