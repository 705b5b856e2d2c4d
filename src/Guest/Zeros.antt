-- ===== src/Guest/Zeros.antt =====
-- `write_zeros` of guest/src/main.rs. The sink is a parameter: its state, and its `write_all`.
use cargo_unikernel.Common.{
  ℕ, suc, zero, ◌+◌, ◌-◌, ◌≤◌, ◌<◌, ◌≡◌, refl, ap, ◌∙◌, sym, min, false, ◌&&◌, ◌==◌, ltb, ◌∷◌, ◌++◌,
  append_assoc, append-nil, take, length, length-replicate, replicate, is_empty, if◌then◌else◌,
  Option, none, some, Result, ok, err, Result-cases, arith, Bool-cases, inl, inr,
}
use cargo_unikernel.Guest.Firewall.Bytes.{Bytes}

pub data WriteError : Type 0 where
  empty_zero_buffer : WriteError
  sink_failed : ℕ → WriteError

module _ {Sink : Type 0} (write_all : Sink → Bytes → Result ℕ Sink) where
  -- The loop, on fuel: `none` when the fuel runs out.
  unfoldable pub write_loop : ℕ → Sink → ℕ → Bytes → Option (Result WriteError Sink)
  write_loop zero sink remaining zeros = none
  write_loop (suc fuel) sink remaining zeros =
      if remaining == 0
      then some (ok sink)
      else (let n = min remaining (length zeros) in
          elim (write_all sink (take n zeros)) [
            | err e ↦ some (err (sink_failed e))
            | ok after ↦ write_loop fuel after (remaining - n) zeros
          ])

  -- A step writes at least a byte, so `len + 1` steps are enough.
  unfoldable pub write_zeros : Sink → ℕ → Bytes → Option (Result WriteError Sink)
  write_zeros sink len zeros =
      if ltb 0 len && is_empty zeros
      then some (err empty_zero_buffer)
      else write_loop (suc len) sink len zeros

abbrev pub zeros : ℕ → Bytes
zeros n = replicate n 0

-- What a call has to come to: it returns, and after a success exactly the zeros were added.
abbrev pub Zeroed :
    {Sink : Type 0} → (Sink → Bytes) → Sink → ℕ → Option (Result WriteError Sink) → Type 0
Zeroed written sink len none = ⊥
Zeroed written sink len (some (err e)) = Unit
Zeroed written sink len (some (ok after)) = written after ≡ written sink ++ zeros len

take-replicate : (n k : ℕ) → n ≤ k → take n (zeros k) ≡ zeros n
take-replicate zero k h = refl
take-replicate (suc n) zero h = absurd (omega arith)
take-replicate (suc n) (suc k) h = ap (◌∷◌ 0) (take-replicate n k (omega arith))

replicate-add : (m n : ℕ) → zeros m ++ zeros n ≡ zeros (m + n)
replicate-add zero n = ap (λ k. zeros k) (omega arith)
replicate-add (suc m) n =
    ap (◌∷◌ 0) (replicate-add m n) ∙ ap zeros (let e : suc (m + n) ≡ suc m + n = omega arith in e)

module _ {Sink : Type 0} (write_all : Sink → Bytes → Result ℕ Sink) (written : Sink → Bytes)
    (writes : (sink : Sink) (bytes : Bytes) (after : Sink)
      → write_all sink bytes ≡ ok after
      → written after ≡ written sink ++ bytes) where
  abbrev chunk : ℕ → ℕ → ℕ
  chunk len k = min len (length (zeros k))

  chunk-zeros : (len k : ℕ) → take (chunk len k) (zeros k) ≡ zeros (chunk len k)
  chunk-zeros len k = take-replicate (chunk len k) k (omega (arith, length-replicate {A = ℕ} k 0))

  then_rest :
      (sink after last : Sink) (len k : ℕ)
      → write_all sink (take (chunk len k) (zeros k)) ≡ ok after
      → written last ≡ written after ++ zeros (len - chunk len k)
      → written last ≡ written sink ++ zeros len
  then_rest sink after last len k e q =
      q
      ∙ ap (λ ys. ys ++ zeros (len - chunk len k)) (writes sink _ after e)
      ∙ append_assoc (written sink) _ _
      ∙ ap (◌++◌ (written sink)) (
          ap (λ ys. ys ++ zeros (len - chunk len k)) (chunk-zeros len k)
          ∙ replicate-add (chunk len k) (len - chunk len k)
          ∙ ap (λ j. zeros j) (omega arith))

  at_end : (sink : Sink) (len : ℕ) → len ≡ 0 → written sink ≡ written sink ++ zeros len
  at_end sink len z = rw z (sym (append-nil (written sink)))

  carry :
      (sink after : Sink) (len k : ℕ)
      → write_all sink (take (chunk len k) (zeros k)) ≡ ok after
      → (r : Option (Result WriteError Sink)) → Zeroed written after (len - chunk len k) r
      → Zeroed written sink len r
  carry sink after len k e (some (ok last)) q = then_rest sink after last len k e q
  carry sink after len k e (some (err error)) q = tt
  carry sink after len k e none q = elim q [ ]

  write_loop-Zeroed :
      (fuel : ℕ) (sink : Sink) (len k : ℕ)
      → len < fuel
      → 0 < k
      → Zeroed written sink len (write_loop write_all fuel sink len (zeros k))
  unfolding write_loop
  write_loop-Zeroed zero sink len k h p = absurd (omega arith)
  write_loop-Zeroed (suc fuel) sink len k h p = elim (Bool-cases (len == 0)) [
    | inl done ↦ rw done (at_end sink len (ground arith))
    | inr more ↦ elim (Result-cases (write_all sink (take (chunk len k) (zeros k)))) [
      | inl (after, e) ↦
          rw (more, e)
            (carry sink after len k e _ (
              write_loop-Zeroed fuel after (len - chunk len k) k
                (omega (arith, length-replicate {A = ℕ} k 0, len_positive more)) p))
      | inr (error, e) ↦ rw (more, e) tt
    ]
  ]
    where
      len_positive : (len == 0) ≡ false → 0 < len
      len_positive m = ground arith

  -- With a sink that keeps what a successful `write_all` was given, and a buffer of at least one
  -- zero, `write_zeros` returns, and after a success exactly `len` zeros were added.
  pub write_zeros-Zeroed :
      (sink : Sink) (len k : ℕ)
      → 0 < k
      → Zeroed written sink len (write_zeros write_all sink len (zeros k))
  unfolding write_zeros
  write_zeros-Zeroed sink len (suc k) p =
      let e : (ltb 0 len && is_empty (zeros (suc k))) ≡ false = ground arith in
      rw e (write_loop-Zeroed (suc len) sink len (suc k) (omega arith) p)
  write_zeros-Zeroed sink len zero p = absurd (omega arith)
