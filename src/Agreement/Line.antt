-- ===== src/Agreement/Line.antt =====
-- The values that the line protocol between guest/build.rs and Cargo leaves as they are.
use cargo_unikernel.Common.{◌≡◌, refl, false, ◌==◌, any, [], ◌∷◌, arith}
use cargo_unikernel.Std.Text.{Text, Lack, contains, is_whitespace, trim_end}
use cargo_unikernel.Std.Solid.{Solid, trim_end-Solid}
use cargo_unikernel.Guest.Baked.{first_line, rustc_env}

-- One line, without white space at its end.
abbrev pub OneLine : Text → Type 0
OneLine value = Lack 10 value × (trim_end value ≡ value)

first_line-Lack : (s : Text) → Lack 10 s → first_line s ≡ s
unfolding first_line contains
first_line-Lack [] h = refl
first_line-Lack (c ∷ s) h =
    let other : (c == 10) ≡ false = ground arith in
    rw (other, first_line-Lack s (ground arith)) refl

pub rustc_env-OneLine : (s : Text) → OneLine s → rustc_env s ≡ s
unfolding rustc_env
rustc_env-OneLine s h = rw (first_line-Lack s h.0) h.1

Solid-Lack : (s : Text) → Solid s → Lack 10 s
unfolding any contains is_whitespace
Solid-Lack [] h = refl
Solid-Lack (c ∷ s) h =
    let other : (c == 10) ≡ false = ground arith in rw (other, Solid-Lack s (ground arith)) refl

pub rustc_env-Solid : (s : Text) → Solid s → rustc_env s ≡ s
rustc_env-Solid s h = rustc_env-OneLine s (Solid-Lack s h, trim_end-Solid s h)
