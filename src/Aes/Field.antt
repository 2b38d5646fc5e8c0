-- ===== src/Aes/Field.antt =====
-- `xtime`, multiplication by x in the field of AES: it is linear over `^`, and so are its powers.
use risc_v_so_c.Base.{
  ℕ, zero, suc, ◌+◌, ◌*◌, ◌%◌, ◌<◌, ◌≡◌, inl, inr, refl, arith, bit_xor, bit, low, ◌==◌, Bool-cases,
  bit_and,
}
use risc_v_so_c.Base.Bits.{bit-xor, and_power}
use risc_v_so_c.Base.Xor.{bit_ext, xor_zero, xor_double, low-xor}
use risc_v_so_c.Aes.{xtime}

-- The reduction is a product with the top bit.
xtime_lem : (b : ℕ) → xtime b ≡ bit_xor (low 8 (b * 2)) (bit 7 b * 0x1b)
unfolding xtime
xtime_lem b = elim (Bool-cases (bit_and b 0x80 == 0)) [
  | inl clear ↦
      let top : bit 7 b ≡ 0 = ground (arith, and_power 7 b) in
      rw (clear, top, xor_zero (b * 2 % 256)) refl
  | inr more ↦
      let top : bit 7 b ≡ 1 = ground (arith, and_power 7 b) in
      rw (more, top, low-xor 8 (b * 2) 0x1b) refl
]

pub xtime-lt : (b : ℕ) → xtime b < 256
unfolding xtime
xtime-lt b = ground arith

reduction-xor : (x y : ℕ) → x < 2 → y < 2 → bit_xor (x * 0x1b) (y * 0x1b) ≡ (x + y) % 2 * 0x1b
reduction-xor zero zero p q = refl
reduction-xor zero (suc zero) p q = refl
reduction-xor (suc zero) zero p q = refl
reduction-xor (suc zero) (suc zero) p q = refl
reduction-xor zero (suc (suc y)) p q = absurd (omega arith)
reduction-xor (suc zero) (suc (suc y)) p q = absurd (omega arith)
reduction-xor (suc (suc x)) y p q = absurd (omega arith)

-- Four terms regrouped.
regroup : (a b c d : ℕ) → bit_xor (bit_xor a b) (bit_xor c d) ≡ bit_xor (bit_xor a c) (bit_xor b d)
regroup a b c d = bit_ext _ _ (λ k. simp bit-xor (omega arith))

pub xtime-xor : (a b : ℕ) → xtime (bit_xor a b) ≡ bit_xor (xtime a) (xtime b)
xtime-xor a b =
    let top : bit 7 (bit_xor a b) * 0x1b ≡ bit_xor (bit 7 a * 0x1b) (bit 7 b * 0x1b) =
      rw (bit-xor 7 a b, reduction-xor (bit 7 a) (bit 7 b) (omega arith) (omega arith)) refl in
    rw
      (
        xtime_lem (bit_xor a b),
        xor_double a b,
        low-xor 8 (a * 2) (b * 2),
        top,
        xtime_lem a,
        xtime_lem b,
      )
      (regroup (low 8 (a * 2)) (low 8 (b * 2)) (bit 7 a * 0x1b) (bit 7 b * 0x1b))
