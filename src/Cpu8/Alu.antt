-- ===== src/Cpu8/Alu.antt =====
-- The arithmetic of the simulator against signed and unsigned arithmetic on bytes.
pub mod Ops
use native.Mathlib.Decide.{dec_lt}
use risc_v_so_c.Base.{
  get_elem?, ℕ, ◌+◌, ◌-◌, ◌%◌, ◌^◌, ◌≤◌, ◌<◌, ◌≡◌, ◌≢◌, ◌↔◌, Bool, ◌==◌, true, ltb, if◌then◌else◌,
  Option, some, arith, bit, min, max,
}
use risc_v_so_c.Base.Int.{ℤ, pos, negsuc, ◌+ℤ◌, ◌-ℤ◌, wrap, ltb_ℤ}
use risc_v_so_c.Base.Bits.{bit-and, bit-or, bit-and_not}
use risc_v_so_c.Cpu8.Machine.{Sim, Flags, s8, reg_read}
use risc_v_so_c.Cpu8.Exec.{sub_overflow, exec_add, exec_sub, exec_logic}

sub_overflow_bits :
    (a b r : ℕ)
    → wrap 1 (sub_overflow a b r)
      ≡ max (bit 7 a - bit 7 b - bit 7 r) (min (bit 7 b - bit 7 a) (bit 7 r))
unfolding sub_overflow
sub_overflow_bits a b r = simp (bit-or, bit-and_not, bit-and)

pub wrap_diff : (a b : ℕ) → a < 256 → b < 256 → wrap 8 (pos a -ℤ pos b) ≡ (a + 256 - b) % 256
wrap_diff a b ha hb = ground arith

s8_low : (x : ℕ) → x < 128 → s8 x ≡ pos x
unfolding s8
s8_low x h = ground arith

s8_high : (x : ℕ) → 128 ≤ x → x < 256 → s8 x ≡ negsuc (255 - x)
unfolding s8
s8_high x h k = ground arith

module _ (a b : ℕ) (ha : a < 256) (hb : b < 256) where
  abbrev diff : ℕ
  diff = (a + 256 - b) % 256

  -- A statement may be proved for each pair of signs, with the operands read as they stand then.
  pub by_signs :
      (P : ℤ → ℤ → Type 0)
      → (a < 128 → b < 128 → P (pos a) (pos b))
      → (a < 128 → 128 ≤ b → P (pos a) (negsuc (255 - b)))
      → (128 ≤ a → b < 128 → P (negsuc (255 - a)) (pos b))
      → (128 ≤ a → 128 ≤ b → P (negsuc (255 - a)) (negsuc (255 - b)))
      → P (s8 a) (s8 b)
  by_signs P ll lh hl hh = elim (dec_lt a 128) [
    | yes p ↦ elim (dec_lt b 128) [
      | yes q ↦ rw (s8_low a p, s8_low b q) (ll p q)
      | no q ↦ rw (s8_low a p, s8_high b (omega arith) hb) (lh p (omega arith))
    ]
    | no p ↦ elim (dec_lt b 128) [
      | yes q ↦ rw (s8_high a (omega arith) ha, s8_low b q) (hl (omega arith) q)
      | no q ↦
          rw (s8_high a (omega arith) ha, s8_high b (omega arith) hb)
            (hh (omega arith) (omega arith))
    ]
  ]

  -- The signed order, from the sign and the overflow of the difference.
  pub signed_order :
      ((ltb_ℤ (s8 a) (s8 b) ≡ true) ↔ (bit 7 diff ≢ wrap 1 (sub_overflow a b diff)))
      × (wrap 1 (sub_overflow a b diff) ≡ 0 → (ltb_ℤ (s8 a) (s8 b) ≡ true) ↔ (bit 7 diff ≡ 1))
  signed_order =
      let bits = sub_overflow_bits a b diff in
      by_signs
        (λ x y.
          ((ltb_ℤ x y ≡ true) ↔ (bit 7 diff ≢ wrap 1 (sub_overflow a b diff)))
          × (wrap 1 (sub_overflow a b diff) ≡ 0 → (ltb_ℤ x y ≡ true) ↔ (bit 7 diff ≡ 1)))
        (λ p q. (ground (arith, bits), λ v. ground (arith, bits)))
        (λ p q. (ground (arith, bits), λ v. ground (arith, bits)))
        (λ p q. (ground (arith, bits), λ v. ground (arith, bits)))
        (λ p q. (ground (arith, bits), λ v. ground (arith, bits)))

-- What ADD leaves in the flags: zero, the sign, the carry out of bit 7, and whether the signed sum
-- is not the sum of the signed operands.
pub record AddFlags (a b : ℕ) (f : Flags) : Type 0 where
  pub zero_flag : (f.z ≡ 1) ↔ ((a + b) % 256 ≡ 0)
  pub sign_flag : (f.n ≡ 1) ↔ (128 ≤ (a + b) % 256)
  pub carry_flag : (f.c ≡ 1) ↔ (256 ≤ a + b)
  pub overflow_flag : (f.v ≡ 1) ↔ (s8 a +ℤ s8 b ≢ s8 ((a + b) % 256))

-- What SUB and CMP leave there: the carry is the borrow.
pub record SubFlags (a b : ℕ) (f : Flags) : Type 0 where
  pub zero_flag : (f.z ≡ 1) ↔ (a ≡ b)
  pub sign_flag : (f.n ≡ 1) ↔ (128 ≤ (a + 256 - b) % 256)
  pub carry_flag : (f.c ≡ 1) ↔ (a < b)
  pub overflow_flag : (f.v ≡ 1) ↔ (s8 a -ℤ s8 b ≢ s8 ((a + 256 - b) % 256))

-- `s'` is `s` with `x` in register `rd` (but R0 reads 0) and all else but the flags as it was.
pub record Writes (rd x : ℕ) (s s' : Sim) : Type 0 where
  pub written : reg_read s' rd ≡ some (if rd == 0 then 0 else x)
  pub others : (j : ℕ) → j ≢ rd → reg_read s' j ≡ reg_read s j
  pub same_dmem : s'.dmem ≡ s.dmem
  pub same_imem : s'.imem ≡ s.imem
  pub same_sp : s'.sp ≡ s.sp
  pub same_pc : s'.pc ≡ s.pc
