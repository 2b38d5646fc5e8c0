-- ===== src/Cpu8/Alu/Ops.antt =====
-- ADD, SUB, CMP, the logic operations and SHF of the simulator: the register that they write, what
-- they leave alone, and their flags.
use risc_v_so_c.Base.{
  true, inl, inr, ◌⊎◌, ℕ, ◌+◌, ◌-◌, ◌*◌, ◌/◌, ◌%◌, ◌^◌, ◌<◌, ◌≡◌, ◌≢◌, ◌↔◌, refl, arith, bit,
}
use risc_v_so_c.Base.Int.{ℤ, wrap, ltb_ℤ}
use risc_v_so_c.Base.Bits.{or_disjoint, or_comm}
use risc_v_so_c.Cpu8.Machine.{Sim, s8, set_flags}
use risc_v_so_c.Cpu8.Exec.{exec_cmp, shift, sub_overflow}
use risc_v_so_c.Cpu8.Alu.{wrap_diff, signed_order}

wrap-cases : (z : ℤ) → (wrap 1 z ≡ 0) ⊎ (wrap 1 z ≡ 1)
wrap-cases z = ground arith

-- After CMP of two bytes the first is below the second, as signed numbers, exactly when the sign and
-- overflow flags differ; and, unless the overflow flag is set, exactly when the sign flag is, which
-- is what BR LT reads.
pub exec_cmp_signed :
    (a b : ℕ) (s : Sim)
    → a < 256
    → b < 256
    → let f = (exec_cmp a b s).flags in
      ((ltb_ℤ (s8 a) (s8 b) ≡ true) ↔ (f.n ≢ f.v))
      × ((f.v ≡ 1) ⊎ ((ltb_ℤ (s8 a) (s8 b) ≡ true) ↔ (f.n ≡ 1)))
unfolding exec_cmp set_flags
exec_cmp_signed a b s ha hb =
    let twice : (a + 256 - b) % 256 % 2 ^ 8 ≡ (a + 256 - b) % 256 = omega arith in
    let (both, sign) = signed_order a b ha hb in
    rw (wrap_diff a b ha hb, twice)
      (
        both,
        elim (wrap-cases (sub_overflow a b ((a + 256 - b) % 256))) [
          | inl e ↦ inr (sign e)
          | inr e ↦ inl e
        ],
      )

-- The three shifts of a byte: SHL doubles into the carry, SHR halves with the carry as remainder,
-- ROR (functions 2 and 3) halves and puts the carry on top.
pub shift_lem :
    (a : ℕ)
    → a < 256
    → ((shift 0 a).1 * 256 + (shift 0 a).0 ≡ 2 * a)
      × (2 * (shift 1 a).0 + (shift 1 a).1 ≡ a)
      × (shift 2 a ≡ (a / 2 + 128 * (a % 2), a % 2))
      × (shift 3 a ≡ shift 2 a)
unfolding shift
shift_lem a ha = (
  omega arith,
  omega arith,
  rw or_comm (ground (arith, or_disjoint 7 (bit 0 a * 2 ^ 7) (a / 2 ^ 1))),
  refl,
)
