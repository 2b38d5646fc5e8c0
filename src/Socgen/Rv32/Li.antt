-- ===== src/Socgen/Rv32/Li.antt =====
-- socgen/asm.py, `li`: the words that it emits load the constant.
use risc_v_so_c.Base.{
  ℕ, ◌+◌, ◌*◌, ◌/◌, ◌%◌, ◌^◌, ◌<◌, ◌≡◌, refl, arith, true, false, ◌==◌, Bool-cases, inl, inr, some,
  bit_or, bit_and,
}
use risc_v_so_c.Base.Int.{ℤ, pos, negsuc, ◌+ℤ◌, ◌≤ℤ◌, ◌-ℤ◌, wrap}
use risc_v_so_c.Base.Bits.{and_power, wrap-lt}
use risc_v_so_c.Base.Text.{Text, text_eq}
use risc_v_so_c.Base.Dict.{get, text_key, get-All}
use risc_v_so_c.Base.Results.{ok, or_raise-ok}
use risc_v_so_c.Socgen.Asm.{
  Register, numbered, named, registers, reg, outside, check_imm, i_word, x0, li_parts,
}
use risc_v_so_c.Socgen.Rv32.{Registers, read, update, run_word, signed}
use risc_v_so_c.Socgen.Rv32.Formats.{i_word-IFields, u_word-UFields}

in_range_or : (n : ℤ) → (outside (pos 0) (pos 31) n ≡ false) → (r : ℕ) × (n ≡ pos r) × (r < 32)
in_range_or (pos n) h = (n, refl, ground arith)
in_range_or (negsuc n) h = absurd (ground arith)

registers-lt : (t : Text) (d : ℕ) → get registers t ≡ some d → d < 32
registers-lt t d h = get-All (λ v. v < 32) registers t d (omega arith) h

pub reg-lt : (r : Register) (d : ℕ) → reg r ≡ ok d → d < 32
unfolding reg
reg-lt (numbered n) d h = ground arith
reg-lt (named t) d h = registers-lt t d (or_raise-ok (get registers t) _ h)

pub check_imm_inside :
    (imm : ℤ)
    → negsuc 2047 ≤ℤ imm
    → imm ≤ℤ pos 2047
    → (check_imm imm 12 true ≡ ok (wrap 12 imm))
      × (wrap 12 imm < 4096)
      × (signed 12 (wrap 12 imm) ≡ imm)
unfolding check_imm
check_imm_inside imm lo hi = (ground arith, wrap-lt 12 imm, ground arith)

-- `x0` names register 0.
pub reg-x0 : reg x0 ≡ ok 0
unfolding reg get text_eq
reg-x0 = refl

-- The effect of one word, whatever registers there are.
pub run-addi :
    (r : Registers) (v s1 d : ℕ)
    → v < 4096
    → s1 < 32
    → d < 32
    → run_word (i_word v s1 0 d 0x13) r
      ≡ some (update r d (wrap 32 (pos (read r s1) +ℤ signed 12 v)))
unfolding run_word
run-addi r v s1 d a b c =
    let f = i_word-IFields v s1 0 d 0x13 a b (omega arith) c (omega arith) in
    rw (f.opcode_bits, f.rd_bits, f.funct3_bits, f.rs1_bits, f.immediate_bits) refl

pub run-lui :
    (r : Registers) (top d : ℕ)
    → top < 1048576
    → d < 32
    → run_word (bit_or (bit_or (top * 4096) (d * 128)) 0x37) r ≡ some (update r d (top * 4096))
unfolding run_word
run-lui r top d a b =
    let f = u_word-UFields top d a b in rw (f.opcode_bits, f.rd_bits, f.upper_bits) refl

bit_eleven : (l : ℕ) → l < 4096 → bit_and l 0x800 ≡ l / 2048 * 2048
bit_eleven l h = omega (arith, and_power 11 l)

-- The two parts fit LUI and ADDI, and make up the constant.
pub record Parts (v high : ℕ) (low' : ℤ) : Type 0 where
  pub high_size : high < 1048576
  pub low_least : negsuc 2047 ≤ℤ low'
  pub low_greatest : low' ≤ℤ pos 2047
  pub together : wrap 32 (pos (high * 4096) +ℤ low') ≡ v

clear-Parts :
    (v : ℕ)
    → v < 2 ^ 32
    → (bit_and (v % 4096) 0x800 == 0) ≡ true
    → Parts v (v / 4096 % 1048576) (pos (v % 4096))
clear-Parts v size clear =
    let mask = bit_eleven (v % 4096) (omega arith) in
    record {
      high_size = omega arith;
      low_least = ground arith;
      low_greatest = ground (arith, mask);
      together = ground arith;
    }

full-Parts :
    (v : ℕ)
    → v < 2 ^ 32
    → (bit_and (v % 4096) 0x800 == 0) ≡ false
    → Parts v ((v / 4096 % 1048576 + 1) % 1048576) (pos (v % 4096) -ℤ pos 4096)
full-Parts v size full =
    let mask = bit_eleven (v % 4096) (omega arith) in
    record {
      high_size = omega arith;
      low_least = ground (arith, mask);
      low_greatest = ground (arith, mask);
      together = ground (arith, mask);
    }

pub li_parts-Parts : (value : ℤ) → Parts (wrap 32 value) (li_parts value).0 (li_parts value).1
unfolding li_parts
li_parts-Parts value =
    let size = wrap-lt 32 value in
    elim (Bool-cases (bit_and (wrap 32 value % 4096) 0x800 == 0)) [
      | inl clear ↦ rw clear (clear-Parts (wrap 32 value) size clear)
      | inr full ↦ rw full (full-Parts (wrap 32 value) size full)
    ]
