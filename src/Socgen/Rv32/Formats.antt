-- ===== src/Socgen/Rv32/Formats.antt =====
-- The fields of the words that the formats of socgen/asm.py make.
use risc_v_so_c.Base.{ℕ, ◌+◌, ◌*◌, ◌/◌, ◌%◌, ◌^◌, ◌<◌, ◌≡◌, refl, arith, bit_or, bit}
use risc_v_so_c.Base.Bits.{or_disjoint}
use risc_v_so_c.Socgen.Asm.{i_word, s_word, b_word}
use risc_v_so_c.Socgen.Rv32.{
  opcode, rd_field, funct3, rs1_field, rs2_field, i_field, s_field, b_field,
}

pub i_word_sum :
    (top s1 f d op : ℕ)
    → top < 4096
    → s1 < 32
    → f < 8
    → d < 32
    → op < 128
    → i_word top s1 f d op ≡ top * 1048576 + s1 * 32768 + f * 4096 + d * 128 + op
unfolding i_word
i_word_sum top s1 f d op a b c e g =
    rw
      (
        or_disjoint 20 (top * 1048576) (s1 * 32768) (omega arith) (omega arith),
        or_disjoint 15 (top * 1048576 + s1 * 32768) (f * 4096) (omega arith) (omega arith),
        or_disjoint 12 (top * 1048576 + s1 * 32768 + f * 4096) (d * 128) (omega arith)
            (omega arith),
        or_disjoint 7 (top * 1048576 + s1 * 32768 + f * 4096 + d * 128) op (omega arith)
            (omega arith),
      )
      refl

pub record IFields (top s1 f d op w : ℕ) : Type 0 where
  pub word_size : w < 2 ^ 32
  pub opcode_bits : opcode w ≡ op
  pub rd_bits : rd_field w ≡ d
  pub funct3_bits : funct3 w ≡ f
  pub rs1_bits : rs1_field w ≡ s1
  pub immediate_bits : i_field w ≡ top

pub i_word-IFields :
    (top s1 f d op : ℕ)
    → top < 4096
    → s1 < 32
    → f < 8
    → d < 32
    → op < 128
    → IFields top s1 f d op (i_word top s1 f d op)
i_word-IFields top s1 f d op a b c e g = rw (i_word_sum top s1 f d op a b c e g) (omega arith)

u_word_sum :
    (top d : ℕ)
    → top < 1048576
    → d < 32
    → bit_or (bit_or (top * 4096) (d * 128)) 0x37 ≡ top * 4096 + d * 128 + 0x37
u_word_sum top d a b =
    rw
      (
        or_disjoint 12 (top * 4096) (d * 128) (omega arith) (omega arith),
        or_disjoint 7 (top * 4096 + d * 128) 0x37 (omega arith) (omega arith),
      )
      refl

pub record UFields (top d w : ℕ) : Type 0 where
  pub word_size : w < 2 ^ 32
  pub opcode_bits : opcode w ≡ 0x37
  pub rd_bits : rd_field w ≡ d
  pub upper_bits : w / 2 ^ 12 * 2 ^ 12 ≡ top * 4096

pub u_word-UFields :
    (top d : ℕ)
    → top < 1048576
    → d < 32
    → UFields top d (bit_or (bit_or (top * 4096) (d * 128)) 0x37)
u_word-UFields top d a b = rw (u_word_sum top d a b) (omega arith)

s_word_sum :
    (v s2 s1 f op : ℕ)
    → v < 4096
    → s2 < 32
    → s1 < 32
    → f < 8
    → op < 128
    → s_word v s2 s1 f op
      ≡ v / 32 * 33554432 + s2 * 1048576 + s1 * 32768 + f * 4096 + v % 32 * 128 + op
unfolding s_word
s_word_sum v s2 s1 f op a b c d e =
    let p = v / 32 * 33554432 in
    rw
      (
        or_disjoint 25 p (s2 * 1048576) (omega arith) (omega arith),
        or_disjoint 20 (p + s2 * 1048576) (s1 * 32768) (omega arith) (omega arith),
        or_disjoint 15 (p + s2 * 1048576 + s1 * 32768) (f * 4096) (omega arith) (omega arith),
        or_disjoint 12 (p + s2 * 1048576 + s1 * 32768 + f * 4096) (v % 32 * 128) (omega arith)
            (omega arith),
        or_disjoint 7 (p + s2 * 1048576 + s1 * 32768 + f * 4096 + v % 32 * 128) op (omega arith)
            (omega arith),
      )
      refl

pub record SFields (v s2 s1 f op w : ℕ) : Type 0 where
  pub word_size : w < 2 ^ 32
  pub opcode_bits : opcode w ≡ op
  pub funct3_bits : funct3 w ≡ f
  pub rs1_bits : rs1_field w ≡ s1
  pub rs2_bits : rs2_field w ≡ s2
  pub immediate_bits : s_field w ≡ v

pub s_word-SFields :
    (v s2 s1 f op : ℕ)
    → v < 4096
    → s2 < 32
    → s1 < 32
    → f < 8
    → op < 128
    → SFields v s2 s1 f op (s_word v s2 s1 f op)
s_word-SFields v s2 s1 f op a b c d e = rw (s_word_sum v s2 s1 f op a b c d e) (omega arith)

b_word_sum :
    (v s2 s1 f : ℕ)
    → v < 8192
    → s2 < 32
    → s1 < 32
    → f < 8
    → b_word v s2 s1 f
      ≡ v / 4096 * 2147483648
        + v / 32 % 64 * 33554432
        + s2 * 1048576
        + s1 * 32768
        + f * 4096
        + v / 2 % 16 * 256
        + v / 2048 % 2 * 128
        + 0x63
unfolding b_word
b_word_sum v s2 s1 f a b c d =
    let p = bit 12 v * 2147483648 in
    let q = p + v / 32 % 64 * 33554432 in
    let r = q + s2 * 1048576 + s1 * 32768 + f * 4096 in
    rw
      (
        or_disjoint 31 p (v / 32 % 64 * 33554432) (omega arith) (omega arith),
        or_disjoint 25 q (s2 * 1048576) (omega arith) (omega arith),
        or_disjoint 20 (q + s2 * 1048576) (s1 * 32768) (omega arith) (omega arith),
        or_disjoint 15 (q + s2 * 1048576 + s1 * 32768) (f * 4096) (omega arith) (omega arith),
        or_disjoint 12 r (v / 2 % 16 * 256) (omega arith) (omega arith),
        or_disjoint 8 (r + v / 2 % 16 * 256) (bit 11 v * 128) (omega arith) (omega arith),
        or_disjoint 7 (r + v / 2 % 16 * 256 + bit 11 v * 128) 0x63 (omega arith) (omega arith),
      )
      (omega arith)

pub record BFields (v s2 s1 f w : ℕ) : Type 0 where
  pub word_size : w < 2 ^ 32
  pub opcode_bits : opcode w ≡ 0x63
  pub funct3_bits : funct3 w ≡ f
  pub rs1_bits : rs1_field w ≡ s1
  pub rs2_bits : rs2_field w ≡ s2
  pub immediate_bits : b_field w ≡ v / 2 * 2

pub b_word-BFields :
    (v s2 s1 f : ℕ) → v < 8192 → s2 < 32 → s1 < 32 → f < 8 → BFields v s2 s1 f (b_word v s2 s1 f)
b_word-BFields v s2 s1 f a b c d = rw (b_word_sum v s2 s1 f a b c d) (omega arith)
