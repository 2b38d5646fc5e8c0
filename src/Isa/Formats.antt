-- ===== src/Isa/Formats.antt =====
-- The simulator's field extraction undoes the assembler's formats.
use risc_v_so_c.Base.{ℕ, ◌+◌, ◌*◌, ◌%◌, ◌<◌, ◌≡◌, refl, arith}
use risc_v_so_c.Base.Int.{ℤ, wrap}
use risc_v_so_c.Base.Bits.{or_disjoint, wrap-lt}
use risc_v_so_c.Cpu8.Exec.{Fields, fields}
use risc_v_so_c.C8asm.Encode.{encode_r, encode_i, encode_j, encode_b, encode_mem}

-- The sums that the formats stand for.
pub encode_r_sum :
    (op rd rs1 rs2 fn : ℕ)
    → op < 16
    → rd < 8
    → rs1 < 8
    → rs2 < 8
    → fn < 8
    → encode_r op rd rs1 rs2 fn ≡ op * 4096 + rd * 512 + rs1 * 64 + rs2 * 8 + fn
unfolding encode_r
encode_r_sum op rd rs1 rs2 fn a b c d e =
    rw
      (
        or_disjoint 12 (op * 4096) (rd * 512) (omega arith) (omega arith),
        or_disjoint 9 (op * 4096 + rd * 512) (rs1 * 64) (omega arith) (omega arith),
        or_disjoint 6 (op * 4096 + rd * 512 + rs1 * 64) (rs2 * 8) (omega arith) (omega arith),
        or_disjoint 3 (op * 4096 + rd * 512 + rs1 * 64 + rs2 * 8) fn (omega arith) (omega arith),
      )
      refl

pub encode_i_sum :
    (op rd : ℕ) (imm9 : ℤ)
    → op < 16
    → rd < 8
    → encode_i op rd imm9 ≡ op * 4096 + rd * 512 + wrap 9 imm9
unfolding encode_i
encode_i_sum op rd imm9 a b =
    rw
      (
        or_disjoint 12 (op * 4096) (rd * 512) (omega arith) (omega arith),
        or_disjoint 9 (op * 4096 + rd * 512) (wrap 9 imm9) (omega arith) (wrap-lt 9 imm9),
      )
      refl

pub encode_b_sum :
    (op c : ℕ) (off9 : ℤ) → op < 16 → c < 8 → encode_b op c off9 ≡ op * 4096 + c * 512 + wrap 9 off9
unfolding encode_b encode_i
encode_b_sum op c off9 a b = encode_i_sum op c off9 a b

pub encode_j_sum : (op : ℕ) (addr8 : ℤ) → op < 16 → encode_j op addr8 ≡ op * 4096 + wrap 8 addr8
unfolding encode_j
encode_j_sum op addr8 a =
    or_disjoint 12 (op * 4096) (wrap 8 addr8) (omega arith) (omega (arith, wrap-lt 8 addr8))

pub encode_mem_sum :
    (op reg rs1 : ℕ) (off : ℤ)
    → op < 16
    → reg < 8
    → rs1 < 8
    → encode_mem op reg rs1 off ≡ op * 4096 + reg * 512 + rs1 * 64 + wrap 6 off
unfolding encode_mem
encode_mem_sum op reg rs1 off a b c =
    rw
      (
        or_disjoint 12 (op * 4096) (reg * 512) (omega arith) (omega arith),
        or_disjoint 9 (op * 4096 + reg * 512) (rs1 * 64) (omega arith) (omega arith),
        or_disjoint 6 (op * 4096 + reg * 512 + rs1 * 64) (wrap 6 off) (omega arith) (wrap-lt 6 off),
      )
      refl

-- What the simulator reads from a word of each format.
pub record FieldsR (op rd rs1 rs2 fn : ℕ) (d : Fields) : Type 0 where
  pub op_field : d.op ≡ op
  pub rd_field : d.rd ≡ rd
  pub rs1_field : d.rs1 ≡ rs1
  pub rs2_field : d.rs2 ≡ rs2
  pub fn_field : d.fn ≡ fn

pub record FieldsI (op rd imm9 : ℕ) (d : Fields) : Type 0 where
  pub op_field : d.op ≡ op
  pub rd_field : d.rd ≡ rd
  pub cc_field : d.cc_code ≡ rd
  pub imm9_field : d.imm9 ≡ imm9
  pub imm8_field : d.imm8 ≡ imm9 % 256

pub record FieldsM (op reg rs1 imm6 : ℕ) (d : Fields) : Type 0 where
  pub op_field : d.op ≡ op
  pub rd_field : d.rd ≡ reg
  pub rs1_field : d.rs1 ≡ rs1
  pub imm6_field : d.imm6 ≡ imm6

pub fields-encode_r :
    (op rd rs1 rs2 fn : ℕ)
    → op < 16
    → rd < 8
    → rs1 < 8
    → rs2 < 8
    → fn < 8
    → FieldsR op rd rs1 rs2 fn (fields (encode_r op rd rs1 rs2 fn))
unfolding fields
fields-encode_r op rd rs1 rs2 fn a b c d e =
    rw (encode_r_sum op rd rs1 rs2 fn a b c d e) (omega arith)

pub fields-encode_i :
    (op rd : ℕ) (imm9 : ℤ)
    → op < 16
    → rd < 8
    → FieldsI op rd (wrap 9 imm9) (fields (encode_i op rd imm9))
unfolding fields
fields-encode_i op rd imm9 a b = rw (encode_i_sum op rd imm9 a b) (omega (arith, wrap-lt 9 imm9))

pub fields-encode_b :
    (op c : ℕ) (off9 : ℤ)
    → op < 16
    → c < 8
    → FieldsI op c (wrap 9 off9) (fields (encode_b op c off9))
unfolding fields
fields-encode_b op c off9 a b = rw (encode_b_sum op c off9 a b) (omega (arith, wrap-lt 9 off9))

pub fields-encode_j :
    (op : ℕ) (addr8 : ℤ)
    → op < 16
    → (let d = fields (encode_j op addr8) in (d.op ≡ op) × (d.addr8 ≡ wrap 8 addr8))
unfolding fields
fields-encode_j op addr8 a = rw (encode_j_sum op addr8 a) (omega (arith, wrap-lt 8 addr8))

pub fields-encode_mem :
    (op reg rs1 : ℕ) (off : ℤ)
    → op < 16
    → reg < 8
    → rs1 < 8
    → FieldsM op reg rs1 (wrap 6 off) (fields (encode_mem op reg rs1 off))
unfolding fields
fields-encode_mem op reg rs1 off a b c =
    rw (encode_mem_sum op reg rs1 off a b c) (omega (arith, wrap-lt 6 off))
