-- ===== src/C8asm/Passes/Encoders.antt =====
-- modules/cpu8/asm/c8asm.py: what `_second_pass` makes of a line with a mnemonic, one function for each
-- group of instructions.
use risc_v_so_c.Base.{
  ℕ, Bool, not, ◌||◌, ◌==◌, if◌then◌else◌, Option, none, some, List, [], ◌∷◌, length,
}
use risc_v_so_c.Base.Int.{ℤ, pos, negsuc, ◌-ℤ◌, ltb_ℤ, wrap}
use risc_v_so_c.Base.Text.{Text, codes, text_eq, upper}
use risc_v_so_c.Base.Dict.{Dict, get, text_key, int_eq}
use risc_v_so_c.Base.Results.{Result, ok, err, ◌>>=◌, ◌>>◌, raise_if, or_raise}
use risc_v_so_c.C8asm.Syntax.{
  AsmError, unknown_mnemonic, operand_count, unknown_shift, immediate_range, unknown_condition,
  branch_range, address_range, unhandled_mnemonic, index_error,
}
use risc_v_so_c.C8asm.Operand.{parse_int, parse_reg, parse_mem, resolve}
use risc_v_so_c.C8asm.Encode.{
  opcodes, shf_fn, cc_codes, encode_r, encode_i, encode_j, encode_b, encode_mem,
}

abbrev pub Labels : Type 0
Labels = Dict Text ℤ

-- `a[0]`.
abbrev pub first_arg : List Text → Result AsmError Text
first_arg [] = err index_error
first_arg (a ∷ as') = ok a

-- `if len(a) != k: raise`.
abbrev pub expect_count : ℕ → Text → List Text → ℕ → Result AsmError (Unit {0})
expect_count k m a n = raise_if (not (length a == k)) (operand_count m n)

abbrev pub arg : List Text → ℕ → Result AsmError Text
arg [] i = err index_error
arg (a ∷ as') ℕ.zero = ok a
arg (a ∷ as') (ℕ.suc i) = arg as' i

unfoldable pub encode_alu : ℕ → Text → List Text → ℕ → Result AsmError ℕ
unfolding encode_r
encode_alu op m a n = do
  expect_count 3 m a n
  rd ← arg a 0 >>= λ t. parse_reg t n
  rs1 ← arg a 1 >>= λ t. parse_reg t n
  rs2 ← arg a 2 >>= λ t. parse_reg t n
  ok (encode_r op rd rs1 rs2 0)

unfoldable pub encode_cmp : ℕ → Text → List Text → ℕ → Result AsmError ℕ
unfolding encode_r
encode_cmp op m a n = do
  expect_count 2 m a n
  rs1 ← arg a 0 >>= λ t. parse_reg t n
  rs2 ← arg a 1 >>= λ t. parse_reg t n
  ok (encode_r op 0 rs1 rs2 0)

-- `TABLE[name]` behind `if name not in TABLE: raise`.
abbrev pub named : Dict Text ℕ → Text → AsmError → Result AsmError ℕ
named table name e = or_raise (get table name) e

unfoldable pub encode_shf : ℕ → Text → List Text → ℕ → Result AsmError ℕ
unfolding encode_r get
encode_shf op m a n = do
  expect_count 3 m a n
  f ← arg a 2
  fn ← named shf_fn (upper f) (unknown_shift (upper f) n)
  rd ← arg a 0 >>= λ t. parse_reg t n
  rs1 ← arg a 1 >>= λ t. parse_reg t n
  ok (encode_r op rd rs1 0 fn)

unfoldable pub encode_ldi : ℕ → Text → List Text → Labels → ℕ → Result AsmError ℕ
unfolding encode_i
encode_ldi op m a labels n = do
  expect_count 2 m a n
  rd ← arg a 0 >>= λ t. parse_reg t n
  imm ← arg a 1 >>= λ t. resolve t labels n
  raise_if (ltb_ℤ imm (pos 0) || ltb_ℤ (pos 255) imm) (immediate_range imm n)
  ok (encode_i op rd imm)

unfoldable pub encode_ld : ℕ → Text → List Text → ℕ → Result AsmError ℕ
unfolding encode_mem
encode_ld op m a n = do
  expect_count 2 m a n
  rd ← arg a 0 >>= λ t. parse_reg t n
  (rs1, off) ← arg a 1 >>= λ t. parse_mem t n
  ok (encode_mem op rd rs1 off)

unfoldable pub encode_st : ℕ → Text → List Text → ℕ → Result AsmError ℕ
unfolding encode_mem
encode_st op m a n = do
  expect_count 2 m a n
  (rs1, off) ← arg a 0 >>= λ t. parse_mem t n
  rs2 ← arg a 1 >>= λ t. parse_reg t n
  ok (encode_mem op rs2 rs1 off)

unfoldable pub encode_br : ℕ → Text → List Text → Labels → ℤ → ℕ → Result AsmError ℕ
unfolding encode_b get
encode_br op m a labels addr n = do
  expect_count 2 m a n
  c ← arg a 0
  cc_val ← named cc_codes (upper c) (unknown_condition (upper c) n)
  target ← arg a 1 >>= λ t. resolve t labels n
  let off9 = target -ℤ addr
  raise_if (ltb_ℤ off9 (negsuc 255) || ltb_ℤ (pos 255) off9) (branch_range off9 n)
  ok (encode_b op cc_val off9)

unfoldable pub encode_jump : ℕ → Text → List Text → Labels → ℕ → Result AsmError ℕ
unfolding encode_j
encode_jump op m a labels n = do
  expect_count 1 m a n
  addr ← arg a 0 >>= λ t. resolve t labels n
  raise_if (ltb_ℤ addr (pos 0) || ltb_ℤ (pos 255) addr) (address_range addr n)
  ok (encode_j op addr)

-- `m == s`.
abbrev pub is : Text → Text → Bool
is m s = text_eq m s

-- The chain of tests on the mnemonic, once its opcode is known.
unfoldable pub encode_op : ℕ → Text → List Text → Labels → ℤ → ℕ → Result AsmError ℕ
encode_op op m a labels addr n =
    if is m (codes "ADD")
      || is m (codes "SUB")
      || is m (codes "AND")
      || is m (codes "OR")
      || is m (codes "XOR")
    then encode_alu op m a n
    else if is m (codes "CMP")
    then encode_cmp op m a n
    else if is m (codes "SHF")
    then encode_shf op m a n
    else if is m (codes "LDI")
    then encode_ldi op m a labels n
    else if is m (codes "LD")
    then encode_ld op m a n
    else if is m (codes "ST")
    then encode_st op m a n
    else if is m (codes "BR")
    then encode_br op m a labels addr n
    else if is m (codes "JMP") || is m (codes "CALL")
    then encode_jump op m a labels n
    else err (unhandled_mnemonic m n)

-- The word that `_second_pass` gives a line with a mnemonic; `none` leaves the line as it is.
unfoldable pub encode_mnem : Text → List Text → Labels → ℤ → ℕ → Result AsmError (Option ℕ)
unfolding get
encode_mnem m a labels addr n =
    if is m (codes ".ORG")
    then ok none
    else if is m (codes ".WORD")
    then (do t ← first_arg a; v ← parse_int t n; ok (some (wrap 16 v)))
    else if is m (codes "NOP")
    then ok (some 0x0000)
    else if is m (codes "HLT")
    then ok (some 0xf000)
    else if is m (codes "RET")
    then ok (some 0xe000)
    else (do
      op ← named opcodes m (unknown_mnemonic m n)
      w ← encode_op op m a labels addr n
      ok (some w))
