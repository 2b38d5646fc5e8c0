-- ===== src/C8asm/Passes.antt =====
-- modules/cpu8/asm/c8asm.py: `_first_pass`, `_second_pass`, and `assemble`. A pass that
-- changes its lines in place returns the changed lines.
mod Encoders
use risc_v_so_c.Base.{
  ℕ, Bool, not, ◌||◌, ◌==◌, if◌then◌else◌, Option, none, some, List, [], ◌∷◌, length,
}
use risc_v_so_c.Base.Int.{ℤ, pos, negsuc, ◌+ℤ◌, ◌-ℤ◌, ltb_ℤ, wrap}
use risc_v_so_c.Base.Text.{Text, codes, text_eq, upper}
use risc_v_so_c.Base.Dict.{Dict, get, put, contains, text_key, int_eq}
use risc_v_so_c.Base.Results.{Result, ok, err, ◌>>=◌, ◌>>◌, raise_if, or_raise}
use risc_v_so_c.C8asm.Syntax.{
  AsmError, Line, duplicate_label, unknown_mnemonic, operand_count, unknown_shift, immediate_range,
  unknown_condition, branch_range, address_range, unhandled_mnemonic, rom_size, index_error,
}
use risc_v_so_c.C8asm.Lexer.{strip_source}
use risc_v_so_c.C8asm.Operand.{parse_int, parse_reg, parse_mem, resolve}
use risc_v_so_c.C8asm.Encode.{
  opcodes, shf_fn, cc_codes, encode_r, encode_i, encode_j, encode_b, encode_mem,
}
unfoldable pub use Encoders.*

-- `if ln.label: …`; an empty label is false.
unfoldable pub define_label : Option Text → ℤ → ℕ → Labels → Result AsmError Labels
unfolding contains put
define_label none pc n labels = ok labels
define_label (some []) pc n labels = ok labels
define_label (some (c ∷ cs)) pc n labels =
    if contains labels (c ∷ cs)
    then err (duplicate_label (c ∷ cs) n)
    else ok (put labels (c ∷ cs) pc)

-- The line's address, and the program counter behind it.
unfoldable pub place : Line → ℤ → Result AsmError (ℤ × ℤ)
unfolding text_eq
place ln pc = elim ln.mnem [
  | none ↦ ok (pc, pc)
  | some m ↦
      if text_eq m (codes ".ORG")
      then (do a ← first_arg ln.args; target ← parse_int a ln.line_no; ok (target, target))
      else ok (pc, pc +ℤ pos 1)
]

unfoldable pub first_pass_from : ℤ → Labels → List Line → Result AsmError (List Line × Labels)
unfolding define_label place
first_pass_from pc labels [] = ok ([], labels)
first_pass_from pc labels (ln ∷ lns) = do
  labels' ← define_label ln.label pc ln.line_no labels
  (addr, pc') ← place ln pc
  (rest, final) ← first_pass_from pc' labels' lns
  ok (record ln { addr = addr } ∷ rest, final)

unfoldable pub first_pass : List Line → Result AsmError (List Line × Labels)
unfolding first_pass_from
first_pass lines = first_pass_from (pos 0) [] lines

unfoldable pub encode_line : Line → Labels → Result AsmError (Option ℕ)
unfolding encode_mnem
encode_line ln labels = elim ln.mnem [
  | none ↦ ok none
  | some m ↦ encode_mnem m ln.args labels ln.addr ln.line_no
]

unfoldable pub second_pass : List Line → Labels → Result AsmError (List Line)
second_pass [] labels = ok []
second_pass (ln ∷ lns) labels = do
  w ← encode_line ln labels
  rest ← second_pass lns labels
  ok (elim w [ none ↦ ln ∷ rest | some v ↦ record ln { word = some v } ∷ rest ])

-- The loop of `assemble` over the encoded lines.
unfoldable pub collect : Dict ℤ ℕ → List Line → Result AsmError (Dict ℤ ℕ)
unfolding put
collect words [] = ok words
collect words (ln ∷ lns) = elim ln.word [
  | none ↦ collect words lns
  | some w ↦
      let rest = collect (put words ln.addr w) lns in
      if ltb_ℤ (pos 255) ln.addr then err (rom_size ln.addr ln.line_no) else rest
]

unfoldable pub assemble : Text → Result AsmError (Dict ℤ ℕ × Labels)
unfolding strip_source first_pass second_pass collect
assemble src = do
  raw ← strip_source src
  (lines, labels) ← first_pass raw
  encoded ← second_pass lines labels
  words ← collect [] encoded
  ok (words, labels)
