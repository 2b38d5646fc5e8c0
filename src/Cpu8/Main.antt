-- ===== src/Cpu8/Main.antt =====
-- modules/cpu8/sim/sim.py: `dump` and `main`, on the text of the input file as Python's text mode gives it.
pub mod Hex
pub mod Ends
use risc_v_so_c.Base.{
  ℕ, zero, suc, ◌+◌, Bool, true, false, ◌==◌, ◌&&◌, ◌||◌, if◌then◌else◌, Option, none, some, List,
  [], ◌∷◌, ◌++◌,
}
use risc_v_so_c.Base.Int.{ℤ, pos, negsuc, ◌-ℤ◌, wrap}
use risc_v_so_c.Base.Text.{Text, codes, strip, join_lines}
use risc_v_so_c.Base.Options.{◌>>=◌}
use risc_v_so_c.Base.Results
use risc_v_so_c.Base.Results.{Result, ok, err, or_raise}
use risc_v_so_c.Base.Dict.{Dict}
use risc_v_so_c.Base.Hex.{hex_padded, decimal_from, decimal_text}
use risc_v_so_c.C8asm.Syntax.{AsmError}
use risc_v_so_c.C8asm.Operand.{digits_value, prefixed}
use risc_v_so_c.C8asm.Passes.{assemble}
use risc_v_so_c.Cpu8.Machine.{Sim, init, reg_read}
use risc_v_so_c.Cpu8.Exec.{run}
use risc_v_so_c.Cpu8.Trace.{hex2, trace_rows}

abbrev pub flag_text : Bool → Text
flag_text true = codes "True"
flag_text false = codes "False"

-- The lines for the `left` registers from `i` on.
unfoldable pub register_rows : Sim → ℕ → ℕ → Option (List Text)
unfolding reg_read hex_padded decimal_from
register_rows s zero i = some []
register_rows s (suc left) i = do
  v ← reg_read s i
  rest ← register_rows s left (i + 1)
  some (
      (codes "  R"
        ++ (decimal_text i
            ++ (codes "=" ++ (hex2 v ++ (codes " (" ++ (decimal_text v ++ codes ")"))))))
      ∷ rest)

unfoldable pub state_row : Sim → Text
unfolding hex_padded decimal_from
state_row s =
    codes "PC="
    ++ (hex2 s.pc
        ++ (codes "  SP="
            ++ (hex2 s.sp
                ++ (codes "  FLAGS Z="
                    ++ (decimal_text s.flags.z
                        ++ (codes " N="
                            ++ (decimal_text s.flags.n
                                ++ (codes " C="
                                    ++ (decimal_text s.flags.c
                                        ++ (codes " V="
                                            ++ (decimal_text s.flags.v
                                                ++ (codes "  HALTED="
                                                    ++ flag_text s.halted))))))))))))

unfoldable pub dump : Sim → Option Text
unfolding register_rows state_row join_lines
dump s = register_rows s 8 0 >>= λ rows. some (join_lines (state_row s ∷ codes "Registers:" ∷ rows))

-- The lines of a file, without their line feeds, which both `strip` and `int` take away.
unfoldable pub file_lines : Text → List Text
file_lines [] = []
file_lines (c ∷ cs) = elim (c == 10) [
  | true ↦ [] ∷ file_lines cs
  | false ↦ elim (file_lines cs) [ [] ↦ (c ∷ []) ∷ [] | line ∷ lines ↦ (c ∷ line) ∷ lines ]
]

-- Digits in base 16, with or without the prefix 0x.
unfoldable pub hex_body : Text → Option ℤ
unfolding digits_value prefixed
hex_body (a ∷ b ∷ cs) =
    if a == b'0' && (b == b'x' || b == b'X')
    then prefixed 16 cs
    else (digits_value 16 false 0 (a ∷ b ∷ cs) >>= λ n. some (pos n))
hex_body tok = digits_value 16 false 0 tok >>= λ n. some (pos n)

-- `int(tok, 16)` of a stripped token.
unfoldable pub int_16 : Text → Option ℤ
unfolding hex_body
int_16 [] = none
int_16 (c ∷ cs) =
    if c == b'-'
    then (hex_body cs >>= λ z. some (pos 0 -ℤ z))
    else if c == b'+'
    then hex_body cs
    else hex_body (c ∷ cs)

-- A negative number is kept as its low 16 bits: `step` masks a word before it reads it.
abbrev pub kept_word : ℤ → ℕ
kept_word (pos n) = n
kept_word (negsuc n) = wrap 16 (negsuc n)

-- `{i: int(ln, 16) for i, ln in enumerate(f) if ln.strip()}`, from line `i` on. `none` is a ValueError.
unfoldable pub read_words : ℕ → List Text → Option (Dict ℤ ℕ)
unfolding int_16 strip
read_words i [] = some []
read_words i (line ∷ lines) = elim (strip line) [
  | [] ↦ read_words (i + 1) lines
  | c ∷ cs ↦ int_16 (c ∷ cs) >>= λ z.
      read_words (i + 1) lines >>= λ rest. some ((pos i, kept_word z) ∷ rest)
]

pub data Failure : Type 0 where
  value_error : Failure
  asm_error : AsmError → Failure

-- The words of the input file; `is_hex` says that its name ends with .hex.
unfoldable pub load_words : Bool → Text → Result Failure (Dict ℤ ℕ)
unfolding read_words file_lines
load_words true file = or_raise (read_words 0 (file_lines file)) value_error
load_words false src = elim (assemble src) [
  | err e ↦ err (asm_error e)
  | ok (words, labels) ↦ ok words
]

-- What is printed, behind a run.
unfoldable pub printed : Bool → ℕ × Sim → Option (List Text)
unfolding dump decimal_from
printed dumps (n, s) =
    let halted = codes "Halted after " ++ (decimal_text n ++ codes " cycles") in
    if dumps then (dump s >>= λ text. some (halted ∷ text ∷ [])) else some (halted ∷ [])

-- The lines of the trace come first.
unfoldable pub main : Bool → Text → ℕ → Bool → Bool → Result Failure (Option (List Text))
unfolding load_words printed trace_rows
main is_hex file cycles traces dumps = Results.◌>>=◌ (load_words is_hex file) λ words. ok (do
  ended ← run cycles (init words)
  returned ← ended
  rows ← trace_rows traces cycles (init words)
  lines ← printed dumps returned
  some (rows ++ lines))
