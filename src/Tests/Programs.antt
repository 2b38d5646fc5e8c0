-- ===== src/Tests/Programs.antt =====
-- The assembler and the simulator as programs, on a source of two lines.
use risc_v_so_c.Base.{
  Option, arith, inr, ℕ, ◌≡◌, ◌⊎◌, refl, true, false, some, none, List, [], ◌∷◌, ◌++◌, length, All,
  if◌then◌else◌,
}
use risc_v_so_c.Base.Int.{ℤ, pos}
use risc_v_so_c.Base.Text.{
  Text, codes, upper, text_eq, strip, lstrip, rstrip, before, after, has_char,
}
use risc_v_so_c.Base.Dict.{Dict, get, put, contains, int_eq, text_key}
use risc_v_so_c.Base.Hex.{hex_padded, hex_from}
use risc_v_so_c.Base.Results.{ok}
use risc_v_so_c.Cpu8.Machine.{Sim, init, words_from, reg_read, reg_write}
use risc_v_so_c.Cpu8.Run.{Ends}
use risc_v_so_c.Cpu8.Trace.{trace_rows, trace_loop, trace_row, mnemonic_column, flags_text}
use risc_v_so_c.Cpu8.Main.{hex_body, int_16, load_words, printed, main}
use risc_v_so_c.Cpu8.Main.Hex.{main-to_hex}
use risc_v_so_c.Cpu8.Main.Ends.{main-Ends, load_words-assembled}
use risc_v_so_c.C8asm.Lexer.{
  lines_from, splitlines, tokens_from, with_tokens, with_text, strip_line, strip_lines,
  strip_source,
}
use risc_v_so_c.C8asm.Operand.{
  parse_reg, parse_int, resolve, register, int_of, decimal, digits_value, digit, prefixed,
}
use risc_v_so_c.C8asm.Passes.{
  Labels, define_label, place, first_pass_from, first_pass, encode_mnem, encode_op, encode_ldi,
  encode_br, encode_line, second_pass, collect, assemble,
}
use risc_v_so_c.C8asm.Encode.{encode_i, encode_b}
use risc_v_so_c.C8asm.Hex.{to_hex, join_lines}
use risc_v_so_c.C8asm.Main
use risc_v_so_c.C8asm.Places.{first_pass-label}
use risc_v_so_c.C8asm.Fresh.{IsRow, to_listing-IsRow}
use risc_v_so_c.C8asm.Listing.{
  listing_head, to_listing, inverted, listing_rows, listing_row, lone_label, word_row, label_row,
  address_text, padded, label_text,
}
use risc_v_so_c.C8asm.Syntax.{Line}
use risc_v_so_c.Cpu8.Exec.{step, fields, execute, dispatch, dispatch_control, advance, halt, run}
use risc_v_so_c.Cpu8.Run.{init-IsValid}
use risc_v_so_c.Isa.{Insn, Fits, perform}
use risc_v_so_c.Isa.Assembled.Says.{Operands, mnemonic}
use risc_v_so_c.Isa.Assembled.Program.{Passes, step-assemble}
use risc_v_so_c.Isa.Assembled.Files.{paired, main-files}

abbrev source : Text
source = codes "go: LDI R1, 5\nHLT ; done\n"

abbrev words : Dict ℤ ℕ
words = (pos 0, 0x8205) ∷ (pos 1, 0xf000) ∷ []

abbrev labels : Labels
labels = (codes "go", pos 0) ∷ []

source_assembles : assemble source ≡ ok (words, labels)
unfolding assemble strip_source splitlines lines_from strip_lines strip_line strip lstrip rstrip
    before after has_char with_text with_tokens tokens_from upper first_pass first_pass_from
    define_label contains put place text_eq second_pass encode_line encode_mnem encode_op encode_ldi
    parse_reg register resolve get parse_int int_of decimal digits_value digit encode_i collect
source_assembles = refl

main-to_hex_example : main true (to_hex words 0) 10 true true ≡ main false source 10 true true
main-to_hex_example = main-to_hex source words labels 10 true true source_assembles

-- A byte order mark aside, `int` takes a prefix and a sign.
hex_numbers :
    int_16 (codes "0x1F") ∷ int_16 (codes "+7f") ∷ int_16 (codes "12 4") ∷ []
    ≡ some (pos 31) ∷ some (pos 127) ∷ none ∷ []
unfolding int_16 hex_body digits_value digit prefixed
hex_numbers = refl

source_loads : load_words false source ≡ ok words
source_loads = load_words-assembled source words labels source_assembles

main-Ends_example :
    (s : Sim) × (rows lines : List Text) × (main false source 10 true true
      ≡ ok (some (rows ++ lines)))
    × (run 10 (init words) ≡ some (some (s.cycles, s)))
    × (trace_rows true 10 (init words) ≡ some rows)
    × (length rows ≡ s.cycles)
    × (printed true (s.cycles, s) ≡ some lines)
    × Ends 10 (init words) s
main-Ends_example = main-Ends false source words 10 true true source_loads

-- The trace of the two instructions: LDI R1, 5 and HLT.
traced :
    trace_rows true 10 (init words)
    ≡ some (
        codes "  PC=00  8205  LDI   R1=00  R0=00  R0=00  FLAGS=0000"
        ∷ codes "  PC=01  F000  HLT   R0=00  R0=00  R0=00  FLAGS=0000"
        ∷ [])
unfolding trace_rows trace_loop trace_row mnemonic_column flags_text hex_padded hex_from init
    words_from get step reg_read fields execute dispatch dispatch_control reg_write advance halt
traced = refl

abbrev args : Main.Args
args = record { input = codes "a/demo.asm"; output = none; bin = true; lists = false }

paths :
    (Main.out_path args ≡ codes "a/demo.hex")
    × (Main.replaced 0 (Main.out_path args) ≡ codes "a/demo.bin")
unfolding Main.out_path Main.stem Main.before_last_dot Main.replaced
paths = (refl, refl)

main-files_example :
    (bytes : List ℕ) × (length bytes ≡ 512)
    × (paired bytes ≡ words_from words 0 256)
    × ((Main.main args source).files
        ≡ (Main.out_path args, to_hex words 0)
          ∷ (if args.bin then (Main.replaced 0 (Main.out_path args), bytes) ∷ [] else []))
    × (((Main.main args source).ending ≡ Main.exit 0) ⊎ (args.lists ≡ true))
main-files_example = main-files args source words labels source_assembles

-- A branch to its own line: `assemble` gives it the offset 0, the listing shows address 0 and offset 1.
abbrev looping : Text
looping = codes "NOP\nx: BR ALW, x\n"

looping_words :
    (d : Dict ℤ ℕ) × (assemble looping ≡ ok (d, (codes "x", pos 1) ∷ []))
    × (get d (pos 1) ≡ some 0xbc00)
unfolding assemble strip_source splitlines lines_from strip_lines strip_line strip lstrip rstrip
    before after has_char with_text with_tokens tokens_from upper first_pass first_pass_from
    define_label contains put place text_eq second_pass encode_line encode_mnem encode_op encode_br
    resolve get encode_b collect
looping_words = (_, refl, refl)

abbrev listed_rows : List Text
listed_rows = codes "0000  0000            NOP" ∷ codes "0000  BC01            x: BR ALW, x" ∷ []

looping_listing :
    to_listing looping ((codes "x", pos 1) ∷ []) ≡ ok (join_lines (listing_head ++ listed_rows))
unfolding to_listing inverted listing_rows listing_row lone_label word_row label_row address_text
    padded label_text join_lines strip_source splitlines lines_from strip_lines strip_line strip
    lstrip rstrip before after has_char with_text with_tokens tokens_from upper text_eq second_pass
    encode_line encode_mnem encode_op encode_br resolve get put encode_b hex_padded hex_from
looping_listing = refl

to_listing-IsRow_example :
    (rows : List Text) × (join_lines (listing_head ++ listed_rows)
      ≡ join_lines (listing_head ++ rows))
    × All IsRow rows
to_listing-IsRow_example =
    to_listing-IsRow looping ((codes "x", pos 1) ∷ []) (join_lines (listing_head ++ listed_rows))
      looping_listing

-- The two lines as the passes leave them.
abbrev first_line : ℤ → Option ℕ → Line
first_line addr word = record {
  line_no = 1;
  raw = codes "go: LDI R1, 5";
  label = some (codes "go");
  mnem = some (codes "LDI");
  args = codes "R1" ∷ codes "5" ∷ [];
  addr = addr;
  word = word;
}

abbrev second_line : ℤ → Option ℕ → Line
second_line addr word = record {
  line_no = 2;
  raw = codes "HLT ; done";
  label = none;
  mnem = some (codes "HLT");
  args = [];
  addr = addr;
  word = word;
}

abbrev encoded_lines : List Line
encoded_lines = first_line (pos 0) (some 0x8205) ∷ second_line (pos 1) (some 0xf000) ∷ []

source-Passes :
    Passes source
      (first_line (pos 0) none ∷ second_line (pos 1) none ∷ [])
      encoded_lines
      labels
      words
unfolding strip_source splitlines lines_from strip_lines strip_line strip lstrip rstrip before after
    has_char with_text with_tokens tokens_from upper first_pass first_pass_from define_label
    contains put place text_eq second_pass encode_line encode_mnem encode_op encode_ldi parse_reg
    register resolve get parse_int int_of decimal digits_value digit encode_i collect
source-Passes = record {
  raw = first_line (pos 0) none ∷ second_line (pos 0) none ∷ [];
  stripped = refl;
  first = refl;
  second = refl;
  collected = refl;
}

step-assemble_example :
    (assemble source ≡ ok (words, labels))
    × ((n : Insn) × Fits n
        × (some (codes "LDI") ≡ some (mnemonic n))
        × Operands n (codes "R1" ∷ codes "5" ∷ []) labels (pos 0) 1
        × (step (init words) ≡ perform n (init words)))
unfolding init
step-assemble_example =
    step-assemble source (first_line (pos 0) none ∷ second_line (pos 1) none ∷ []) encoded_lines
      labels words 0 (first_line (pos 0) (some 0x8205)) 0x8205 (init words) source-Passes refl refl
      (ground arith) (inr (ground arith), tt) (init-IsValid words) refl refl refl

-- The label is on the first line.
first_pass-label_example : get labels (codes "go") ≡ some (pos 0)
first_pass-label_example =
    first_pass-label source-Passes.raw (first_line (pos 0) none ∷ second_line (pos 1) none ∷ [])
      labels 0 (first_line (pos 0) none) b'g' (codes "o") source-Passes.first refl refl
      (ground arith)
