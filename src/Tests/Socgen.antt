-- ===== src/Tests/Socgen.antt =====
-- The firmware's assembler and the memory map on small inputs.
use risc_v_so_c.Base.{
  ℕ, ◌+◌, ◌%◌, ◌≡◌, ◌↔◌, refl, true, some, List, [], ◌∷◌, ◌++◌, map, arith, get_elem?,
}
use risc_v_so_c.Base.Int.{pos, negsuc, wrap}
use risc_v_so_c.Base.Text.{codes, text_eq, upper}
use risc_v_so_c.Base.Dict.{get, put, contains, text_key}
use risc_v_so_c.Base.Results.{ok, err}
use risc_v_so_c.Base.Hex.{hex_padded, hex_from}
use risc_v_so_c.Socgen.Asm.{
  Register, on_equal, on_different, unknown_register, named, numbered, Assembler, assembler, word,
  branch, label, li, addi, i_type, bne, reg, check_imm, emit, i_word, b_type,
}
use risc_v_so_c.Socgen.Asm.Output.{
  assemble, resolve_entries, resolve_entry, after_assemble, left_entries,
}
use risc_v_so_c.Socgen.Asm.Left.{LeavesOrEmpties}
use risc_v_so_c.Socgen.Asm.Placed.{IsPlaced}
use risc_v_so_c.Socgen.Asm.Calls.{
  Calls, no_calls, then_call, call_label, call_bne, call_addi, Calls-IsPlaced,
}
use risc_v_so_c.Socgen.Rv32.{Registers, run_words}
use risc_v_so_c.Socgen.Rv32.Loads.{Loads, li-Loads}
use risc_v_so_c.Socgen.Rv32.Branches.{GoesTo, assemble-GoesTo}
use risc_v_so_c.Socgen.Memmap
use risc_v_so_c.Socgen.Memmap.{
  Region, memory_map, aes, uart, overlaps_in, decode_in, decode, limit, upper_name,
}
use risc_v_so_c.Socgen.Memmap.Decode.{decode_in-contains, decode-contains, decode-register}
use risc_v_so_c.Socgen.Memmap.Headers.{c_register}

abbrev x1 : Register
x1 = named (codes "x1")

-- All registers zero.
abbrev clear : Registers
clear i = 0

li-Loads_example :
    (ws : List ℕ) × (r' : Registers) × (li x1 (pos 0x10000800) assembler
      ≡ ok (record assembler { words = assembler.words ++ map word ws }))
    × (run_words ws clear ≡ some r')
    × Loads 1 (wrap 32 (pos 0x10000800)) clear r'
unfolding reg get text_eq
li-Loads_example = li-Loads x1 1 (pos 0x10000800) assembler clear refl

-- loop: addi x1, x1, -1; bne x1, x0, loop.
abbrev labelled : Assembler
labelled = record { words = []; labels = (codes "loop", 0) ∷ [] }

abbrev counted : Assembler
counted = record labelled { words = word 0xfff08093 ∷ [] }

abbrev looped : Assembler
looped = record counted {
  words = word 0xfff08093 ∷ branch on_different x1 (numbered (pos 0)) (codes "loop") 4 ∷ [];
}

loop-Calls : Calls assembler looped
unfolding label contains put addi i_type i_word check_imm reg get text_eq emit bne
loop-Calls = then_call (call_bne x1 (numbered (pos 0)) (codes "loop") refl) (
    then_call (call_addi x1 x1 (negsuc 0) refl)
      (then_call (call_label (codes "loop") refl) no_calls))

loop_words : assemble looped ≡ ok (0xfff08093 ∷ 0xfe009ee3 ∷ [])
unfolding assemble resolve_entries resolve_entry get text_eq b_type check_imm reg
loop_words = refl

Calls-IsPlaced_example : IsPlaced looped × LeavesOrEmpties looped
Calls-IsPlaced_example = Calls-IsPlaced looped loop-Calls

-- A register that does not exist is only found by `assemble`, which then leaves no words.
abbrev lost : Assembler
lost = record labelled { words = branch on_equal (named (codes "x99")) x1 (codes "loop") 0 ∷ [] }

loses_words :
    (assemble lost ≡ err (unknown_register (codes "x99"))) × (after_assemble lost ≡ labelled)
unfolding assemble after_assemble left_entries resolve_entries resolve_entry get text_eq b_type
    check_imm reg
loses_words = (refl, refl)

assemble-GoesTo_example :
    (w : ℕ) × (address : ℕ) × (s1 : ℕ) × (s2 : ℕ) × (get_elem? (0xfff08093 ∷ 0xfe009ee3 ∷ []) 1
      ≡ some w)
    × (get looped.labels (codes "loop") ≡ some address)
    × (reg x1 ≡ ok s1)
    × (reg (numbered (pos 0)) ≡ ok s2)
    × GoesTo on_different s1 s2 1 address w
assemble-GoesTo_example =
    assemble-GoesTo looped (0xfff08093 ∷ 0xfe009ee3 ∷ []) 1 on_different x1 (numbered (pos 0))
      (codes "loop") 4 loop-Calls loop_words refl

decode_in-contains_example : decode_in memory_map (pos 0x20000fff) ≡ some aes
unfolding Memmap.contains overlaps_in
decode_in-contains_example = decode_in-contains memory_map 3 aes (pos 0x20000fff) refl refl refl

decode-contains_example :
    (decode (pos 0x1fffffff) ≡ some aes) ↔ (Memmap.contains aes (pos 0x1fffffff) ≡ true)
decode-contains_example = decode-contains 3 aes (pos 0x1fffffff) refl

decode-register_example : (0x04 % 4 ≡ 0) × (decode (pos (uart.base + (0x04 + 3))) ≡ some uart)
decode-register_example =
    decode-register 1 1 uart (codes "STAT") (codes "status flags, read-only") 0x04 3 refl refl
      (omega arith)

-- The line of the UART's divisor in the C header.
divisor_line :
    c_register uart (codes "DIV", 0x08, codes "baud")
    ≡ codes "#define UART_DIV  0x10000008u  /* baud */"
unfolding c_register upper_name upper hex_padded hex_from
divisor_line = refl
