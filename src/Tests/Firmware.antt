-- ===== src/Tests/Firmware.antt =====
-- The firmware's programs, assembled.
use risc_v_so_c.Base.{true, ℕ, ◌≡◌, refl, some, Option, none, List, get_elem?}
use risc_v_so_c.Base.Results.{Result, ok, err, ◌>>=◌}
use risc_v_so_c.Base.Text.{codes, text_eq}
use risc_v_so_c.Socgen.Memmap.{region, region_in, aes, uart, ram, clint}
use risc_v_so_c.Base.Dict.{get, put, contains}
use risc_v_so_c.Socgen.Asm
use risc_v_so_c.Socgen.Asm.{AsmError, Assembler}
use risc_v_so_c.Socgen.Asm.Output.{assemble, resolve_entries, resolve_entry}
use risc_v_so_c.Socgen.Firmware.{build}
use risc_v_so_c.Socgen.Registry.Programs.{load_program, poll_program, defect_program}
use risc_v_so_c.Socgen.Cli.Ends.{assembles}

abbrev word_at : ℕ → Result AsmError (List ℕ) → Option ℕ
word_at i (ok ws) = get_elem? ws i
word_at i (err e) = none

-- `beq x2, x0, wait`, one word back, and the jump over the handler.
poll_word : word_at 32 (build >>= assemble) ≡ some 0xfe010ee3
unfolding build assemble resolve_entries resolve_entry get put contains text_eq Asm.li Asm.li_parts
    Asm.lui Asm.addi Asm.i_type Asm.i_word Asm.check_imm Asm.reg Asm.emit Asm.sw Asm.s_type
    Asm.s_word Asm.nop Asm.label Asm.lw Asm.beq Asm.b_type Asm.b_word
poll_word = refl

-- The names that the programs look up in the map.
found :
    (region (codes "aes") ≡ some aes)
    × (region (codes "uart") ≡ some uart)
    × (region (codes "ram") ≡ some ram)
    × (region (codes "clint") ≡ some clint)
unfolding region region_in text_eq
found = (refl, refl, refl, refl)

-- The programs of the benches that only the repository's tests run.
bench_programs :
    (assembles load_program ≡ true)
    × (assembles poll_program ≡ true)
    × (assembles defect_program ≡ true)
unfolding load_program poll_program defect_program assemble resolve_entries resolve_entry get put
    contains text_eq Asm.li Asm.li_parts Asm.lui Asm.addi Asm.i_type Asm.i_word Asm.check_imm
    Asm.reg Asm.emit Asm.sw Asm.s_type Asm.s_word Asm.nop Asm.label Asm.lw Asm.beq Asm.bne
    Asm.b_type Asm.b_word
bench_programs = (refl, refl, refl)
