-- ===== src/Lib.antt =====
-- The 8-bit processor's tools and the SoC generator of this repository.
--
-- Cpu8 is modules/cpu8/sim/sim.py, the simulator of the 8-bit processor of modules/cpu8. `Sim` is
-- the state of the class of that name, without its trace flag, which is an argument of `main`.
-- `init`, `reset`, `load`, `reg_read`, `reg_write`, `set_flags` and `branch_taken` are its methods
-- (Cpu8.Machine). `step` is the method of that name (Cpu8.Exec): `fields` cuts the word
-- (Cpu8.Exec.Decode), `dispatch` and `dispatch_control` are its chain of tests on the opcode, and
-- each branch of the chain is a function `exec_…`. `none` stands for Python's IndexError. `run` is
-- the method of that name, with one more round of fuel than `max_cycles`: a step of a running
-- machine adds one to the cycle count, and the loop ends at the limit. Cpu8.Trace is what `step`
-- prints when it traces. Cpu8.Main is `dump` and `main`: the words come from a hex file or from the
-- assembler, and the printed lines are returned.
--
-- C8asm is modules/cpu8/asm/c8asm.py, the assembler for it: `Line` and `AsmError` (C8asm.Syntax),
-- `_strip` (C8asm.Lexer), the operand parsers (C8asm.Operand), the formats (C8asm.Encode) and the
-- two passes with `assemble` (C8asm.Passes, C8asm.Passes.Encoders), `to_hex` (C8asm.Hex),
-- `to_listing` (C8asm.Listing) and `main` (C8asm.Main), which returns the files that it writes.
-- Source text is a list of ASCII codes. An exception is a value of `Result`, Python's own
-- ValueError and IndexError included. C8asm.Places is about the labels of the first pass,
-- C8asm.Fresh about the lines before it.
--
-- Isa is the instruction set of docs/cpu8.md as a data type, with the word of an instruction in the
-- assembler's formats and its effect by the simulator's operations. It stands between the two
-- programs: Isa.Assembled says which instruction a line is, Isa.Execute what the simulator makes of
-- its word. Isa.Assembled.Program is about a whole source and the steps of the simulator on its
-- words, Isa.Assembled.Files about the files that the assembler writes.
--
-- Socgen is socgen/. Socgen.Asm is socgen/asm.py: `Assembler` with one function for each method
-- (`r_type`, `i_type`, `s_type` and `b_type` are `_r`, `_i`, `_s` and `_b`), `assemble` and the
-- text of `write_hex` (Socgen.Asm.Output); `after_assemble` is the object that `assemble` leaves,
-- also where it raises (Socgen.Asm.Left); `Call` is the step relation of the methods.
-- Socgen.Memmap is socgen/memmap.py with its headers (Socgen.Memmap.Headers). Socgen.Rv32 is not
-- code of the repository: it gives the fields of RV32I words, and LUI and ADDI, as the manual does,
-- for the theorems on the assembler; Socgen.Rv32.Hart is a core that runs words by the manual and
-- docs/traps.md, one instruction in a cycle, over a parameter for what the bus answers to a load.
-- Socgen.Firmware is socgen/firmware.py: `build` and `build_timer_demo` as chains of calls, the
-- second in three parts. Socgen.Firmware.Polling runs the first program on that core,
-- Socgen.Firmware.Timer says what the second is to do, and Socgen.Firmware.Interrupts and
-- Socgen.Firmware.Counts run it under interrupts. Socgen.Toolchain is socgen/toolchain.py:
-- `simulate` and `lint`, over parameters for the programs that they look for and run. A run is an
-- `Outcome`: a finished program, TimeoutExpired, or another exception of subprocess.run;
-- Socgen.Cli.Stops follows those that nothing catches.
-- Socgen.Registry is socgen/registry.py: `Module` and `MANIFEST` (Socgen.Registry.Manifest), the
-- programs of the benches (Socgen.Registry.Programs), the benches of the SoC
-- (Socgen.Registry.SocBenches), and `module`, which is `module_named`. Socgen.Cli is socgen/cli.py:
-- each `_cmd_…` is `cmd_…`, and `main` is the table of them on a parsed command.
--
-- Mandelbrot is modules/mandelbrot/sim/verify_fp.py: the fixed-point iteration and the colours
-- (Mandelbrot), the iteration on floating-point numbers, `render` and `check_fp_accuracy`
-- (Mandelbrot.Render), `write_ppm` and `main` (Mandelbrot.Ppm). The loops are recursion on the
-- rounds or pixels that are left.
--
-- Aes is modules/aes/bench/aes_benchmark.py: AES-128 with one function for each of its own, its
-- table of vectors and `run_vectors` (Aes.Vectors), and the benchmark (Aes.Benchmark), where the
-- clock's reading is an argument. Aes.Columns, Aes.Sbox and Aes.Inverse also have what the program
-- does not: the matrices, the affine map and the decryption of FIPS 197.
--
-- Nist is modules/trng/tools/nist_sts.py: what the tests count on natural numbers (Nist, Nist.Rank,
-- Nist.Template), and their statistics over `Floats`, a parameter for floating-point numbers
-- (Nist.Gamma, Nist.Suite, Nist.Patterns), up to `run_all` and `main` (Nist.Report). Nist.Rank has
-- the elimination of `_matrix_rank`; its child modules follow the entries, the solutions and the
-- echelon form through it. The loop over a block of `test_non_overlapping_template` has ten rounds
-- of fuel: a template that is not empty moves it on by at least one bit of eight.
--
-- Audio is modules/synth/sim/decode_pdm.py: `decode_pdm`, over `Floats`, the bytes of `write_wav`,
-- and `main`. The loop has one round of fuel for each bit and one more; a round takes at least one
-- bit.
--
-- Collect is modules/trng/tools/collect.py: `collect` over `Serial`, a parameter for the port of
-- pyserial. The loop is on fuel, since without a limit it runs as long as bytes come; one more
-- round than there are bytes to come is enough, because a round that goes on has read at least one.
--
-- Synth is modules/synth/sim/gen_hex.py: the two tables, `write_hex`, the coefficients of
-- `biquad_lowpass` with their lines for synth_top.v, and `main`, over `Floats`.
--
-- Base has what these share: bits of naturals, integers with Python's shifts and masks, text,
-- dictionaries as association lists in the order of insertion, results, and `Floats`.
-- Tests runs the definitions on small inputs.
--
-- Not modelled: argparse, and the help texts; the files that are written, up to their names and
-- contents; exceptions of the making of directories and the writing of files; running times, rates
-- and progress lines, and the formats of floating-point numbers where results are printed; the two
-- gains that `biquad_lowpass` prints as a sanity check, one of them of complex numbers; the Verilog
-- and VHDL sources; the tests.
pub mod Base
pub mod Cpu8
pub mod C8asm
pub mod Isa
pub mod Socgen
pub mod Mandelbrot
pub mod Aes
pub mod Nist
pub mod Audio
pub mod Collect
pub mod Synth
pub mod Tests
