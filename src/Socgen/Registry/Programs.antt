-- ===== src/Socgen/Registry/Programs.antt =====
-- socgen/registry.py: the programs that the benches of the SoC write into their directory. The programs
-- take the regions of the map themselves, where the code looks them up by names that are there.
use risc_v_so_c.Base.{◌+◌, ◌++◌}
use risc_v_so_c.Base.Int.{pos}
use risc_v_so_c.Base.Text.{codes}
use risc_v_so_c.Base.Results.{ok, ◌>>=◌}
use risc_v_so_c.Socgen.Asm.{assembler, label, li, addi, sw, lw, beq, bne, x0}
use risc_v_so_c.Socgen.Asm.Output.{write_hex}
use risc_v_so_c.Socgen.Memmap.{ram, aes}
use risc_v_so_c.Socgen.Firmware.{x, Chain, nops, build, build_timer_demo}
use risc_v_so_c.Socgen.Toolchain.{Preparation}

-- A finished program, written to `program.hex`.
unfoldable pub write_program : Chain → Preparation
unfolding write_hex
write_program program cwd = do text ← program >>= write_hex; ok (cwd ++ codes "/program.hex", text)

unfoldable pub defect_program : Chain
defect_program = do
  a₁ ← li (x (codes "x1")) (pos 0) assembler
  a₂ ← li (x (codes "x2")) (pos 5) a₁
  a₃ ← li (x (codes "x3")) (pos ram.base) a₂
  a₄ ← label (codes "loop") a₃
  a₅ ← addi (x (codes "x1")) (x (codes "x1")) (pos 1) a₄
  let a₆ = bne (x (codes "x1")) (x (codes "x2")) (codes "loop") a₅
  a₇ ← sw (x (codes "x1")) (x (codes "x3")) (pos 0) a₆
  a₈ ← li (x (codes "x4")) (pos (aes.base + 0x24)) a₇
  a₉ ← li (x (codes "x5")) (pos 0xdead) a₈
  b₁ ← lw (x (codes "x5")) (x (codes "x4")) (pos 0) a₉
  b₂ ← addi (x (codes "x5")) (x (codes "x5")) (pos 7) b₁
  b₃ ← sw (x (codes "x5")) (x (codes "x3")) (pos 4) b₂
  b₄ ← label (codes "end") b₃
  ok (beq x0 x0 (codes "end") b₄)

unfoldable pub load_program : Chain
unfolding nops
load_program = do
  a₁ ← li (x (codes "x1")) (pos ram.base) assembler
  a₂ ← li (x (codes "x2")) (pos 0xaaaa0000) a₁
  a₃ ← sw (x (codes "x2")) (x (codes "x1")) (pos 0) a₂
  a₄ ← li (x (codes "x3")) (pos 0xbbbb0000) a₃
  a₅ ← sw (x (codes "x3")) (x (codes "x1")) (pos 16) a₄
  a₆ ← nops 3 a₅
  a₇ ← lw (x (codes "x4")) (x (codes "x1")) (pos 16) a₆
  a₈ ← nops 3 a₇
  a₉ ← lw (x (codes "x5")) (x (codes "x1")) (pos 0) a₈
  b₁ ← nops 3 a₉
  b₂ ← sw (x (codes "x5")) (x (codes "x1")) (pos 32) b₁
  b₃ ← label (codes "end") b₂
  ok (beq x0 x0 (codes "end") b₃)

unfoldable pub poll_program : Chain
poll_program = do
  a₁ ← li (x (codes "x1")) (pos aes.base) assembler
  a₂ ← li (x (codes "x3")) (pos ram.base) a₁
  a₃ ← li (x (codes "x2")) (pos 1) a₂
  a₄ ← sw (x (codes "x2")) (x (codes "x1")) (pos 0x20) a₃
  a₅ ← label (codes "wait") a₄
  a₆ ← lw (x (codes "x2")) (x (codes "x1")) (pos 0x24) a₅
  let a₇ = beq (x (codes "x2")) x0 (codes "wait") a₆
  a₈ ← li (x (codes "x4")) (pos 0xa5a50001) a₇
  a₉ ← sw (x (codes "x4")) (x (codes "x3")) (pos 0) a₈
  b₁ ← label (codes "end") a₉
  ok (beq x0 x0 (codes "end") b₁)

unfoldable pub write_defect_program : Preparation
unfolding write_program defect_program
write_defect_program = write_program defect_program

unfoldable pub write_load_program : Preparation
unfolding write_program load_program
write_load_program = write_program load_program

unfoldable pub write_poll_program : Preparation
unfolding write_program poll_program
write_poll_program = write_program poll_program

unfoldable pub write_timer_demo : Preparation
unfolding write_program build_timer_demo
write_timer_demo = write_program build_timer_demo

unfoldable pub write_firmware : Preparation
unfolding write_program build
write_firmware = write_program build
