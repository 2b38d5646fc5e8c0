-- ===== src/Socgen/Firmware.antt =====
-- socgen/firmware.py: the two programs as chains of calls of the assembler. A KeyError of the memory
-- map cannot occur on the names used here; the programs take the regions themselves.
pub mod Polling
pub mod Timer
pub mod Interrupts
pub mod Counts
use risc_v_so_c.Base.{ℕ, ◌+◌, ◌*◌, List, [], ◌∷◌, low, ◌>>>◌, ◌<<<◌}
use risc_v_so_c.Base.Int.{ℤ, pos, negsuc}
use risc_v_so_c.Base.Text.{Text, codes}
use risc_v_so_c.Base.Results.{Result, ok, ◌>>=◌}
use risc_v_so_c.Socgen.Asm.{
  AsmError, Register, named, Assembler, assembler, pc, label, li, sw, lw, addi, nop, beq, csrr,
  csrw, csrrsi, mret, x0,
}
use risc_v_so_c.Socgen.Memmap.{ram, uart, aes, clint}

abbrev pub key : ℕ
key = 0x2b7e151628aed2a6abf7158809cf4f3c

abbrev pub plaintext : ℕ
plaintext = 0x3243f6a8885a308d313198a2e0370734

-- `_words`, from word `i` on, `n` of them.
unfoldable pub words_of : ℕ → ℕ → ℕ → List ℕ
words_of value i ℕ.zero = []
words_of value i (ℕ.suc n) = low 32 (value >>> (32 * i)) ∷ words_of value (i + 1) n

abbrev pub x : Text → Register
x name = named name

abbrev pub Chain : Type 0
Chain = Result AsmError Assembler

-- The loop that writes words to consecutive registers of the accelerator, from `offset` on.
unfoldable pub write_words : List ℕ → ℕ → Assembler → Chain
write_words [] offset a = ok a
write_words (w ∷ ws) offset a = do
  a₁ ← li (x (codes "x2")) (pos w) a
  a₂ ← sw (x (codes "x2")) (x (codes "x1")) (pos offset) a₁
  write_words ws (offset + 4) a₂

unfoldable pub nops : ℕ → Assembler → Chain
nops ℕ.zero a = ok a
nops (ℕ.suc n) a = nop a >>= nops n

unfoldable pub build : Chain
unfolding words_of write_words nops
build = do
  a₁ ← li (x (codes "x1")) (pos aes.base) assembler
  a₂ ← write_words (words_of key 0 4) 0 a₁
  a₃ ← nops 4 a₂
  a₄ ← write_words (words_of plaintext 0 4) 0x10 a₃
  a₅ ← li (x (codes "x2")) (pos 1) a₄
  a₆ ← sw (x (codes "x2")) (x (codes "x1")) (pos 0x20) a₅
  a₇ ← label (codes "wait") a₆
  a₈ ← lw (x (codes "x2")) (x (codes "x1")) (pos 0x24) a₇
  let a₉ = beq (x (codes "x2")) x0 (codes "wait") a₈
  b₁ ← li (x (codes "x6")) (pos uart.base) a₉
  b₂ ← li (x (codes "x7")) (pos 0x41) b₁
  b₃ ← sw (x (codes "x7")) (x (codes "x6")) (pos 0x00) b₂
  b₄ ← label (codes "done") b₃
  ok (beq x0 x0 (codes "done") b₄)

abbrev pub csr_mstatus : ℤ
csr_mstatus = pos 0x300

abbrev pub csr_mie : ℤ
csr_mie = pos 0x304

abbrev pub csr_mtvec : ℤ
csr_mtvec = pos 0x305

abbrev pub csr_mepc : ℤ
csr_mepc = pos 0x341

abbrev pub csr_mcause : ℤ
csr_mcause = pos 0x342

abbrev pub mie_mtie : ℕ
mie_mtie = 1 <<< 7

abbrev pub mstatus_mie : ℕ
mstatus_mie = 1 <<< 3

abbrev pub timer_period : ℕ
timer_period = 400

abbrev pub slot_main : ℕ
slot_main = 0

abbrev pub slot_ticks : ℕ
slot_ticks = 1

abbrev pub slot_cause : ℕ
slot_cause = 2

abbrev pub slot_resume : ℕ
slot_resume = 3

-- The handler, from its label to `mret`.
unfoldable pub timer_handler : Assembler → Chain
timer_handler a = do
  a₁ ← label (codes "handler") a
  a₂ ← addi (x (codes "x21")) (x (codes "x21")) (pos 1) a₁
  a₃ ← sw (x (codes "x21")) (x (codes "x20")) (pos (slot_ticks * 4)) a₂
  a₄ ← csrr (x (codes "x26")) csr_mcause a₃
  a₅ ← sw (x (codes "x26")) (x (codes "x20")) (pos (slot_cause * 4)) a₄
  a₆ ← csrr (x (codes "x27")) csr_mepc a₅
  a₇ ← sw (x (codes "x27")) (x (codes "x20")) (pos (slot_resume * 4)) a₆
  a₈ ← li (x (codes "x25")) (negsuc 0) a₇
  a₉ ← sw (x (codes "x25")) (x (codes "x24")) (pos 0) a₈
  b₁ ← sw x0 (x (codes "x28")) (pos 0) a₉
  b₂ ← lw (x (codes "x23")) (x (codes "x22")) (pos 0) b₁
  b₃ ← addi (x (codes "x23")) (x (codes "x23")) (pos timer_period) b₂
  b₄ ← sw (x (codes "x23")) (x (codes "x24")) (pos 0) b₃
  ok (mret b₄)

-- From the label `start` to the first deadline.
unfoldable pub timer_setup : Assembler → Chain
timer_setup a = do
  a₁ ← label (codes "start") a
  a₂ ← li (x (codes "x20")) (pos ram.base) a₁
  a₃ ← li (x (codes "x22")) (pos (clint.base + 0xbff8)) a₂
  a₄ ← li (x (codes "x24")) (pos (clint.base + 0x4000)) a₃
  a₅ ← li (x (codes "x28")) (pos (clint.base + 0x4004)) a₄
  a₆ ← li (x (codes "x21")) (pos 0) a₅
  a₇ ← li (x (codes "x25")) (negsuc 0) a₆
  a₈ ← sw (x (codes "x25")) (x (codes "x24")) (pos 0) a₇
  a₉ ← sw x0 (x (codes "x28")) (pos 0) a₈
  b₁ ← lw (x (codes "x23")) (x (codes "x22")) (pos 0) a₉
  b₂ ← addi (x (codes "x23")) (x (codes "x23")) (pos timer_period) b₁
  sw (x (codes "x23")) (x (codes "x24")) (pos 0) b₂

-- The trap registers and the interrupted loop.
unfoldable pub timer_loop : ℕ → Assembler → Chain
timer_loop handler_pc a = do
  a₁ ← li (x (codes "x5")) (pos handler_pc) a
  a₂ ← csrw csr_mtvec (x (codes "x5")) a₁
  a₃ ← li (x (codes "x6")) (pos mie_mtie) a₂
  a₄ ← csrw csr_mie (x (codes "x6")) a₃
  a₅ ← csrrsi x0 csr_mstatus (pos mstatus_mie) a₄
  a₆ ← li (x (codes "x1")) (pos 0) a₅
  a₇ ← label (codes "loop") a₆
  a₈ ← addi (x (codes "x1")) (x (codes "x1")) (pos 1) a₇
  a₉ ← sw (x (codes "x1")) (x (codes "x20")) (pos (slot_main * 4)) a₈
  ok (beq x0 x0 (codes "loop") a₉)

unfoldable pub build_timer_demo : Chain
unfolding timer_handler timer_setup timer_loop
build_timer_demo = do
  let a = beq x0 x0 (codes "start") assembler
  let handler_pc = pc a
  handled ← timer_handler a
  ready ← timer_setup handled
  timer_loop handler_pc ready
