-- ===== src/Socgen/Rv32/Hart.antt =====
-- A core that runs the words of a program one at a time, as the RV32I manual and docs/traps.md have it:
-- LUI, ADDI, LW, SW, BEQ, the CSR instructions that the firmware uses, MRET, and the timer interrupt.
-- What the bus answers to a load is a parameter.
use risc_v_so_c.Base.{
  ℕ, suc, zero, ◌+◌, ◌*◌, ◌/◌, ◌≡◌, ◌==◌, Bool, true, false, ◌&&◌, if◌then◌else◌, Option, none,
  some, List, [], ◌∷◌, ◌++◌, bit, bit_or, get_elem?,
}
use risc_v_so_c.Base.Int.{pos, ◌+ℤ◌, wrap}
use risc_v_so_c.Base.Options.{◌>>=◌, >>=-eq-some, some-injective}
use native.Mathlib.Nat.{zero-add, suc-add}
use risc_v_so_c.Socgen.Rv32.{
  signed, opcode, rd_field, funct3, rs1_field, rs2_field, i_field, s_field, b_field, Registers,
  read, update, run_word,
}

-- An access to the bus: a load from an address, or a store of a value to an address.
pub data Access : Type 0 where
  load : ℕ → Access
  store : ℕ → ℕ → Access

-- `status_mie` and `status_mpie` are the two bits of mstatus; `accesses` are newest first.
pub record Hart : Type 0 where
  pub pc : ℕ
  pub regs : Registers
  pub status_mie : Bool
  pub status_mpie : Bool
  pub mie : ℕ
  pub mtvec : ℕ
  pub mepc : ℕ
  pub mcause : ℕ
  pub accesses : List Access

-- The start of a program at address 0, with interrupts off.
abbrev pub reset : Registers → Hart
reset r = record {
  pc = 0;
  regs = r;
  status_mie = false;
  status_mpie = false;
  mie = 0;
  mtvec = 0;
  mepc = 0;
  mcause = 0;
  accesses = [];
}

abbrev pub next : Hart → Hart
next h = record h { pc = h.pc + 4 }

-- The result of an instruction goes to `rd`.
abbrev pub set_rd : ℕ → ℕ → Hart → Hart
set_rd w v h = record h { regs = update h.regs (rd_field w) v }

abbrev pub test_bit : ℕ → ℕ → Bool
test_bit i x = bit i x == 1

abbrev pub mstatus : Hart → ℕ
mstatus h = 0x1800 + (if h.status_mie then 8 else 0) + (if h.status_mpie then 128 else 0)

-- A CSR that is not among these reads as zero, and a write to it is discarded.
abbrev pub csr_value : ℕ → Hart → ℕ
csr_value c h =
    if c == 0x300
    then mstatus h
    else if c == 0x304
    then h.mie
    else if c == 0x305
    then h.mtvec
    else if c == 0x341
    then h.mepc
    else if c == 0x342
    then h.mcause
    else 0

abbrev pub set_csr : ℕ → ℕ → Hart → Hart
set_csr c v h =
    if c == 0x300
    then record h { status_mie = test_bit 3 v; status_mpie = test_bit 7 v }
    else if c == 0x304
    then record h { mie = v }
    else if c == 0x305
    then record h { mtvec = v / 4 * 4 }
    else if c == 0x341
    then record h { mepc = v / 4 * 4 }
    else if c == 0x342
    then record h { mcause = v }
    else h

-- CSRRW, CSRRS and CSRRSI; the last two do not write where the source field is 0.
unfoldable pub run_csr : ℕ → Hart → Option Hart
run_csr w h =
    let c = i_field w in
    let old = csr_value c h in
    let source = rs1_field w in
    let value = read h.regs source in
    if funct3 w == 1
    then some (next (set_rd w old (set_csr c value h)))
    else if funct3 w == 2
    then some (next (set_rd w old (if source == 0 then h else set_csr c (bit_or old value) h)))
    else if funct3 w == 6
    then some (next (set_rd w old (if source == 0 then h else set_csr c (bit_or old source) h)))
    else none

module _ (bus : List Access → ℕ → ℕ) where
  -- One instruction. The bus answers a load by its address and the accesses before.
  unfoldable pub execute : ℕ → Hart → Option Hart
  unfolding run_csr run_word
  execute w h =
      let base = read h.regs (rs1_field w) in
      let loaded = wrap 32 (pos base +ℤ signed 12 (i_field w)) in
      let stored = wrap 32 (pos base +ℤ signed 12 (s_field w)) in
      if w == 0x30200073
      then some (record h { pc = h.mepc; status_mie = h.status_mpie; status_mpie = true })
      else if opcode w == 0x73
      then run_csr w h
      else if opcode w == 0x03 && funct3 w == 2
      then some (
          next
            (set_rd w (bus h.accesses loaded) (record h { accesses = load loaded ∷ h.accesses })))
      else if opcode w == 0x23 && funct3 w == 2
      then some
          (next (record h { accesses = store stored (read h.regs (rs2_field w)) ∷ h.accesses }))
      else if opcode w == 0x63 && funct3 w == 0
      then (let target = wrap 32 (pos h.pc +ℤ signed 13 (b_field w)) in
          some (record h { pc = if base == read h.regs (rs2_field w) then target else h.pc + 4 }))
      else (run_word w h.regs >>= λ r. some (next (record h { regs = r })))

  -- The instruction at the program counter.
  unfoldable pub step : List ℕ → Hart → Option Hart
  unfolding execute
  step program h = get_elem? program (h.pc / 4) >>= λ w. execute w h

  unfoldable pub steps : List ℕ → ℕ → Hart → Option Hart
  unfolding step
  steps program zero h = some h
  steps program (suc n) h = step program h >>= steps program n

  pub steps-add :
      (program : List ℕ) (a b : ℕ) (h : Hart) {h₁ h₂ : Hart}
      → steps program a h ≡ some h₁
      → steps program b h₁ ≡ some h₂
      → steps program (a + b) h ≡ some h₂
  unfolding steps
  steps-add program zero b h p q = rw zero-add (rw (some-injective p) q)
  steps-add program (suc a) b h p q =
      let (h', first, rest) = >>=-eq-some (step program h) (steps program a) p in
      rw suc-add (rw first (steps-add program a b h' rest q))

  -- The timer interrupt: with both enables set it comes before the instruction at the program counter.
  abbrev pub interrupted : Hart → Hart
  interrupted h = record h {
    pc = h.mtvec;
    mepc = h.pc;
    mcause = 0x80000007;
    status_mie = false;
    status_mpie = h.status_mie;
  }

  -- One cycle; `pending` is the timer's level.
  unfoldable pub tick : List ℕ → Bool → Hart → Option Hart
  unfolding step
  tick program pending h =
      if h.status_mie && test_bit 7 h.mie && pending then some (interrupted h) else step program h

  unfoldable pub run : List ℕ → List Bool → Hart → Option Hart
  unfolding tick
  run program [] h = some h
  run program (pending ∷ later) h = tick program pending h >>= run program later

  pub run-append :
      (program : List ℕ) (now later : List Bool) (h : Hart) {h₁ h₂ : Hart}
      → run program now h ≡ some h₁
      → run program later h₁ ≡ some h₂
      → run program (now ++ later) h ≡ some h₂
  unfolding run
  run-append program [] later h p q = rw (some-injective p) q
  run-append program (b ∷ now) later h p q =
      let (h', first, rest) = >>=-eq-some (tick program b h) (run program now) p in
      rw first (run-append program now later h' rest q)
