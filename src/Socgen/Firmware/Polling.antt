-- ===== src/Socgen/Firmware/Polling.antt =====
-- socgen/firmware.py, `build`: the accesses of the program to the accelerator and the UART.
use risc_v_so_c.Base.{
  ℕ, zero, suc, ◌+◌, ◌/◌, ◌%◌, ◌^◌, ◌<◌, ◌≡◌, ◌≢◌, refl, arith, ◌==◌, if◌then◌else◌, some, List, [],
  ◌∷◌,
}
use risc_v_so_c.Base.Text.{text_eq}
use risc_v_so_c.Base.Dict.{get, put, contains}
use risc_v_so_c.Base.Results.{ok, ◌>>=◌}
use risc_v_so_c.Socgen.Asm
use risc_v_so_c.Socgen.Asm.Output.{assemble, resolve_entries, resolve_entry}
use risc_v_so_c.Socgen.Memmap.{aes, uart}
use risc_v_so_c.Socgen.Firmware.{build, key, plaintext}
use risc_v_so_c.Socgen.Rv32.{Registers, update}
use risc_v_so_c.Socgen.Rv32.Hart.{Access, load, store, Hart, reset, step, steps, steps-add}

-- A 128-bit value as four words, the low one first.
abbrev pub quarters : ℕ → List ℕ
quarters v = v % 2 ^ 32 ∷ v / 2 ^ 32 % 2 ^ 32 ∷ v / 2 ^ 64 % 2 ^ 32 ∷ v / 2 ^ 96 ∷ []

-- Stores of the words to consecutive addresses, after the accesses `done`; newest first.
abbrev pub stores : ℕ → List ℕ → List Access → List Access
stores address [] done = done
stores address (w ∷ ws) done = stores (address + 4) ws (store address w ∷ done)

-- The accesses up to the start of the accelerator: the key, the block, the start bit.
abbrev pub started : List Access
started =
    store (aes.base + 0x20) 1
    ∷ stores (aes.base + 0x10) (quarters plaintext) (stores aes.base (quarters key) [])

-- And `n` loads of the status after it.
abbrev pub polled : ℕ → List Access
polled zero = started
polled (suc n) = load (aes.base + 0x24) ∷ polled n

abbrev program : List ℕ
program =
    0x200000b7 ∷ 0x09cf5137 ∷ 0xf3c10113 ∷ 0x0020a023 ∷ 0xabf71137 ∷ 0x58810113 ∷ 0x0020a223
    ∷ 0x28aed137 ∷ 0x2a610113 ∷ 0x0020a423 ∷ 0x2b7e1137 ∷ 0x51610113 ∷ 0x0020a623 ∷ 0x00000013
    ∷ 0x00000013 ∷ 0x00000013 ∷ 0x00000013 ∷ 0xe0370137 ∷ 0x73410113 ∷ 0x0020a823 ∷ 0x3131a137
    ∷ 0x8a210113 ∷ 0x0020aa23 ∷ 0x885a3137 ∷ 0x08d10113 ∷ 0x0020ac23 ∷ 0x3243f137 ∷ 0x6a810113
    ∷ 0x0020ae23 ∷ 0x00100113 ∷ 0x0220a023 ∷ 0x0240a103 ∷ 0xfe010ee3 ∷ 0x10000337 ∷ 0x04100393
    ∷ 0x00732023 ∷ 0x00000063 ∷ []

assembled : (build >>= assemble) ≡ ok program
unfolding build assemble resolve_entries resolve_entry get put contains text_eq Asm.li Asm.li_parts
    Asm.lui Asm.addi Asm.i_type Asm.i_word Asm.check_imm Asm.reg Asm.emit Asm.sw Asm.s_type
    Asm.s_word Asm.nop Asm.label Asm.lw Asm.beq Asm.b_type Asm.b_word
assembled = refl

-- The core in front of the load of the status, with `r` in its registers and `done` behind it.
abbrev waiting : Registers → List Access → Hart
waiting r done = record (reset r) { pc = 124; accesses = done }

leaves : (v : ℕ) → v ≢ 0 → (if v == 0 then 124 else 132) ≡ (let out : ℕ = 132 in out)
leaves v h = ground arith

module _ (bus : List Access → ℕ → ℕ) where
  abbrev status : List Access → ℕ
  status done = bus done (aes.base + 0x24)

  starts :
      (r : Registers)
      → (r' : Registers) × (steps bus program 31 (reset r) ≡ some (waiting r' started))
        × (r' 1 ≡ aes.base)
  unfolding steps
  starts r = (_, refl, refl)

  -- One round of the loop: the load and the branch.
  poll :
      (r : Registers) (done : List Access) (v : ℕ)
      → r 1 ≡ aes.base
      → status done ≡ v
      → steps bus program 2 (waiting r done)
        ≡ some (record (waiting (update r 2 v) (load (aes.base + 0x24) ∷ done)) {
          pc = if v == 0 then 124 else 132;
        })
  unfolding steps
  poll r done v base e = rw (base, e)

  polls :
      (n : ℕ) (r : Registers)
      → ((k : ℕ) → k < n → status (polled k) ≡ 0)
      → (count : ℕ) × (r' : Registers) × (steps bus program count (reset r)
          ≡ some (waiting r' (polled n)))
        × (r' 1 ≡ aes.base)
  polls zero r busy = let (r', reached, base) = starts r in (31, r', reached, base)
  polls (suc n) r busy =
      let (count, r', reached, base) = polls n r (λ k lt. busy k (omega arith)) in
      let round = poll r' (polled n) 0 base (busy n (omega arith)) in
      (count + 2, update r' 2 0, steps-add bus program count 2 (reset r) reached round, base)

  -- The byte for the UART, and the branch to itself.
  finishes :
      (r : Registers) (done : List Access)
      → (h : Hart) × (steps bus program 3 (record (waiting r done) { pc = 132 }) ≡ some h)
        × (h.accesses ≡ store uart.base 0x41 ∷ done)
        × (step bus program h ≡ some h)
  unfolding steps
  finishes r done = (_, refl, refl, refl)

  -- The words of `build`, run from address 0 with any values in the registers, write the four words of
  -- the key and the four of the plaintext to the accelerator, low words first, and start it. Then they
  -- load its status until it is not 0, `n + 1` times where the first `n` answers are 0 and the next is
  -- not, and write the letter A to the UART, with no other access. There the core stays.
  pub build-Polls :
      (r : Registers) (n : ℕ)
      → ((k : ℕ) → k < n → status (polled k) ≡ 0)
      → status (polled n) ≢ 0
      → (words : List ℕ) × (count : ℕ) × (h : Hart) × ((build >>= assemble) ≡ ok words)
        × (steps bus words count (reset r) ≡ some h)
        × (h.accesses ≡ store uart.base 0x41 ∷ polled (suc n))
        × (step bus words h ≡ some h)
  build-Polls r n busy ready =
      let (count, r', reached, base) = polls n r busy in
      let v = status (polled n) in
      let left = leaves v ready in
      let round = poll r' (polled n) v base refl in
      let (h, last, seen, stays) = finishes (update r' 2 v) (polled (suc n)) in
      let waited = steps-add bus program count 2 (reset r) reached round in
      (
        program,
        count + 2 + 3,
        h,
        assembled,
        steps-add bus program (count + 2) 3 (reset r) waited (rw left last),
        seen,
        stays,
      )
