-- ===== src/Socgen/Firmware/Interrupts.antt =====
-- socgen/firmware.py, `build_timer_demo`: the run of its words with interrupts at any places.
use risc_v_so_c.Base.{
  ℕ, suc, ◌+◌, ◌%◌, ◌^◌, ◌≡◌, refl, ◌∙◌, arith, Bool, true, false, some, List, [], ◌∷◌, replicate,
}
use risc_v_so_c.Base.Int.{pos, ◌+ℤ◌, wrap}
use risc_v_so_c.Socgen.Memmap.{ram, clint}
use risc_v_so_c.Socgen.Rv32.{Registers, update}
use risc_v_so_c.Socgen.Rv32.Hart.{Access, load, store, Hart, reset, run, run-append}
use risc_v_so_c.Socgen.Firmware.Timer.{
  Event, instruction, interrupt, cycles, schedule, Place, clearing, counting, storing, jumping,
  address, following, rearm, handled, worked, reached, demanded, program,
}

-- The registers that the handler and the loop rely on.
pub record IsReady (t : ℕ) (r : Registers) : Type 0 where
  pub at_ram : r 20 ≡ ram.base
  pub at_mtime : r 22 ≡ clint.base + 0xbff8
  pub at_low : r 24 ≡ clint.base + 0x4000
  pub at_high : r 28 ≡ clint.base + 0x4004
  pub ticks : r 21 ≡ t % 2 ^ 32

-- The main program at an address, with interrupts on.
abbrev pub looping : ℕ → Registers → Bool → ℕ → ℕ → List Access → Hart
looping at r b e m done = record {
  pc = at;
  regs = r;
  status_mie = true;
  status_mpie = b;
  mie = 0x80;
  mtvec = 4;
  mepc = e;
  mcause = m;
  accesses = done;
}

abbrev plus : ℕ → ℕ → ℕ
plus a k = wrap 32 (pos a +ℤ pos k)

plus_one : (a t : ℕ) → a ≡ t % 2 ^ 32 → plus a 1 ≡ suc t % 2 ^ 32
plus_one a t e = ground arith

-- What register 1 holds at each place.
abbrev pub Counts : Place → ℕ → Registers → Type 0
Counts clearing c r = c ≡ 0
Counts counting c r = r 1 ≡ c % 2 ^ 32
Counts storing c r = r 1 ≡ suc c % 2 ^ 32
Counts jumping c r = r 1 ≡ c % 2 ^ 32

Counts-same : (r r' : Registers) (p : Place) (c : ℕ) → r' 1 ≡ r 1 → Counts p c r → Counts p c r'
Counts-same r r' clearing c same h = h
Counts-same r r' counting c same h = same ∙ h
Counts-same r r' storing c same h = same ∙ h
Counts-same r r' jumping c same h = same ∙ h

kept : (t : ℕ) (r : Registers) (v : ℕ) → IsReady t r → IsReady t (update r 1 v)
kept t r v ready = record {
  at_ram = ready.at_ram;
  at_mtime = ready.at_mtime;
  at_low = ready.at_low;
  at_high = ready.at_high;
  ticks = ready.ticks;
}

module _ (bus : List Access → ℕ → ℕ) where
  pub sets_up :
      (r : Registers)
      → (r' : Registers) × (run bus program (replicate 19 true) (reset r)
          ≡ some (looping 128 r' false 0 0 (rearm bus [])))
        × IsReady 0 r'
  unfolding run
  sets_up r = (
    _,
    refl,
    record { at_ram = refl; at_mtime = refl; at_low = refl; at_high = refl; ticks = refl },
  )

  -- The accesses of the handler in terms of the registers.
  abbrev raw : Registers → ℕ → List Access → List Access
  raw r at done =
      let parked =
        store (plus (r 28) 0) 0
        ∷ store (plus (r 24) 0) 0xffffffff
        ∷ store (plus (r 20) 12) at
        ∷ store (plus (r 20) 8) 0x80000007
        ∷ store (plus (r 20) 4) (plus (r 21) 1)
        ∷ done in
      let now = bus parked (plus (r 22) 0) in
      store (plus (r 24) 0) (plus now 400) ∷ load (plus (r 22) 0) ∷ parked

  raw-handled :
      {t : ℕ} {r : Registers} (at : ℕ) (done : List Access)
      → IsReady t r
      → raw r at done ≡ handled bus at (suc t) done
  raw-handled {t} {r} at done ready =
      rw (ready.at_ram, ready.at_mtime, ready.at_low, ready.at_high, plus_one (r 21) t ready.ticks)

  -- An interrupt at any place: the handler runs to its end, and the program goes on where it was.
  handler_runs :
      (at : ℕ) (r : Registers) (b : Bool) (e m : ℕ) (done : List Access)
      → (r' : Registers) × (run bus program (cycles interrupt) (looping at r b e m done)
          ≡ some (looping at r' true at 0x80000007 (raw r at done)))
        × (r' 1 ≡ r 1)
        × (r' 20 ≡ r 20)
        × (r' 22 ≡ r 22)
        × (r' 24 ≡ r 24)
        × (r' 28 ≡ r 28)
        × (r' 21 ≡ plus (r 21) 1)
  unfolding run
  handler_runs at r b e m done = (_, refl, refl, refl, refl, refl, refl, refl)

  interrupted_run :
      (at t : ℕ) (r : Registers) (b : Bool) (e m : ℕ) (done : List Access)
      → IsReady t r
      → (r' : Registers) × (run bus program (cycles interrupt) (looping at r b e m done)
          ≡ some (looping at r' true at 0x80000007 (handled bus at (suc t) done)))
        × IsReady (suc t) r'
        × (r' 1 ≡ r 1)
  interrupted_run at t r b e m done ready =
      let (r', ran, one, e20, e22, e24, e28, e21) = handler_runs at r b e m done in
      (
        r',
        rw (raw-handled at done ready) at ran,
        record {
          at_ram = e20 ∙ ready.at_ram;
          at_mtime = e22 ∙ ready.at_mtime;
          at_low = e24 ∙ ready.at_low;
          at_high = e28 ∙ ready.at_high;
          ticks = e21 ∙ plus_one (r 21) t ready.ticks;
        },
        one,
      )

  instruction_runs :
      (p : Place) (c t : ℕ) (r : Registers) (b : Bool) (e m : ℕ) (done : List Access)
      → Counts p c r
      → IsReady t r
      → (r' : Registers) × (run bus program (cycles instruction) (looping (address p) r b e m done)
          ≡ some (looping (address (following p)) r' b e m (worked p c done)))
        × Counts (following p) (reached p c) r'
        × IsReady t r'
  unfolding run
  instruction_runs clearing c t r b e m done count ready =
      (update r 1 0, refl, rw count, kept t r 0 ready)
  instruction_runs counting c t r b e m done count ready =
      (update r 1 (plus (r 1) 1), refl, plus_one (r 1) c count, kept t r (plus (r 1) 1) ready)
  instruction_runs storing c t r b e m done count ready =
      (r, rw (ready.at_ram, count), count, ready)
  instruction_runs jumping c t r b e m done count ready = (r, refl, count, ready)

  pub events_run :
      (es : List Event) (p : Place) (c t : ℕ) (r : Registers) (b : Bool) (e m : ℕ)
      (done : List Access)
      → Counts p c r
      → IsReady t r
      → (h : Hart) × (run bus program (schedule es) (looping (address p) r b e m done) ≡ some h)
        × (h.accesses ≡ demanded bus p c t es done)
  events_run [] p c t r b e m done count ready =
      (looping (address p) r b e m done, unfold run in refl, refl)
  events_run (instruction ∷ es) p c t r b e m done count ready =
      let (r', ran, count', ready') = instruction_runs p c t r b e m done count ready in
      let (h, later, seen) =
        events_run es (following p) (reached p c) t r' b e m (worked p c done) count' ready' in
      (h, run-append bus program (cycles instruction) (schedule es) _ ran later, seen)
  events_run (interrupt ∷ es) p c t r b e m done count ready =
      let (r', ran, ready', one) = interrupted_run (address p) t r b e m done ready in
      let (h, later, seen) =
        events_run es p c (suc t) r' true (address p) 0x80000007
          (handled bus (address p) (suc t) done) (Counts-same r r' p c one count) ready' in
      (h, run-append bus program (cycles interrupt) (schedule es) _ ran later, seen)
