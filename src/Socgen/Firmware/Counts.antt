-- ===== src/Socgen/Firmware/Counts.antt =====
-- socgen/firmware.py, `build_timer_demo`: what the loop and the handler leave in memory.
use risc_v_so_c.Base.{
  ℕ, zero, suc, ◌+◌, ◌*◌, ◌/◌, ◌%◌, ◌^◌, ◌≡◌, refl, ◌∙◌, ap, arith, ◌==◌, true, false,
  if◌then◌else◌, some, List, [], ◌∷◌, ◌++◌, replicate,
}
use risc_v_so_c.Base.Results.{ok, ◌>>=◌}
use risc_v_so_c.Socgen.Asm.Output.{assemble}
use risc_v_so_c.Socgen.Memmap.{ram}
use risc_v_so_c.Socgen.Rv32.{Registers}
use risc_v_so_c.Socgen.Rv32.Hart.{Access, load, store, Hart, reset, run, run-append}
use risc_v_so_c.Socgen.Firmware.{build_timer_demo, slot_main, slot_ticks}
use risc_v_so_c.Socgen.Firmware.Timer.{
  Event, instruction, interrupt, schedule, Place, clearing, counting, storing, jumping, following,
  address, rearm, handled, worked, reached, demanded, program, assembled,
}
use risc_v_so_c.Socgen.Firmware.Interrupts.{sets_up, events_run}

-- The values stored to an address, the newest first.
abbrev pub written : ℕ → List Access → List ℕ
written a [] = []
written a (load b ∷ rest) = written a rest
written a (store b v ∷ rest) = let older = written a rest in if b == a then v ∷ older else older

-- The numbers from `n` down to 1, as words of 32 bits.
abbrev pub counted : ℕ → List ℕ
counted zero = []
counted (suc n) = suc n % 2 ^ 32 ∷ counted n

abbrev pub slot : ℕ → ℕ
slot i = ram.base + i * 4

abbrev pub instructions : List Event → ℕ
instructions [] = 0
instructions (instruction ∷ es) = suc (instructions es)
instructions (interrupt ∷ es) = instructions es

abbrev pub interrupts : List Event → ℕ
interrupts [] = 0
interrupts (instruction ∷ es) = interrupts es
interrupts (interrupt ∷ es) = suc (interrupts es)

-- How many instructions lead to a place in round `c`.
abbrev index : Place → ℕ → ℕ
index clearing c = 3 * c
index counting c = 3 * c + 1
index storing c = 3 * c + 2
index jumping c = 3 * c

index-third : (p : Place) (c : ℕ) → index p c / 3 ≡ c
index-third clearing c = omega arith
index-third counting c = omega arith
index-third storing c = omega arith
index-third jumping c = omega arith

index-following : (p : Place) (c n : ℕ) → index (following p) (reached p c) + n ≡ index p c + suc n
index-following clearing c n = omega arith
index-following counting c n = omega arith
index-following storing c n = omega arith
index-following jumping c n = omega arith

module _ (bus : List Access → ℕ → ℕ) where
  worked-main :
      (p : Place) (c : ℕ) (done : List Access)
      → written (slot slot_main) done ≡ counted c
      → written (slot slot_main) (worked p c done) ≡ counted (reached p c)
  worked-main clearing c done h = h
  worked-main counting c done h = h
  worked-main storing c done h = ap (λ (l : List ℕ). suc c % 2 ^ 32 ∷ l) h
  worked-main jumping c done h = h

  worked-ticks :
      (p : Place) (c : ℕ) (done : List Access)
      → written (slot slot_ticks) (worked p c done) ≡ written (slot slot_ticks) done
  worked-ticks clearing c done = refl
  worked-ticks counting c done = refl
  worked-ticks storing c done = refl
  worked-ticks jumping c done = refl

  demanded-main :
      (es : List Event) (p : Place) (c t : ℕ) (done : List Access)
      → written (slot slot_main) done ≡ counted c
      → written (slot slot_main) (demanded bus p c t es done)
        ≡ counted ((index p c + instructions es) / 3)
  demanded-main [] p c t done h = h ∙ ap counted (omega (arith, index-third p c))
  demanded-main (instruction ∷ es) p c t done h =
      demanded-main es (following p) (reached p c) t (worked p c done) (worked-main p c done h)
      ∙ ap (λ (n : ℕ). counted (n / 3)) (index-following p c (instructions es))
  demanded-main (interrupt ∷ es) p c t done h =
      demanded-main es p c (suc t) (handled bus (address p) (suc t) done) h

  demanded-ticks :
      (es : List Event) (p : Place) (c t : ℕ) (done : List Access)
      → written (slot slot_ticks) done ≡ counted t
      → written (slot slot_ticks) (demanded bus p c t es done) ≡ counted (t + interrupts es)
  demanded-ticks [] p c t done h = h ∙ ap counted (omega arith)
  demanded-ticks (instruction ∷ es) p c t done h =
      demanded-ticks es (following p) (reached p c) t (worked p c done) (worked-ticks p c done ∙ h)
  demanded-ticks (interrupt ∷ es) p c t done h =
      demanded-ticks es p c (suc t) (handled bus (address p) (suc t) done)
        (ap (λ (l : List ℕ). suc t % 2 ^ 32 ∷ l) h)
      ∙ ap counted (omega arith)

  -- The words of `build_timer_demo`, run from address 0 with any values in the registers and any answers
  -- of the bus, never come to a word that the core does not know, wherever the timer interrupts them after
  -- the nineteen instructions of the set-up. Their accesses are those of `demanded`, in its order. The
  -- values stored to the loop's slot are 1, 2 and so on modulo 2 ^ 32, one for every three instructions of
  -- the main program, however often it was interrupted. Those stored to the handler's slot are 1, 2 and so
  -- on modulo 2 ^ 32, one for each interrupt.
  pub build_timer_demo-counted :
      (r : Registers) (es : List Event)
      → (words : List ℕ) × (h : Hart) × ((build_timer_demo >>= assemble) ≡ ok words)
        × (run bus words (replicate 19 true ++ schedule es) (reset r) ≡ some h)
        × (h.accesses ≡ demanded bus clearing 0 0 es (rearm bus []))
        × (written (slot slot_main) h.accesses ≡ counted (instructions es / 3))
        × (written (slot slot_ticks) h.accesses ≡ counted (interrupts es))
  build_timer_demo-counted r es =
      let begun = rearm bus [] in
      let (r', started, ready) = sets_up bus r in
      let (h, ran, seen) = events_run bus es clearing 0 0 r' false 0 0 begun refl ready in
      (
        program,
        h,
        assembled,
        run-append bus program (replicate 19 true) (schedule es) (reset r) started ran,
        seen,
        ap (written (slot slot_main)) seen
            ∙ demanded-main es clearing 0 0 begun refl
            ∙ ap (λ (n : ℕ). counted (n / 3)) (omega arith),
        ap (written (slot slot_ticks)) seen
            ∙ demanded-ticks es clearing 0 0 begun refl
            ∙ ap counted (omega arith),
      )
