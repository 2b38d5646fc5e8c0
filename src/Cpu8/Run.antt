-- ===== src/Cpu8/Run.antt =====
-- The states that `Sim(words)`, `reset` and `load` make, and where `run` ends.
use risc_v_so_c.Base.{
  ℕ, zero, suc, ◌+◌, ◌≤◌, ◌≡◌, refl, ◌∙◌, Bool, true, false, not, ◌&&◌, ltb, inl, inr, Bool-cases,
  ◌⊎◌, some, List, [], ◌∷◌, length, arith, length-replicate, All-replicate, max,
}
use risc_v_so_c.Base.Int.{ℤ}
use risc_v_so_c.Base.Dict.{Dict}
use risc_v_so_c.Base.Options.{Returns→some}
use risc_v_so_c.Cpu8.Machine.{Sim, words_from, init, reset, load}
use risc_v_so_c.Cpu8.Exec.{step, run_loop, run}
use risc_v_so_c.Cpu8.Valid.{IsByte, WellFormed, IsValid}
use risc_v_so_c.Cpu8.Valid.Step.{step-WellFormed}

pub length-words_from : (words : Dict ℤ ℕ) (i n : ℕ) → length (words_from words i n) ≡ n
unfolding words_from
length-words_from words i zero = refl
length-words_from words i (suc n) = omega (arith, length-words_from words (i + 1) n)

init-imem : (words : Dict ℤ ℕ) → length (init words).imem ≡ 256
unfolding init
init-imem [] = length-replicate {A = ℕ} 256 0
init-imem (w ∷ ws) = length-words_from (w ∷ ws) 0 256

-- A new simulator is well formed, whatever words it is given.
pub init-IsValid : (words : Dict ℤ ℕ) → IsValid (init words)
unfolding init
init-IsValid words = record {
  same_program = refl;
  at_cycle = refl;
  halt_flag = refl;
  imem_size = init-imem words;
  dmem_size = length-replicate {A = ℕ} 256 0;
  regs_size = length-replicate {A = ℕ} 8 0;
  dmem_bytes = All-replicate IsByte 256 0 (omega arith);
  regs_bytes = All-replicate IsByte 8 0 (omega arith);
  pc_byte = omega arith;
  sp_byte = omega arith;
  flag_bits = omega arith;
}

-- `load` and `reset` keep a simulator well formed.
pub reset-load-IsValid : (words : Dict ℤ ℕ) (s : Sim) → IsValid s → IsValid (reset (load words s))
unfolding reset load
reset-load-IsValid words s v = record {
  same_program = refl;
  at_cycle = refl;
  halt_flag = refl;
  imem_size = length-words_from words 0 256;
  dmem_size = v.dmem_size;
  regs_size = v.regs_size;
  dmem_bytes = v.dmem_bytes;
  regs_bytes = v.regs_bytes;
  pc_byte = omega arith;
  sp_byte = omega arith;
  flag_bits = omega arith;
}

pub WellFormed-IsValid : {p : List ℕ} {k : ℕ} {h : Bool} {s : Sim} → WellFormed p k h s → IsValid s
WellFormed-IsValid v = record {
  same_program = refl;
  at_cycle = refl;
  halt_flag = refl;
  imem_size = v.imem_size;
  dmem_size = v.dmem_size;
  regs_size = v.regs_size;
  dmem_bytes = v.dmem_bytes;
  regs_bytes = v.regs_bytes;
  pc_byte = v.pc_byte;
  sp_byte = v.sp_byte;
  flag_bits = v.flag_bits;
}

-- `run` may stop at `s'` when it began at `s`: the test of its loop is false there, the state is
-- well formed, the program is untouched, and no cycle above the limit was spent.
pub record Ends (max_cycles : ℕ) (s s' : Sim) : Type 0 where
  pub stops : (s'.halted ≡ true) ⊎ (max_cycles ≤ s'.cycles)
  pub valid : IsValid s'
  pub program_kept : s'.imem ≡ s.imem
  pub forward : s.cycles ≤ s'.cycles
  pub in_limit : s'.cycles ≤ max s.cycles max_cycles

pub stop_here :
    (f m : ℕ) (s : Sim)
    → IsValid s
    → (not s.halted && ltb s.cycles m) ≡ false
    → (run_loop (suc f) m s ≡ some (some s)) × Ends m s s
unfolding run_loop
stop_here f m s v e = (
  ground arith,
  record {
    stops = ground arith;
    valid = v;
    program_kept = refl;
    forward = omega arith;
    in_limit = omega arith;
  },
)

pub one_round :
    (f m : ℕ) (s s' : Sim) (b : Bool)
    → (not s.halted && ltb s.cycles m) ≡ true
    → step s ≡ some (b, s')
    → run_loop (suc f) m s ≡ run_loop f m s'
unfolding run_loop
one_round f m s s' b t e = rw (t, e) refl

run_loop-Ends :
    (f m : ℕ) (s : Sim)
    → IsValid s
    → m ≤ s.cycles + f
    → (s' : Sim) × (run_loop (suc f) m s ≡ some (some s')) × Ends m s s'
run_loop-Ends zero m s v enough = let here = stop_here 0 m s v (ground arith) in (s, here.0, here.1)
run_loop-Ends (suc f) m s v enough = elim (Bool-cases (not s.halted && ltb s.cycles m)) [
  | inr stop ↦ let here = stop_here (suc f) m s v stop in (s, here.0, here.1)
  | inl more ↦
      let ((b, s₁), e, w) = Returns→some _ (step s) (step-WellFormed s v (ground arith)) in
      let (s', r, n) = run_loop-Ends f m s₁ (WellFormed-IsValid w) (omega (arith, w.at_cycle)) in
      (
        s',
        one_round (suc f) m s s₁ b more e ∙ r,
        record {
          stops = n.stops;
          valid = n.valid;
          program_kept = n.program_kept ∙ w.same_program;
          forward = omega (arith, n.forward, w.at_cycle);
          in_limit = ground (arith, n.in_limit, w.at_cycle);
        },
      )
]

-- `run` on a well-formed simulator ends and raises no exception. It returns the cycle count of the
-- state that it leaves: halted or at the limit, well formed, with the program untouched, and with no
-- cycle spent above the limit.
pub run-Ends :
    (max_cycles : ℕ) (s : Sim)
    → IsValid s
    → (s' : Sim) × (run max_cycles s ≡ some (some (s'.cycles, s'))) × Ends max_cycles s s'
unfolding run
run-Ends m s v = let (s', e, n) = run_loop-Ends m m s v (omega arith) in (s', rw e refl, n)
