-- ===== src/Cpu8/Trace/Rows.antt =====
-- The lines that a traced run of modules/cpu8/sim/sim.py prints.
use risc_v_so_c.Base.{
  ℕ, zero, suc, ◌+◌, ◌≤◌, ◌<◌, ◌≡◌, refl, sym, ap, ◌∙◌, arith, Bool, Bool-cases, true, false, not,
  ◌&&◌, ltb, Option, none, inl, inr, ◌==◌, low, some, List, [], ◌∷◌, length, get_elem?-All, All-any,
  if◌then◌else◌,
}
use risc_v_so_c.Base.Text.{Text}
use risc_v_so_c.Base.Options.{◌>>=◌, bind-eq, Returns→some, some-injective}
use risc_v_so_c.Cpu8.Machine.{Sim, reg_read}
use risc_v_so_c.Cpu8.Exec.{fields, step, run_loop, run}
use risc_v_so_c.Cpu8.Valid.{IsValid, fields-AreFields}
use risc_v_so_c.Cpu8.Valid.Step.{step-WellFormed}
use risc_v_so_c.Cpu8.Run.{WellFormed-IsValid, one_round, stop_here}
use risc_v_so_c.Cpu8.Trace.{trace_row, trace_loop, trace_rows}

pub reg_read-some : (s : Sim) (i : ℕ) → IsValid s → i < 8 → (v : ℕ) × (reg_read s i ≡ some v)
unfolding reg_read
reg_read-some s i valid h = elim (Bool-cases (i == 0)) [
  | inl zeroth ↦ (0, rw zeroth refl)
  | inr other ↦
      let (v, e, _) =
        get_elem?-All (λ _. Unit {0}) s.regs i (All-any s.regs) (omega (arith, valid.regs_size)) in
      (low 8 v, rw (other, e) refl)
]

trace_row-some : (s : Sim) → IsValid s → (row : Text) × (trace_row s ≡ some row)
unfolding trace_row
trace_row-some s valid =
    let (w, e, _) =
      get_elem?-All (λ _. Unit {0}) s.imem s.pc (All-any s.imem)
        (omega (arith, valid.imem_size, valid.pc_byte)) in
    let f = fields-AreFields w in
    let (a, ea) = reg_read-some s (fields w).rs1 valid f.rs1_small in
    let (b, eb) = reg_read-some s (fields w).rs2 valid f.rs2_small in
    let (d, ed) = reg_read-some s (fields w).rd valid f.rd_small in
    (_, bind-eq _ _ e ∙ (bind-eq _ _ ea ∙ (bind-eq _ _ eb ∙ bind-eq _ _ ed)))

no_rows :
    (f m : ℕ) (s s' : Sim)
    → IsValid s
    → (not s.halted && ltb s.cycles m) ≡ false
    → run_loop (suc f) m s ≡ some (some s')
    → (rows : List Text) × (trace_loop (suc f) m s ≡ some rows)
      × (s.cycles + length rows ≡ s'.cycles)
unfolding trace_loop
no_rows f m s s' v stop ran =
    let here = stop_here f m s v stop in
    let same = some-injective (some-injective (sym here.0 ∙ ran)) in
    ([], rw stop refl, omega (arith, ap (λ (x : Sim). x.cycles) same))

one_row :
    (f m : ℕ) (s s₁ : Sim) (b : Bool) (row : Text) (rows : List Text)
    → (not s.halted && ltb s.cycles m) ≡ true
    → trace_row s ≡ some row
    → step s ≡ some (b, s₁)
    → trace_loop f m s₁ ≡ some rows
    → trace_loop (suc f) m s ≡ some (row ∷ rows)
unfolding trace_loop
one_row f m s s₁ b row rows more printed e later =
    rw more (bind-eq _ _ printed ∙ (bind-eq _ _ e ∙ bind-eq _ _ later))

-- What `run` returns of the state that its loop leaves.
abbrev returned : Sim → Option (ℕ × Sim)
returned s = some (s.cycles, s)

left_state :
    (x : Option (Option Sim)) (s' : Sim)
    → (x >>= λ r. some (r >>= returned)) ≡ some (some (s'.cycles, s'))
    → x ≡ some (some s')
left_state none s' e = cc
left_state (some none) s' e = cc
left_state (some (some s'')) s' e =
    let same : s'' ≡ s' = ap (λ (p : ℕ × Sim). p.1) (some-injective (some-injective e)) in
    ap (λ (x : Sim). some (some x)) same

-- A run that ends has printed a line for every cycle that it has spent.
trace_loop-rows :
    (f m : ℕ) (s s' : Sim)
    → IsValid s
    → m ≤ s.cycles + f
    → run_loop (suc f) m s ≡ some (some s')
    → (rows : List Text) × (trace_loop (suc f) m s ≡ some rows)
      × (s.cycles + length rows ≡ s'.cycles)
trace_loop-rows zero m s s' v enough ran = no_rows zero m s s' v (ground arith) ran
trace_loop-rows (suc f) m s s' v enough ran = elim (Bool-cases (not s.halted && ltb s.cycles m)) [
  | inr stop ↦ no_rows (suc f) m s s' v stop ran
  | inl more ↦
      let ((b, s₁), e, w) = Returns→some _ (step s) (step-WellFormed s v (ground arith)) in
      let (row, printed) = trace_row-some s v in
      let (rows, later, long) =
        trace_loop-rows f m s₁ s' (WellFormed-IsValid w) (omega (arith, w.at_cycle))
          (sym (one_round (suc f) m s s₁ b more e) ∙ ran) in
      (
        row ∷ rows,
        one_row (suc f) m s s₁ b row rows more printed e later,
        omega (arith, long, w.at_cycle),
      )
]

pub trace_rows-cycles :
    (traces : Bool) (m : ℕ) (s s' : Sim)
    → IsValid s
    → run m s ≡ some (some (s'.cycles, s'))
    → (rows : List Text) × (trace_rows traces m s ≡ some rows)
      × (s.cycles + length rows ≡ (if traces then s'.cycles else s.cycles))
unfolding trace_rows
trace_rows-cycles false m s s' v ran = ([], refl, omega arith)
trace_rows-cycles true m s s' v ran =
    trace_loop-rows m m s s' v (omega arith) (left_state _ s' (unfold run in ran))
