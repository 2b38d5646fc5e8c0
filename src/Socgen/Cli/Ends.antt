-- ===== src/Socgen/Cli/Ends.antt =====
-- socgen/cli.py with socgen/registry.py and socgen/firmware.py: every program that a bench prepares
-- can be assembled, so that no exception of the assembler stops `soc sim`.
use risc_v_so_c.Base.{
  ℕ, ◌≡◌, refl, Bool, Bool-cases, true, false, not, ◌&&◌, ◌||◌, inl, inr, none, some, List, [], ◌∷◌,
  ◌++◌, All, All-append,
}
use risc_v_so_c.Base.Text.{Text, codes, text_eq}
use risc_v_so_c.Base.Dict.{get, put, contains}
use risc_v_so_c.Base.Results.{Result, ok, err, ◌>>=◌}
use risc_v_so_c.Socgen.Asm
use risc_v_so_c.Socgen.Asm.{AsmError}
use risc_v_so_c.Socgen.Asm.Output.{assemble, resolve_entries, resolve_entry, write_hex, hex_text}
use risc_v_so_c.Socgen.Firmware.{Chain, build, build_timer_demo}
use risc_v_so_c.Socgen.Registry.Programs.{write_program, write_firmware, write_timer_demo}
use risc_v_so_c.Socgen.Toolchain
use risc_v_so_c.Socgen.Toolchain.{Bench, Outcome, prepare_in, prepared, simulate, Preparation}
use risc_v_so_c.Socgen.Cli.Stops.{
  EndsOrStops, if-EndsOrStops, bind-EndsOrStops, run_bench-EndsOrStops,
}
use risc_v_so_c.Socgen.Registry.{benches, benches_of}
use risc_v_so_c.Socgen.Registry.Manifest.{manifest}
use risc_v_so_c.Socgen.Registry.SocBenches.{soc_bench, traps_bench}
use risc_v_so_c.Socgen.Cli.{
  SimArgs, selected, named_benches, is_member, simulate_all, sim_benches, cmd_sim, exit_code,
}

abbrev pub assembles : Chain → Bool
assembles program = elim (program >>= assemble) [ ok ws ↦ true | err e ↦ false ]

pub firmware_assembles : (assembles build ≡ true) × (assembles build_timer_demo ≡ true)
unfolding build build_timer_demo assemble resolve_entries resolve_entry get put contains text_eq
    Asm.li Asm.li_parts Asm.lui Asm.addi Asm.i_type Asm.i_word Asm.check_imm Asm.reg Asm.emit Asm.sw
    Asm.s_type Asm.s_word Asm.nop Asm.label Asm.lw Asm.beq Asm.b_type Asm.b_word Asm.csrr Asm.csrw
    Asm.csrrsi Asm.mret Asm.csrrw Asm.csrrs Asm.system
firmware_assembles = (refl, refl)

words_of_ok :
    (r : Result AsmError (List ℕ))
    → (elim r [ ok ws ↦ true | err e ↦ false ]) ≡ true
    → (ws : List ℕ) × (r ≡ ok ws)
words_of_ok (ok ws) h = (ws, refl)
words_of_ok (err e) h = cc h

pub hex_written :
    (program : Chain)
    → assembles program ≡ true
    → (text : Text) × ((program >>= write_hex) ≡ ok text)
hex_written (err e) h = cc h
hex_written (ok a) h =
    let (ws, e) = words_of_ok (assemble a) h in (hex_text ws, unfold write_hex in rw e refl)

written :
    (program : Chain) (cwd : Text)
    → assembles program ≡ true
    → (file : Text × Text) × (write_program program cwd ≡ ok file)
unfolding write_program
written program cwd h =
    let (text, e) = hex_written program h in ((cwd ++ codes "/program.hex", text), rw e refl)

-- What a bench prepares is written, in any directory.
abbrev Ready : Text × Bench → Type 0
Ready (m, b) = (cwd : Text) → prepare_in cwd b ≡ ok tt

unprepared-Ready : (m : Text) (b : Bench) → b.prepare ≡ none → Ready (m, b)
unfolding prepare_in
unprepared-Ready m b h cwd = rw h refl

prepared-Ready :
    (m : Text) (b : Bench) (program : Chain)
    → b.prepare ≡ some (write_program program)
    → assembles program ≡ true
    → Ready (m, b)
unfolding prepare_in prepared
prepared-Ready m b program h good cwd = let (file, e) = written program cwd good in rw (h, e) refl

modules-Ready : All Ready (benches_of manifest)
unfolding benches_of prepare_in
modules-Ready = (
  λ cwd. refl,
  (
    λ cwd. refl,
    (
      λ cwd. refl,
      (λ cwd. refl, (λ cwd. refl, (λ cwd. refl, (λ cwd. refl, (λ cwd. refl, (λ cwd. refl, tt)))))),
    ),
  ),
)

abbrev soc_benches : List (Text × Bench)
soc_benches = (codes "core", soc_bench) ∷ (codes "core", traps_bench) ∷ []

soc-Ready : All Ready soc_benches
soc-Ready = (
  prepared-Ready (codes "core") soc_bench build (unfold write_firmware in refl)
      firmware_assembles.0,
  (
    prepared-Ready (codes "core") traps_bench build_timer_demo (unfold write_timer_demo in refl)
        firmware_assembles.1,
    tt,
  ),
)

benches-Ready : (include_soc : Bool) → All Ready (benches include_soc)
unfolding benches
benches-Ready false = modules-Ready
benches-Ready true = All-append Ready (benches_of manifest) soc_benches modules-Ready soc-Ready

named_benches-Ready :
    (only : List Text) (bs : List (Text × Bench)) → All Ready bs → All Ready (named_benches only bs)
unfolding named_benches
named_benches-Ready only [] h = tt
named_benches-Ready only ((m, b) ∷ bs) (p, h) =
    elim (Bool-cases (is_member m only || is_member b.name only)) [
      | inl chosen ↦ rw (chosen, All, named_benches) (p, named_benches-Ready only bs h)
      | inr other ↦ rw (other, All, named_benches) (named_benches-Ready only bs h)
    ]

selected-Ready : (args : SimArgs) → All Ready (selected args)
unfolding selected
selected-Ready args = chosen args.only
  where
    chosen :
        (only : List Text)
        → All Ready (elim only [
          | [] ↦ benches (not args.no_soc)
          | o ∷ os ↦ named_benches (o ∷ os) (benches (not args.no_soc))
        ])
    chosen [] = benches-Ready (not args.no_soc)
    chosen (o ∷ os) =
        named_benches-Ready (o ∷ os) (benches (not args.no_soc)) (benches-Ready (not args.no_soc))

module _ (have : Text → Bool) (run : List Text → Text → Outcome) (modules build_dir : Text)
    (late : Type 0) where
  simulate-EndsOrStops :
      (seconds m : Text) (b : Bench)
      → Ready (m, b)
      → EndsOrStops run late (simulate have run seconds modules build_dir m b)
  unfolding simulate
  simulate-EndsOrStops seconds m b ready =
      let cwd = modules ++ codes "/" ++ m in
      let r = Toolchain.fresh (m ++ codes ":" ++ b.name) in
      let tool = Toolchain.tool_for b.language in
      let ran = run_bench-EndsOrStops run late have seconds modules build_dir m b r in
      if-EndsOrStops run late (not (have tool))
        (ok (record r { skipped = tool ++ codes " is not installed" })) _ (inl (_, refl))
        (if-EndsOrStops run late (Toolchain.is_verilog b.language && not (have (codes "vvp")))
          (ok (record r { skipped = codes "vvp is not installed" })) _ (inl (_, refl))
          (bind-EndsOrStops run late (prepare_in cwd b) _ (inl (tt, ready cwd)) (λ _. ran)))

  simulate_all-EndsOrStops :
      (seconds : Text) (bs : List (Text × Bench))
      → All Ready bs
      → EndsOrStops run late (simulate_all have run modules build_dir seconds bs)
  unfolding simulate_all
  simulate_all-EndsOrStops seconds [] h = inl ([], refl)
  simulate_all-EndsOrStops seconds ((m, b) ∷ bs) (p, h) =
      let rest = simulate_all-EndsOrStops seconds bs h in
      bind-EndsOrStops run late (simulate have run seconds modules build_dir m b) _
        (simulate-EndsOrStops seconds m b p)
        (λ r.
          bind-EndsOrStops run late (simulate_all have run modules build_dir seconds bs) _ rest
            (λ rs. inl (r ∷ rs, refl)))

  sim_benches-EndsOrStops :
      (seconds : Text) (bs : List (Text × Bench))
      → All Ready bs
      → EndsOrStops run late (sim_benches have run modules build_dir seconds bs)
  unfolding sim_benches
  sim_benches-EndsOrStops seconds [] h = inl ((2, []), refl)
  sim_benches-EndsOrStops seconds (b ∷ bs) h =
      bind-EndsOrStops run late (simulate_all have run modules build_dir seconds (b ∷ bs)) _
        (simulate_all-EndsOrStops seconds (b ∷ bs) h) (λ rs. inl ((exit_code rs, rs), refl))

  -- `soc sim` comes to an exit code, or an exception of a program's run stops it: the programs that its
  -- benches prepare can be assembled.
  pub cmd_sim-EndsOrStops :
      (args : SimArgs) → EndsOrStops run late (cmd_sim have run modules build_dir args)
  unfolding cmd_sim
  cmd_sim-EndsOrStops args =
      sim_benches-EndsOrStops args.timeout (selected args) (selected-Ready args)
