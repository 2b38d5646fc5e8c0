-- ===== src/Socgen/Cli/Exits.antt =====
-- socgen/cli.py: `main` comes to an exit code.
use risc_v_so_c.Base.{
  ℕ, ◌≡◌, ◌≤◌, ◌⊎◌, inl, inr, refl, arith, false, Bool, List, [], ◌∷◌, map, ◌++◌,
}
use risc_v_so_c.Base.Text.{Text, codes}
use risc_v_so_c.Base.Results.{ok, ◌>>=◌, bind-ok}
use risc_v_so_c.Socgen.Memmap.Headers.{to_markdown, markdown_rows}
use risc_v_so_c.Socgen.Asm.Output.{write_hex}
use risc_v_so_c.Socgen.Toolchain
use risc_v_so_c.Socgen.Toolchain.{Bench, Outcome, Uncaught, lint}
use risc_v_so_c.Socgen.Cli.Stops.{Cause, EndsOrStops, bind-EndsOrStops, lint-EndsOrStops}
use risc_v_so_c.Socgen.Memmap.{overlaps}
use risc_v_so_c.Socgen.Cli.{SimArgs, selected, exit_code}
use risc_v_so_c.Socgen.Cli.Lint.{lint_all, cmd_lint}
use risc_v_so_c.Socgen.Cli.Sim.{Means, cmd_sim-Means}
use risc_v_so_c.Socgen.Cli.Ends.{firmware_assembles, hex_written, cmd_sim-EndsOrStops}
use risc_v_so_c.Socgen.Firmware.{build}
use risc_v_so_c.Socgen.Registry.{benches}
use risc_v_so_c.Socgen.Cli.Commands.{
  Command, modules_command, map_command, gen_command, lint_command, sim_command, Ending, exit,
  raises, main, cmd_modules, cmd_map, cmd_gen, generated,
}

-- An exit code that a command may end with.
abbrev pub Exits : ℕ → Ending → Type 0
Exits most e = (code : ℕ) × (e ≡ exit code) × (code ≤ most)

exit_code-most : (results : List Toolchain.Result) → exit_code results ≤ 2
exit_code-most results = ground arith

module _ (have : Text → Bool) (run : List Text → Text → Outcome) (modules build_dir : Text) where
  map-exits : main have run modules build_dir map_command ≡ exit 0
  unfolding main cmd_map to_markdown markdown_rows overlaps
  map-exits = refl

  cmd_gen-ok :
      (text : Text)
      → (build >>= write_hex) ≡ ok text
      → cmd_gen
        ≡ ok (
          0,
          generated text,
          [] ∷ map (λ (file : Text × Text). codes "  wrote " ++ file.0) (generated text) ++ [] ∷ [],
        )
  unfolding cmd_gen
  cmd_gen-ok text h = bind-ok (build >>= write_hex) _ h

  gen-exits : main have run modules build_dir gen_command ≡ exit 0
  unfolding main
  gen-exits =
      let (text, e) = hex_written build firmware_assembles.0 in rw (cmd_gen-ok text e, main) refl

  lint_all-EndsOrStops :
      (late : Type 0) (bs : List (Text × Bench))
      → late
      → EndsOrStops run late (lint_all have run modules build_dir bs)
  unfolding lint_all
  lint_all-EndsOrStops late [] slow = inl ([], refl)
  lint_all-EndsOrStops late ((m, b) ∷ bs) slow =
      let rest = lint_all-EndsOrStops late bs slow in
      bind-EndsOrStops run late (lint have run (codes "300") modules build_dir m b) _
        (lint-EndsOrStops run late have (codes "300") modules build_dir m b slow)
        (λ r.
          bind-EndsOrStops run late (lint_all have run modules build_dir bs) _ rest
            (λ rs. inl (r ∷ rs, refl)))

  -- `main` ends with an exit code of at most 2, or an exception stops it whose cause is a run.
  abbrev pub ExitsOrStops : Command → Type 0
  ExitsOrStops command =
      Exits 2 (main have run modules build_dir command)
      ⊎ ((u : Uncaught) × (line : List Text) × (cwd : Text) × (main have run modules build_dir
              command
            ≡ raises u)
          × Cause (command ≡ lint_command) u (run line cwd))

  lint-ExitsOrStops : ExitsOrStops lint_command
  unfolding main cmd_lint
  lint-ExitsOrStops =
      elim (lint_all-EndsOrStops (lint_command ≡ lint_command) (benches false) refl) [
        | inl (results, e) ↦
            inl (exit_code results, rw (e, main, cmd_lint) refl, exit_code-most results)
        | inr (u, line, cwd, e, cause) ↦ inr (u, line, cwd, rw (e, main, cmd_lint) refl, cause)
      ]

  Means-le :
      (bs : List (Text × Bench)) (code : ℕ) (results : List Toolchain.Result)
      → Means have run modules build_dir bs code results
      → code ≤ 2
  Means-le [] code results h = omega arith
  Means-le (b ∷ bs) code results (inl (_, h)) = omega arith
  Means-le (b ∷ bs) code results (inr (_, h)) = omega arith

  sim-ExitsOrStops : (args : SimArgs) → ExitsOrStops (sim_command args)
  unfolding main
  sim-ExitsOrStops args =
      elim (cmd_sim-EndsOrStops have run modules build_dir (sim_command args ≡ lint_command) args) [
        | inl ((code, results), e) ↦
            let (_, means) = cmd_sim-Means have run modules build_dir args code results e in
            inl (code, rw (e, main) refl, Means-le (selected args) code results means)
        | inr (u, line, cwd, e, cause) ↦ inr (u, line, cwd, rw (e, main) refl, cause)
      ]

  -- Where directories can be made and files written, `main` ends with an exit code of at most 2, or it ends
  -- with an exception of `subprocess.run` that is not caught: the TimeoutExpired of a run for `soc lint`, or
  -- another exception of a run.
  pub main-Exits : (command : Command) → ExitsOrStops command
  main-Exits modules_command = inl (0, unfold main cmd_modules in refl, omega arith)
  main-Exits map_command = inl (0, map-exits, omega arith)
  main-Exits gen_command = inl (0, gen-exits, omega arith)
  main-Exits (sim_command args) = sim-ExitsOrStops args
  main-Exits lint_command = lint-ExitsOrStops
