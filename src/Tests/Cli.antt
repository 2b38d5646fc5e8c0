-- ===== src/Tests/Cli.antt =====
-- The command line on small inputs, with no tool installed or with all of them.
use risc_v_so_c.Base.{◌≡◌, ◌⊎◌, refl, Bool, true, false, some, List, [], ◌∷◌, ◌++◌, get_elem?, All}
use risc_v_so_c.Base.Int.{pos}
use risc_v_so_c.Base.Text.{Text, codes, text_eq}
use risc_v_so_c.Base.Results.{ok}
use risc_v_so_c.Socgen.Toolchain.{
  Bench, Result, Outcome, completed, raised, other_error, tool_for, build_command, run_command,
  is_vhdl,
}
use risc_v_so_c.Socgen.Toolchain
use risc_v_so_c.Socgen.Toolchain.Passed.{Built, Passed}
use risc_v_so_c.Socgen.Registry.Manifest.{clint_module}
use risc_v_so_c.Socgen.Registry.SocBenches.{soc_bench}
use risc_v_so_c.Socgen.Registry.{benches}
use risc_v_so_c.Socgen.Cli.{
  SimArgs, selected, named_benches, is_member, is_skipped, cmd_sim, sim_benches, simulate_all,
  failures,
}
use risc_v_so_c.Socgen.Cli.Wrap.{wrap, split, spaced, Fits, wrap-words}
use risc_v_so_c.Socgen.Cli.Sim.{Simulated, Means, cmd_sim-Means, cmd_sim-Passed}
use risc_v_so_c.Socgen.Cli.Commands.{sim_command, main, raises}
use risc_v_so_c.Socgen.Cli.Exits.{ExitsOrStops, main-Exits}

abbrev nothing : Text → Bool
nothing tool = false

abbrev silent : List Text → Text → Outcome
silent command cwd = completed (pos 0) [] []

abbrev only_clint : SimArgs
only_clint = record { only = codes "clint" ∷ []; no_soc = true; timeout = codes "900" }

abbrev skipped_clint : Result
skipped_clint = record {
  bench = codes "clint:clint";
  ok = false;
  ran = false;
  skipped = codes "verilator is not installed";
  command = [];
  tail = [];
}

skips :
    cmd_sim nothing silent (codes "modules") (codes "build") only_clint ≡ ok (0, skipped_clint ∷ [])
unfolding cmd_sim sim_benches simulate_all selected named_benches is_member benches
    Toolchain.simulate failures text_eq
skips = refl

cmd_sim-Means_example :
    Simulated nothing silent
      (codes "modules")
      (codes "build")
      only_clint.timeout
      (selected only_clint)
      (skipped_clint ∷ [])
    × Means nothing silent
        (codes "modules")
        (codes "build")
        (selected only_clint)
        0
        (skipped_clint ∷ [])
cmd_sim-Means_example =
    cmd_sim-Means nothing silent (codes "modules") (codes "build") only_clint 0 (skipped_clint ∷ [])
      skips

-- A verilator that is there and cannot be started.
abbrev everything : Text → Bool
everything tool = true

abbrev broken : List Text → Text → Outcome
broken command cwd = raised (codes "FileNotFoundError")

main-Exits_example :
    ExitsOrStops everything broken (codes "modules") (codes "build") (sim_command only_clint)
main-Exits_example =
    main-Exits everything broken (codes "modules") (codes "build") (sim_command only_clint)

-- The exception is what the command ends with.
stops :
    main everything broken (codes "modules") (codes "build") (sim_command only_clint)
    ≡ raises (other_error (codes "FileNotFoundError"))
unfolding main cmd_sim sim_benches simulate_all selected named_benches is_member benches
    Toolchain.simulate Toolchain.prepare_in Toolchain.run_bench Toolchain.after_build text_eq
stops = refl

wrap-words_example :
    (split (spaced (wrap (codes "a bb  ccc") 4)) ≡ split (codes "a bb  ccc"))
    × All (Fits 4) (wrap (codes "a bb  ccc") 4)
wrap-words_example = wrap-words (codes "a bb  ccc") 4

abbrev first_of : Bench → List Bench → Bench
first_of b [] = b
first_of b (c ∷ cs) = c

abbrev clint_bench : Bench
clint_bench = first_of soc_bench clint_module.benches

clint_selected : get_elem? (selected only_clint) 0 ≡ some (codes "clint", clint_bench)
unfolding selected named_benches is_member benches text_eq
clint_selected = refl

-- Programs that succeed and print the marker of the bench.
abbrev marked : List Text → Text → Outcome
marked command cwd = completed (pos 0) clint_bench.expect []

abbrev passed_clint : Result
passed_clint = record {
  bench = codes "clint:clint";
  ok = true;
  ran = true;
  skipped = [];
  command = [];
  tail = clint_bench.expect ∷ [];
}

passes :
    cmd_sim everything marked (codes "modules") (codes "build") only_clint
    ≡ ok (0, passed_clint ∷ [])
unfolding cmd_sim sim_benches simulate_all selected named_benches is_member benches
    Toolchain.simulate Toolchain.prepare_in Toolchain.run_bench Toolchain.after_build
    Toolchain.finish Toolchain.is_in Toolchain.last_lines failures text_eq
passes = refl

cmd_sim-Passed_example :
    (r : Result) × (get_elem? (passed_clint ∷ []) 0 ≡ some r)
    × ((is_skipped r ≡ true)
        ⊎ ((everything (tool_for clint_bench.language) ≡ true)
            × Built (
                marked
                  (build_command everything marked
                    (codes "900")
                    (codes "modules")
                    (codes "build")
                    (codes "clint")
                    clint_bench)
                  (codes "modules" ++ codes "/" ++ codes "clint"))
            × Passed clint_bench r (
                marked
                  (run_command everything marked
                    (codes "900")
                    (codes "modules")
                    (codes "build")
                    (codes "clint")
                    clint_bench)
                  (codes "modules" ++ codes "/" ++ codes "clint"))))
cmd_sim-Passed_example =
    cmd_sim-Passed everything marked (codes "modules") (codes "build") only_clint
      (passed_clint ∷ []) 0 (codes "clint") clint_bench passes clint_selected
