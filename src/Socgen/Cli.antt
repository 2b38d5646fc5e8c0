-- ===== src/Socgen/Cli.antt =====
-- socgen/cli.py: the commands. What `sim` and `lint` print has running times and is left out; they
-- return the exit code and the results that they print.
pub mod Wrap
pub mod Sim
pub mod Lint
pub mod Stops
pub mod Ends
pub mod Commands
pub mod Exits
use risc_v_so_c.Base.{
  ℕ, zero, suc, ◌+◌, ◌==◌, Bool, true, false, not, ◌&&◌, ◌||◌, if◌then◌else◌, Option, none, some,
  List, [], ◌∷◌, ◌++◌, length, map, leb, ltb, ◌/◌, replicate, ◌-◌,
}
use risc_v_so_c.Base.Text.{Text, codes, text_eq, join}
use risc_v_so_c.Base.Results
use risc_v_so_c.Base.Results.{ok, err, ◌>>=◌}
use risc_v_so_c.Socgen.Asm.{AsmError}
use risc_v_so_c.Socgen.Memmap.{Region, memory_map, overlaps}
use risc_v_so_c.Socgen.Memmap.Headers.{hex8, to_systemverilog, to_c}
use risc_v_so_c.Socgen.Toolchain.{Bench, Result, Outcome, Uncaught, simulate}
use risc_v_so_c.Socgen.Registry.{benches}

-- `item in items`.
unfoldable pub is_member : Text → List Text → Bool
is_member item [] = false
is_member item (i ∷ is) = text_eq i item || is_member item is

-- The arguments of `soc sim`; no `--only` at all is an empty list.
pub record SimArgs : Type 0 where
  pub only : List Text
  pub no_soc : Bool
  pub timeout : Text

-- The benches of a module that is named, and the benches that are named themselves.
unfoldable pub named_benches : List Text → List (Text × Bench) → List (Text × Bench)
unfolding is_member
named_benches only [] = []
named_benches only ((m, b) ∷ rest) =
    let kept = named_benches only rest in
    if is_member m only || is_member b.name only then (m, b) ∷ kept else kept

unfoldable pub selected : SimArgs → List (Text × Bench)
unfolding named_benches
selected args = elim args.only [
  | [] ↦ benches (not args.no_soc)
  | o ∷ os ↦ named_benches (o ∷ os) (benches (not args.no_soc))
]

-- `result.skipped` as a test.
abbrev pub is_skipped : Result → Bool
is_skipped r = elim r.skipped [ [] ↦ false | c ∷ cs ↦ true ]

abbrev pub failed : Result → Bool
failed r = not (is_skipped r) && not r.ok

unfoldable pub failures : List Result → ℕ
failures [] = 0
failures (r ∷ rs) = if failed r then suc (failures rs) else failures rs

abbrev pub exit_code : List Result → ℕ
exit_code results = if failures results == 0 then 0 else 1

module _ (have : Text → Bool) (run : List Text → Text → Outcome) (modules build_dir : Text) where
  -- The loop of `_cmd_sim`; `err` is an exception of a bench that `simulate` does not catch.
  unfoldable pub simulate_all : Text → List (Text × Bench) → Results.Result Uncaught (List Result)
  simulate_all seconds [] = ok []
  simulate_all seconds ((m, b) ∷ rest) = do
    result ← simulate have run seconds modules build_dir m b
    results ← simulate_all seconds rest
    ok (result ∷ results)

  -- `_cmd_sim`, from the test on the selection on.
  unfoldable pub sim_benches :
      Text → List (Text × Bench) → Results.Result Uncaught (ℕ × List Result)
  sim_benches seconds [] = ok (2, [])
  sim_benches seconds (bench ∷ rest) = do
    results ← simulate_all seconds (bench ∷ rest)
    ok (exit_code results, results)

  -- `_cmd_sim`.
  unfoldable pub cmd_sim : SimArgs → Results.Result Uncaught (ℕ × List Result)
  cmd_sim args = sim_benches args.timeout (selected args)
