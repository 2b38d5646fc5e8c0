-- ===== src/Socgen/Cli/Lint.antt =====
-- socgen/cli.py: `_cmd_lint`. `err` is an exception of a program's run, which is not caught.
use risc_v_so_c.Base.{ℕ, Bool, false, List, [], ◌∷◌}
use risc_v_so_c.Base.Text.{Text, codes}
use risc_v_so_c.Base.Results
use risc_v_so_c.Base.Results.{ok, ◌>>=◌}
use risc_v_so_c.Socgen.Toolchain.{Bench, Result, Outcome, Uncaught, lint}
use risc_v_so_c.Socgen.Registry.{benches}
use risc_v_so_c.Socgen.Cli.{exit_code}

module _ (have : Text → Bool) (run : List Text → Text → Outcome) (modules build_dir : Text) where
  unfoldable pub lint_all : List (Text × Bench) → Results.Result Uncaught (List Result)
  lint_all [] = ok []
  lint_all ((m, b) ∷ rest) = do
    result ← lint have run (codes "300") modules build_dir m b
    results ← lint_all rest
    ok (result ∷ results)

  unfoldable pub cmd_lint : Results.Result Uncaught (ℕ × List Result)
  cmd_lint = do results ← lint_all (benches false); ok (exit_code results, results)
