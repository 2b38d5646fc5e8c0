-- ===== src/Nist/Report.antt =====
-- modules/trng/tools/nist_sts.py: `run_all` and `main`, without what they print. A `none` stands for an exception.
use risc_v_so_c.Base.{
  ℕ, suc, ◌+◌, ◌/◌, Bool, ltb, if◌then◌else◌, Option, some, List, [], ◌∷◌, length, take,
}
use risc_v_so_c.Base.Text.{Text, codes}
use risc_v_so_c.Base.Options.{◌>>=◌}
use risc_v_so_c.Base.Floats.{Floats}
use risc_v_so_c.Nist.{bytes_to_bits}
use risc_v_so_c.Nist.Template.{default_template}
use risc_v_so_c.Nist.Suite.{
  test_frequency, test_block_frequency, test_runs, test_longest_run, test_matrix_rank,
  test_non_overlapping_template,
}
use risc_v_so_c.Nist.Patterns.{test_serial, test_approx_entropy, test_cumulative_sums}

module _ (F : Floats) where
  open F use {Float, decimal, at_most}

  -- The tests, in the order of their reports.
  unfoldable pub suite : List ℕ → List (Text × Option (Float × Float))
  suite bits =
      (codes "Frequency (Monobit)", test_frequency F bits)
      ∷ (codes "Block Frequency (M=128)", test_block_frequency F bits 128)
      ∷ (codes "Runs", test_runs F bits)
      ∷ (codes "Longest Run of Ones", test_longest_run F bits)
      ∷ (codes "Binary Matrix Rank", test_matrix_rank F bits 32 32)
      ∷ (
        codes "Non-overlapping Template (10-bit)",
        test_non_overlapping_template F bits default_template,
      )
      ∷ (codes "Serial (m=16)", test_serial F bits 13)
      ∷ (codes "Approximate Entropy (m=10)", test_approx_entropy F bits 9)
      ∷ (codes "Cumulative Sums", test_cumulative_sums F bits)
      ∷ []

  -- A name, a statistic, a p-value and whether the verdict is PASS.
  abbrev pub Report : Type 0
  Report = Text × Float × Float × Bool

  -- `run` on each test.
  unfoldable pub reports : List (Text × Option (Float × Float)) → Option (List Report)
  reports [] = some []
  reports ((name, test) ∷ tests) = do
    result ← test
    rest ← reports tests
    some ((name, result.0, result.1, at_most (decimal 1 2) result.1) ∷ rest)

  unfoldable pub passed : List Report → ℕ
  passed [] = 0
  passed ((name, stat, pval, verdict) ∷ rest) = if verdict then suc (passed rest) else passed rest

  -- `results`, `passed` and `total`.
  unfoldable pub run_all : List ℕ → Option (List Report × ℕ × ℕ)
  unfolding suite reports passed
  run_all bits = do results ← reports (suite bits); some (results, passed results, length results)

  -- `main`: the source gives at most the bytes that it is asked for. The first part says whether the
  -- warning about missing bits is printed.
  unfoldable pub main : (ℕ → List ℕ) → ℕ → Option (Bool × List Report × ℕ × ℕ)
  unfolding bytes_to_bits run_all
  main read n_bits = do
    let n_bytes = (n_bits + 7) / 8
    let raw = read n_bytes
    (results, good, total) ← run_all (take n_bits (bytes_to_bits raw))
    some (ltb (length raw) n_bytes, results, good, total)
