-- ===== src/Nist/Suite.antt =====
-- modules/trng/tools/nist_sts.py: the statistics and p-values of the nine tests that `run_all` runs, and
-- its verdicts. A `none` stands for an exception.
use risc_v_so_c.Base.{
  ℕ, ◌+◌, ◌-◌, ◌*◌, ◌/◌, ◌^◌, ltb, ◌==◌, if◌then◌else◌, Option, none, some, List, [], ◌∷◌, length,
}
use risc_v_so_c.Base.Int.{pos, ◌-ℤ◌}
use risc_v_so_c.Base.Dict.{Dict}
use risc_v_so_c.Base.Options.{◌>>=◌}
use risc_v_so_c.Nist.{sum, blocks, balance, changes, magnitude, run_table, longest_run_freqs}
use risc_v_so_c.Nist.Rank.{matrix_rank}
use risc_v_so_c.Nist.Template.{template_counts, block_size}
use risc_v_so_c.Base.Floats.{Floats}
use risc_v_so_c.Nist.Gamma.{erfc, igamc}

-- `[[blk[i*Q + j] for j in range(Q)] for i in range(M)]`.
unfoldable pub matrix_of : ℕ → ℕ → List ℕ → List (List ℕ)
unfolding blocks
matrix_of M Q blk = blocks M Q blk

-- `f_M`, `f_M1` and `other`.
unfoldable pub rank_classes : ℕ → ℕ → List (List ℕ) → Option (ℕ × ℕ × ℕ)
unfolding matrix_of
rank_classes M Q [] = some (0, 0, 0)
rank_classes M Q (blk ∷ rest) = do
  r ← matrix_rank (matrix_of M Q blk) M Q
  counts ← rank_classes M Q rest
  some (
      if r == M
      then (counts.0 + 1, counts.1, counts.2)
      else if r + 1 == M
      then (counts.0, counts.1 + 1, counts.2)
      else (counts.0, counts.1, counts.2 + 1))

-- The sum of the squares of the counts.
unfoldable pub square_counts : Dict (List ℕ) ℕ → ℕ
square_counts [] = 0
square_counts ((pat, v) ∷ counts) = v * v + square_counts counts

module _ (F : Floats) where
  open F use {
    Float, of_int, decimal, add, sub, mul, square, div, abs, sqrt, exp, log, math_erfc, trunc,
    below, at_most,
  }

  abbrev num : ℕ → Float
  num n = of_int (pos n)

  unfoldable pub test_frequency : List ℕ → Option (Float × Float)
  test_frequency bits = do
    root ← sqrt (num (length bits))
    stat ← div (num (magnitude (balance bits))) root
    two ← sqrt (num 2)
    x ← div stat two
    pval ← erfc F x
    some (stat, pval)

  -- The sum over the blocks, from `chi2` on.
  unfoldable pub block_chi2 : ℕ → List (List ℕ) → Float → Option Float
  block_chi2 M [] chi2 = some chi2
  block_chi2 M (block ∷ rest) chi2 = do
    pi ← div (num (sum block)) (num M)
    block_chi2 M rest (add chi2 (square (sub pi (decimal 5 1))))

  unfoldable pub test_block_frequency : List ℕ → ℕ → Option (Float × Float)
  unfolding block_chi2 blocks
  test_block_frequency bits M = if M == 0 then none else (do
    let N = length bits / M
    total ← block_chi2 M (blocks N M bits) (num 0)
    let chi2 = mul total (num (4 * M))
    a ← div (num N) (num 2)
    x ← div chi2 (num 2)
    pval ← igamc F a x
    some (chi2, pval))

  unfoldable pub test_runs : List ℕ → Option (Float × Float)
  test_runs bits = do
    let n = num (length bits)
    pi ← div (num (sum bits)) n
    root ← sqrt n
    limit ← div (num 2) root
    if at_most limit (abs (sub pi (decimal 5 1))) then some (num 0, num 0) else (do
      let vn = num (1 + changes bits)
      let other = sub (num 1) pi
      wide ← sqrt (mul (num 2) n)
      stat ←
          div (abs (sub vn (mul (mul (mul (num 2) n) pi) other)))
            (mul (mul (mul (num 2) wide) pi) other)
      pval ← erfc F stat
      some (stat, pval))

  -- The sum over the classes, from `chi2` on; the probabilities are ten-thousandths.
  unfoldable pub class_chi2 : ℕ → List ℕ → List ℕ → Float → Option Float
  class_chi2 N (f ∷ fs) (p ∷ ps) chi2 = do
    let expected = mul (num N) (decimal p 4)
    term ← div (square (sub (num f) expected)) expected
    class_chi2 N fs ps (add chi2 term)
  class_chi2 N _ _ chi2 = some chi2

  unfoldable pub test_longest_run : List ℕ → Option (Float × Float)
  unfolding class_chi2
  test_longest_run bits = if ltb (length bits) 128 then some (num 0, decimal 5 1) else (do
    let t = run_table (length bits)
    freqs ← longest_run_freqs bits
    chi2 ← class_chi2 t.count freqs t.probabilities (num 0)
    a ← div (num (length t.probabilities - 1)) (num 2)
    x ← div chi2 (num 2)
    pval ← igamc F a x
    some (chi2, pval))

  unfoldable pub test_matrix_rank : List ℕ → ℕ → ℕ → Option (Float × Float)
  unfolding rank_classes blocks
  test_matrix_rank bits M Q =
      if M * Q == 0
      then none
      else if length bits / (M * Q) == 0
      then some (num 0, decimal 5 1)
      else (do
        let N = length bits / (M * Q)
        counts ← rank_classes M Q (blocks N (M * Q) bits)
        let p1 = decimal 2888 4
        let p2 = decimal 5776 4
        let p3 = sub (sub (num 1) p1) p2
        x ← div (square (sub (num counts.0) (mul p1 (num N)))) (mul p1 (num N))
        y ← div (square (sub (num counts.1) (mul p2 (num N)))) (mul p2 (num N))
        z ← div (square (sub (num counts.2) (mul p3 (num N)))) (mul p3 (num N))
        let chi2 = add (add x y) z
        half ← div (sub (num 0) chi2) (num 2)
        pval ← exp half
        some (chi2, pval))

  -- The sum over the blocks, from `chi2` on.
  unfoldable pub count_chi2 : Float → Float → List ℕ → Float → Option Float
  count_chi2 mu sigma2 [] chi2 = some chi2
  count_chi2 mu sigma2 (w ∷ ws) chi2 = do
    term ← div (square (sub (num w) mu)) sigma2
    count_chi2 mu sigma2 ws (add chi2 term)

  unfoldable pub test_non_overlapping_template : List ℕ → List ℕ → Option (Float × Float)
  unfolding count_chi2
  test_non_overlapping_template bits template = do
    let m = length template
    mu ← div (of_int (pos (block_size + 1) -ℤ pos m)) (num (2 ^ m))
    first ← div (num 1) (num (2 ^ m))
    second ← div (of_int (pos (2 * m) -ℤ pos 1)) (num (2 ^ (2 * m)))
    let sigma2 = mul (num block_size) (sub first second)
    w ← template_counts template bits
    chi2 ← count_chi2 mu sigma2 w (num 0)
    a ← div (num (length bits / block_size)) (num 2)
    x ← div chi2 (num 2)
    pval ← igamc F a x
    some (chi2, pval)
