-- ===== src/Nist/Patterns.antt =====
-- modules/trng/tools/nist_sts.py: `test_serial`, `test_approx_entropy` and `test_cumulative_sums`. A `none`
-- stands for an exception.
use risc_v_so_c.Base.{
  ℕ, zero, suc, ◌+◌, ◌*◌, ◌^◌, if◌then◌else◌, Option, some, List, [], ◌∷◌, length,
}
use risc_v_so_c.Base.Int.{ℤ, pos, negsuc, ◌+ℤ◌, ◌-ℤ◌, pos_part}
use risc_v_so_c.Base.Dict.{Dict}
use risc_v_so_c.Base.Options.{◌>>=◌}
use risc_v_so_c.Nist.{pattern_counts, max_walk}
use risc_v_so_c.Base.Floats.{Floats}
use risc_v_so_c.Nist.Gamma.{igamc}
use risc_v_so_c.Nist.Suite.{square_counts}

-- `n * z`.
unfoldable pub times : ℕ → ℤ → ℤ
times n (pos k) = pos (n * k)
times n (negsuc k) = pos 0 -ℤ pos (n * suc k)

module _ (F : Floats) where
  open F use {Float, of_int, add, sub, mul, div, sqrt, log, math_erfc, trunc, below}

  abbrev num : ℕ → Float
  num n = of_int (pos n)

  unfoldable pub psi_sq : List ℕ → ℕ → Option Float
  unfolding square_counts
  psi_sq bits m = do
    weight ← div (num (2 ^ m)) (num (length bits))
    some (sub (mul weight (num (square_counts (pattern_counts m bits)))) (num (length bits)))

  -- At `m = k + 3`; the default is 16.
  unfoldable pub test_serial : List ℕ → ℕ → Option (Float × Float)
  unfolding psi_sq
  test_serial bits k = do
    p2 ← psi_sq bits (k + 3)
    p1 ← psi_sq bits (k + 2)
    p0 ← psi_sq bits (k + 1)
    let dp = sub p2 p1
    let d2p = add (sub p2 (mul (num 2) p1)) p0
    x ← div dp (num 2)
    pval1 ← igamc F (num (2 ^ (k + 1))) x
    y ← div d2p (num 2)
    pval2 ← igamc F (num (2 ^ k)) y
    some (dp, if below pval2 pval1 then pval2 else pval1)

  -- The sum over the values of `cnt`, from `total` on.
  unfoldable pub entropy : Float → Dict (List ℕ) ℕ → Float → Option Float
  entropy n [] total = some total
  entropy n ((pat, v) ∷ counts) total = do
    share ← div (num v) n
    l ← log share
    entropy n counts (add total (mul share l))

  unfoldable pub phi : List ℕ → ℕ → Option Float
  unfolding entropy
  phi bits m = entropy (num (length bits)) (pattern_counts m bits) (num 0)

  -- At `m = k + 1`; the default is 10.
  unfoldable pub test_approx_entropy : List ℕ → ℕ → Option (Float × Float)
  unfolding phi
  test_approx_entropy bits k = do
    first ← phi bits (k + 1)
    second ← phi bits (k + 2)
    l ← log (num 2)
    let chi2 = mul (num (2 * length bits)) (sub l (sub first second))
    x ← div chi2 (num 2)
    pval ← igamc F (num (2 ^ k)) x
    some (chi2, pval)

  -- `math.erfc(((4*k+c)*z) / math.sqrt(n))`.
  unfoldable pub term : ℕ → ℕ → ℤ → ℕ → Option Float
  unfolding times
  term n z k c = do
    root ← sqrt (num n)
    x ← div (of_int (times z (times 4 k +ℤ pos c))) root
    some (math_erfc x)

  -- The sum of the differences of two terms, for `left` values of k.
  unfoldable pub terms : ℕ → ℕ → ℕ → ℤ → ℕ → ℕ → Float → Option Float
  unfolding term
  terms zero n z k c d total = some total
  terms (suc left) n z k c d total = do
    a ← term n z k c
    b ← term n z k d
    terms left n z (k +ℤ pos 1) c d (add total (sub a b))

  -- `int((x + y) / 4)`.
  abbrev quarter : Float → ℤ → Option ℤ
  quarter x y = do q ← div (add x (of_int y)) (num 4); trunc q

  -- The sum for k from `low` to `high`.
  unfoldable pub term_sum : ℕ → ℕ → ℤ → ℤ → ℕ → ℕ → Option Float
  unfolding terms
  term_sum n z low high c d = terms (pos_part ((high +ℤ pos 1) -ℤ low)) n z low c d (num 0)

  unfoldable pub test_cumulative_sums : List ℕ → Option (Float × Float)
  unfolding term_sum
  test_cumulative_sums bits = do
    let n = length bits
    let z = max_walk (pos 0) 0 bits
    below_zero ← div (of_int (pos 0 -ℤ pos n)) (num z)
    above_zero ← div (num n) (num z)
    low1 ← quarter below_zero (pos 1)
    high ← quarter above_zero (negsuc 0)
    sum1 ← term_sum n z low1 high 1 3
    low2 ← quarter below_zero (negsuc 2)
    sum2 ← term_sum n z low2 high 5 3
    let pval = add (sub (num 1) sum1) sum2
    let capped = if below pval (num 1) then pval else num 1
    some (num z, if below (num 0) capped then capped else num 0)
