-- ===== src/Nist/Gamma.antt =====
-- modules/trng/tools/nist_sts.py: `erfc`, `igamc` and `chi2_pvalue`, over any floating-point numbers. A
-- `none` stands for an arithmetic exception.
use risc_v_so_c.Base.{ℕ, zero, suc, ◌+◌, true, false, ◌||◌, if◌then◌else◌, Option, some}
use risc_v_so_c.Base.Int.{ℤ, pos, negsuc}
use risc_v_so_c.Base.Options.{◌>>=◌}
use risc_v_so_c.Base.Floats.{Floats}

module _ (F : Floats) where
  open F use {Float, of_int, decimal, add, sub, mul, div, abs, exp, log, lgamma, below, at_most}

  abbrev pub number : ℕ → Float
  number n = of_int (pos n)

  -- `-x`.
  abbrev pub negative : Float → Float
  negative x = sub (number 0) x

  unfoldable pub erfc : Float → Option Float
  erfc x = do
    t ← div (number 1) (add (number 1) (mul (decimal 47047 5) (abs x)))
    e ← exp (negative (mul x x))
    let poly = mul t (
        add (decimal 3480242 7)
          (mul t (add (negative (decimal 958798 7)) (mul t (decimal 7478556 7)))))
    let res = sub (number 1) (mul poly e)
    some (if at_most (number 0) x then res else sub (number 2) res)

  -- `math.exp(-x + a * math.log(x) - math.lgamma(a))`.
  unfoldable pub scale : Float → Float → Option Float
  scale a x = do l ← log x; g ← lgamma a; exp (sub (add (negative x) (mul a l)) g)

  -- The loop of the series, `left` rounds.
  unfoldable pub series : ℕ → Float → Float → Float → Float → Option Float
  series zero x ap dif val = some val
  series (suc left) x ap dif val =
      let ap' = add ap (number 1) in
      div x ap' >>= λ q.
      let dif' = mul dif q in
      let val' = add val dif' in
      elim (below (abs dif') (mul (abs val') (decimal 1 10))) [
        | true ↦ some val'
        | false ↦ series left x ap' dif' val'
      ]

  -- `if abs(v) < 1e-300: v = 1e-300`.
  unfoldable pub guarded : Float → Float
  guarded v = if below (abs v) (decimal 1 300) then decimal 1 300 else v

  -- The loop of the continued fraction from round `i` on.
  unfoldable pub fraction : ℕ → ℕ → Float → Float → Float → Float → Float → Option Float
  unfolding guarded
  fraction zero i a b c d h = some h
  fraction (suc left) i a b c d h =
      let an = mul (of_int (minus i)) (sub (number i) a) in
      let b' = add b (number 2) in
      let d' = guarded (add (mul an d) b') in
      div an c >>= λ q.
      let c' = guarded (add b' q) in
      div (number 1) d' >>= λ r.
      let h' = mul h (mul r c') in
      elim (below (abs (sub (mul r c') (number 1))) (decimal 1 10)) [
        | true ↦ some h'
        | false ↦ fraction left (i + 1) a b' c' r h'
      ]
    where
      minus : ℕ → ℤ
      minus zero = pos 0
      minus (suc n) = negsuc n

  unfoldable pub igamc : Float → Float → Option Float
  unfolding scale series fraction
  igamc a x =
      if below x (number 0) || at_most a (number 0)
      then some (number 1)
      else if below x (add a (number 1))
      then (do
        first ← div (number 1) a
        val ← series 200 x a first first
        s ← scale a x
        some (sub (number 1) (mul val s)))
      else (do
        let b = sub (add x (number 1)) a
        c ← div (number 1) (decimal 1 300)
        d ← div (number 1) b
        h ← fraction 200 1 a b c d d
        s ← scale a x
        some (mul s h))

  unfoldable pub chi2_pvalue : Float → ℕ → Option Float
  unfolding igamc
  chi2_pvalue chi2 df = do a ← div (number df) (number 2); x ← div chi2 (number 2); igamc a x
