-- ===== src/Base/Floats.antt =====
-- Python's floating-point numbers and the part of `math` that the tools call, as a parameter. `none` stands for ZeroDivisionError, ValueError and OverflowError.
use risc_v_so_c.Base.{ℕ, Bool, Option}
use risc_v_so_c.Base.Int.{ℤ}

pub record Floats : Type 1 where
  pub Float : Type 0
  pub of_int : ℤ → Float
  -- The literal `n` times ten to the power minus `k`.
  pub decimal : ℕ → ℕ → Float
  pub pi : Float
  pub neg : Float → Float
  pub add : Float → Float → Float
  pub sub : Float → Float → Float
  pub mul : Float → Float → Float
  pub square : Float → Float
  pub div : Float → Float → Option Float
  pub abs : Float → Float
  pub sin : Float → Option Float
  pub tan : Float → Option Float
  -- `a ** b`.
  pub pow : Float → Float → Option Float
  pub sqrt : Float → Option Float
  pub exp : Float → Option Float
  pub log : Float → Option Float
  pub lgamma : Float → Option Float
  pub math_erfc : Float → Float
  -- `int(x)` and `int(round(x))`.
  pub trunc : Float → Option ℤ
  pub round : Float → Option ℤ
  -- `a < b` and `a <= b`.
  pub below : Float → Float → Bool
  pub at_most : Float → Float → Bool
