-- ===== src/Mandelbrot/Render.antt =====
-- modules/mandelbrot/sim/verify_fp.py: the iteration on floating-point numbers, the images and the
-- check of one iteration against the other. `none` stands for an exception.
use risc_v_so_c.Base.{
  ℕ, zero, suc, ◌+◌, ◌-◌, ◌/◌, ◌%◌, min, leb, ltb, ◌<<<◌, if◌then◌else◌, Bool, true, false, Option,
  some, List, [], ◌∷◌, get_elem?, length,
}
use risc_v_so_c.Base.Int.{ℤ, pos, ◌-ℤ◌, ltb_ℤ}
use risc_v_so_c.Base.Text.{Text, codes}
use risc_v_so_c.Base.Options.{◌>>=◌}
use risc_v_so_c.Base.Floats.{Floats}
use risc_v_so_c.Mandelbrot.{Colour, fp_one, mandelbrot_fp, iter_to_rgb}

-- The variables of `check_fp_accuracy`.
pub record Tally : Type 0 where
  pub mismatches : ℕ
  pub total : ℕ
  pub max_diff : ℕ

abbrev pub start : Tally
start = record { mismatches = 0; total = 0; max_diff = 0 }

unfoldable pub tally_diff : ℕ → Tally → Tally
tally_diff diff t = record {
  mismatches = if ltb 0 diff then t.mismatches + 1 else t.mismatches;
  total = t.total + 1;
  max_diff = if ltb t.max_diff diff then diff else t.max_diff;
}

abbrev pub distance : ℕ → ℕ → ℕ
distance a b = if ltb a b then b - a else a - b

module _ (F : Floats) where
  open F use {Float, of_int, decimal, neg, add, sub, mul, div, round, below}

  unfoldable pub to_fp : Float → Option ℤ
  to_fp x = round (mul x (of_int (pos fp_one)))

  -- From 2 ^ 31 on the pattern of a negative number.
  unfoldable pub fp_to_float : ℤ → Option Float
  fp_to_float x =
      let value = if ltb_ℤ x (pos (1 <<< 31)) then x else x -ℤ pos (1 <<< 32) in
      div (of_int value) (of_int (pos fp_one))

  -- The loop from round `i` on, with `left` rounds to go.
  unfoldable pub float_loop : Float → Float → ℕ → ℕ → Float → Float → ℕ
  float_loop c_re c_im zero i zr zi = i
  float_loop c_re c_im (suc left) i zr zi =
      let zr2 = mul zr zr in
      let zi2 = mul zi zi in
      elim (below (decimal 4 0) (add zr2 zi2)) [
        | true ↦ i
        | false ↦
            float_loop c_re c_im left (suc i) (add (sub zr2 zi2) c_re)
              (add (mul (mul (decimal 2 0) zr) zi) c_im)
      ]

  unfoldable pub mandelbrot_float : Float → Float → ℕ → ℕ
  unfolding float_loop
  mandelbrot_float c_re c_im max_iter = float_loop c_re c_im max_iter 0 (decimal 0 0) (decimal 0 0)

  -- `low + (high - low) * p / size`.
  unfoldable pub scaled : Float → Float → ℕ → ℕ → Option Float
  scaled low high p size = do
    offset ← div (mul (sub high low) (of_int (pos p))) (of_int (pos size))
    some (add low offset)

  unfoldable pub c_re : ℕ → ℕ → Option Float
  unfolding scaled
  c_re w px = scaled (neg (decimal 25 1)) (decimal 10 1) px w

  unfoldable pub c_im : ℕ → ℕ → Option Float
  unfolding scaled
  c_im h py = scaled (neg (decimal 125 2)) (decimal 125 2) py h

  unfoldable pub fp_count : Float → Float → ℕ → Option ℕ
  unfolding to_fp
  fp_count re im max_iter = do
    re_fp ← to_fp re
    im_fp ← to_fp im
    some (mandelbrot_fp re_fp im_fp max_iter)

  module _ (w h max_iter : ℕ) where
    -- One pixel of `render`.
    unfoldable pub pixel : Bool → ℕ → ℕ → Option Colour
    unfolding c_re c_im mandelbrot_float fp_count
    pixel use_fp px py = do
      re ← c_re w px
      im ← c_im h py
      it ← (if use_fp then fp_count re im max_iter else some (mandelbrot_float re im max_iter))
      iter_to_rgb it max_iter

    -- The `left` pixels of a row from `px` on.
    unfoldable pub render_row : Bool → ℕ → ℕ → ℕ → Option (List Colour)
    unfolding pixel
    render_row use_fp zero px py = some []
    render_row use_fp (suc left) px py = do
      colour ← pixel use_fp px py
      row ← render_row use_fp left (px + 1) py
      some (colour ∷ row)

    unfoldable pub render_rows : Bool → ℕ → ℕ → Option (List (List Colour))
    unfolding render_row
    render_rows use_fp zero py = some []
    render_rows use_fp (suc left) py = do
      row ← render_row use_fp w 0 py
      rows ← render_rows use_fp left (py + 1)
      some (row ∷ rows)

  unfoldable pub render : ℕ → ℕ → ℕ → Bool → Option (List (List Colour))
  unfolding render_rows
  render w h max_iter use_fp = render_rows w h max_iter use_fp h 0

  module _ (w h max_iter : ℕ) where
    unfoldable pub check_pixel : ℕ → ℕ → Tally → Option Tally
    unfolding c_re c_im mandelbrot_float fp_count tally_diff
    check_pixel px py t = do
      re ← c_re w px
      im ← c_im h py
      it_fp ← fp_count re im max_iter
      some (tally_diff (distance (mandelbrot_float re im max_iter) it_fp) t)

    unfoldable pub check_row : ℕ → ℕ → ℕ → Tally → Option Tally
    unfolding check_pixel
    check_row zero px py t = some t
    check_row (suc left) px py t = check_pixel px py t >>= check_row left (px + 1) py

    unfoldable pub check_rows : ℕ → ℕ → Tally → Option Tally
    unfolding check_row
    check_rows zero py t = some t
    check_rows (suc left) py t = check_row w 0 py t >>= check_rows left (py + 1)

  pub record Accuracy : Type 0 where
    pub tally : Tally
    pub pct : Float
    pub passes : Bool

  -- What `check_fp_accuracy` prints.
  unfoldable pub check_fp_accuracy : ℕ → ℕ → ℕ → Option Accuracy
  unfolding check_rows
  check_fp_accuracy w h max_iter = do
    t ← check_rows w h max_iter h 0 start
    pct ← div (mul (decimal 1000 1) (of_int (pos t.mismatches))) (of_int (pos t.total))
    some (record { tally = t; pct = pct; passes = leb t.max_diff 2 })

  abbrev pub chars : Text
  chars = codes " .:-=+*#%@"

  -- One character of the preview.
  unfoldable pub preview_char : ℕ → ℕ → ℕ → ℕ → ℕ → Option ℕ
  unfolding mandelbrot_float
  preview_char w h max_iter px py = do
    re ← div (mul (decimal 35 1) (of_int (pos px))) (of_int (pos w))
    im ← div (mul (decimal 25 1) (of_int (pos py))) (of_int (pos h))
    let it = mandelbrot_float (add (neg (decimal 25 1)) re) (add (neg (decimal 125 2)) im) max_iter
    if leb max_iter it then some b'#' else get_elem? chars (it % length chars)

  unfoldable pub preview_row : ℕ → ℕ → ℕ → ℕ → ℕ → ℕ → Option Text
  unfolding preview_char
  preview_row w h max_iter py zero px = some []
  preview_row w h max_iter py (suc left) px = do
    c ← preview_char w h max_iter px py
    row ← preview_row w h max_iter py left (px + 1)
    some (c ∷ row)

  unfoldable pub preview_rows : ℕ → ℕ → ℕ → ℕ → ℕ → Option (List Text)
  unfolding preview_row
  preview_rows w h max_iter zero py = some []
  preview_rows w h max_iter (suc left) py = do
    let pw = min 40 w
    row ← preview_row w h max_iter py pw ((w - pw) / 2)
    rows ← preview_rows w h max_iter left (py + 1)
    some ((32 ∷ 32 ∷ row) ∷ rows)

  unfoldable pub preview : ℕ → ℕ → ℕ → Option (List Text)
  unfolding preview_rows
  preview w h max_iter = let ph = min 20 h in preview_rows w h max_iter ph ((h - ph) / 2)
