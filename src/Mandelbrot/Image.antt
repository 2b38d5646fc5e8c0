-- ===== src/Mandelbrot/Image.antt =====
-- The shape of the images of `render` of modules/mandelbrot/sim/verify_fp.py.
use risc_v_so_c.Base.{
  ℕ, zero, suc, ◌+◌, ◌%◌, ◌≤◌, ◌<◌, ◌≡◌, ◌⊎◌, inl, inr, refl, ap, arith, Bool, Bool-cases, true,
  false, leb, some, List, [], ◌∷◌, length, get_elem?, get_elem?-All, All, All-any,
}
use risc_v_so_c.Base.Options.{◌>>=◌}
use risc_v_so_c.Base.Floats.{Floats}
use risc_v_so_c.Mandelbrot.{Colour, palette, mandelbrot_fp, iter_to_rgb}
use risc_v_so_c.Mandelbrot.Render.{
  mandelbrot_float, fp_count, pixel, render_row, render_rows, render,
}
use risc_v_so_c.Mandelbrot.Agree.{IsFinite}

-- Black, or a colour of the palette.
pub IsColour : Colour → Type 0
IsColour c = (c ≡ (0, 0, 0)) ⊎ ((i : ℕ) × (get_elem? palette i ≡ some c))

iter_to_rgb-IsColour :
    (it max_iter : ℕ) → (c : Colour) × (iter_to_rgb it max_iter ≡ some c) × IsColour c
unfolding iter_to_rgb IsColour
iter_to_rgb-IsColour it max_iter = elim (Bool-cases (leb max_iter it)) [
  | inl over ↦ ((0, 0, 0), rw over refl, inl refl)
  | inr below ↦
      let (c, e, _) =
        get_elem?-All (λ _. Unit {0}) palette (it % 7) (All-any palette) (omega arith) in
      (c, rw (below, e) refl, inr (it % 7, e))
]

-- `h` rows of `w` colours.
pub record IsImage (w h : ℕ) (rows : List (List Colour)) : Type 0 where
  pub tall : length rows ≡ h
  pub wide : All (λ row. (length row ≡ w) × All IsColour row) rows

module _ (F : Floats) (w h max_iter : ℕ) (finite : IsFinite F w h) where
  pixel-IsColour :
      (use_fp : Bool) (px py : ℕ)
      → px < w
      → py < h
      → (c : Colour) × (pixel F w h max_iter use_fp px py ≡ some c) × IsColour c
  unfolding pixel fp_count
  pixel-IsColour true px py p q =
      let (x, x', e, f) = finite.re px p in
      let (y, y', e', f') = finite.im py q in
      let (c, g, is) = iter_to_rgb-IsColour (mandelbrot_fp x' y' max_iter) max_iter in
      (c, rw (e, e', f, f', ◌>>=◌) g, is)
  pixel-IsColour false px py p q =
      let (x, _, e, _) = finite.re px p in
      let (y, _, e', _) = finite.im py q in
      let (c, g, is) = iter_to_rgb-IsColour (mandelbrot_float F x y max_iter) max_iter in
      (c, rw (e, e', ◌>>=◌) g, is)

  render_row-some :
      (use_fp : Bool) (left px py : ℕ)
      → px + left ≤ w
      → py < h
      → (row : List Colour) × (render_row F w h max_iter use_fp left px py ≡ some row)
        × (length row ≡ left)
        × All IsColour row
  unfolding render_row
  render_row-some use_fp zero px py p q = ([], refl, refl, tt)
  render_row-some use_fp (suc left) px py p q =
      let (c, e, is) = pixel-IsColour use_fp px py (omega arith) q in
      let (row, e', long, all) = render_row-some use_fp left (px + 1) py (omega arith) q in
      (c ∷ row, rw (e, e', ◌>>=◌) refl, ap suc long, (is, all))

  render_rows-IsImage :
      (use_fp : Bool) (left py : ℕ)
      → py + left ≤ h
      → (rows : List (List Colour)) × (render_rows F w h max_iter use_fp left py ≡ some rows)
        × IsImage w left rows
  unfolding render_rows
  render_rows-IsImage use_fp zero py p = ([], refl, record { tall = refl; wide = tt })
  render_rows-IsImage use_fp (suc left) py p =
      let (row, e, long, all) = render_row-some use_fp w 0 py (omega arith) (omega arith) in
      let (rows, e', image) = render_rows-IsImage use_fp left (py + 1) (omega arith) in
      (
        row ∷ rows,
        rw (e, e', ◌>>=◌) refl,
        record { tall = ap suc image.tall; wide = ((long, all), image.wide) },
      )

  -- Where the image's points are finite numbers, `render` returns for either iteration an image of `h` rows of
  -- `w` pixels, each of them black or a colour of the palette.
  pub render-IsImage :
      (use_fp : Bool)
      → (rows : List (List Colour)) × (render F w h max_iter use_fp ≡ some rows) × IsImage w h rows
  unfolding render
  render-IsImage use_fp = render_rows-IsImage use_fp h 0 (omega arith)
