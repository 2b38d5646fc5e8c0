-- ===== src/Tests/Mandelbrot.antt =====
-- The fixed-point iteration at single points.
use risc_v_so_c.Base.{
  ℕ, ◌*◌, ◌/◌, ◌==◌, ◌<◌, ◌≡◌, ◌⊎◌, refl, none, some, true, false, List, [], ◌∷◌, arith,
}
use risc_v_so_c.Base.Int.{ℤ, pos, pos_part}
use risc_v_so_c.Base.Text.{codes}
use risc_v_so_c.Base.Hex.{decimal_from}
use risc_v_so_c.Mandelbrot.{
  Colour, fp_one, mandelbrot_fp, escape_loop, goes_on, next_re, next_im, fp_mul, sign_32,
}
use risc_v_so_c.Mandelbrot.Render.{
  c_re, c_im, scaled, to_fp, fp_count, float_loop, mandelbrot_float, render, tally_diff,
  check_pixel, check_row, check_rows, Accuracy, check_fp_accuracy,
}
use risc_v_so_c.Mandelbrot.Agree.{IsFinite, IsTally, check_fp_accuracy-render}
use risc_v_so_c.Mandelbrot.Image.{IsImage, render-IsImage}
use risc_v_so_c.Mandelbrot.Ppm.{
  pixel_text, row_text, rows_text, write_ppm, numbers, row_numbers, components, write_ppm-numbers,
}
use risc_v_so_c.Tests.Nist.{integers}

-- The point 1 leaves the disc in the round with index 2, where z is 2.
one_escapes : mandelbrot_fp (pos fp_one) (pos 0) 5 ≡ 2
unfolding mandelbrot_fp escape_loop goes_on next_re next_im fp_mul sign_32
one_escapes = refl

-- With whole numbers every count of the small image is the same in both iterations.
integers-IsFinite : IsFinite integers 2 1
unfolding c_re c_im to_fp scaled
integers-IsFinite = record { re = λ p _. (_, _, refl, refl); im = λ p _. (_, _, refl, refl) }

whole_image :
    check_fp_accuracy integers 2 1 5
    ≡ some (record {
      tally = record { mismatches = 0; total = 2; max_diff = 0 };
      pct = pos 0;
      passes = true;
    })
unfolding check_fp_accuracy check_rows check_row check_pixel c_re c_im scaled fp_count to_fp
    mandelbrot_float float_loop mandelbrot_fp escape_loop goes_on next_re next_im fp_mul sign_32
    tally_diff
whole_image = refl

integers_divide :
    (a : ℤ) (n : ℕ) → 0 < n → (q : ℤ) × (integers.div a (integers.of_int (pos n)) ≡ some q)
integers_divide a n h =
    let positive : (n == 0) ≡ false = ground arith in (pos (pos_part a / n), rw positive refl)

check_fp_accuracy-render_example :
    (r : Accuracy integers) × (check_fp_accuracy integers 2 1 5 ≡ some r)
    × (r.tally.total ≡ 2 * 1)
    × IsTally integers 2 1 5 r.tally
    × ((0 < r.tally.mismatches) ⊎ (render integers 2 1 5 true ≡ render integers 2 1 5 false))
check_fp_accuracy-render_example =
    check_fp_accuracy-render integers 2 1 5 integers-IsFinite (omega arith) (omega arith)
      integers_divide

abbrev two_pixels : List (List Colour)
two_pixels = ((0, 0, 255) ∷ (12, 7, 255) ∷ []) ∷ []

small_file : write_ppm two_pixels ≡ codes "P3\n2 1\n255\n0 0 255 12 7 255 \n"
unfolding write_ppm rows_text row_text pixel_text decimal_from
small_file = refl

write_ppm-numbers_example :
    numbers none (write_ppm two_pixels) ≡ 3 ∷ 2 ∷ 1 ∷ 255 ∷ 0 ∷ 0 ∷ 255 ∷ 12 ∷ 7 ∷ 255 ∷ []
unfolding components row_numbers
write_ppm-numbers_example = write_ppm-numbers two_pixels

render-IsImage_example :
    (rows : List (List Colour)) × (render integers 2 1 5 true ≡ some rows) × IsImage 2 1 rows
render-IsImage_example = render-IsImage integers 2 1 5 integers-IsFinite true
