-- ===== src/Mandelbrot/Escape.antt =====
-- The iteration count of modules/mandelbrot/sim/verify_fp.py and the colour of it.
use risc_v_so_c.Base.{
  ℕ, zero, suc, ◌+◌, ◌%◌, ◌≤◌, ◌<◌, ◌≡◌, ◌≢◌, ◌↔◌, refl, sym, ◌∙◌, arith, Bool-cases, inl, inr, leb,
  true, false, some, All, get_elem?-All,
}
use risc_v_so_c.Base.Int.{ℤ, pos}
use risc_v_so_c.Mandelbrot.{
  Colour, palette, goes_on, next_re, next_im, escape_loop, mandelbrot_fp, iter_to_rgb,
}

module _ (c_re c_im : ℤ) where
  loop_on :
      (left i : ℕ) (zr zi : ℤ)
      → goes_on zr zi ≡ true
      → escape_loop c_re c_im (suc left) i zr zi
        ≡ escape_loop c_re c_im left (suc i) (next_re c_re zr zi) (next_im c_im zr zi)
  unfolding escape_loop
  loop_on left i zr zi e = rw (e, escape_loop) refl

  loop_out :
      (left i : ℕ) (zr zi : ℤ)
      → goes_on zr zi ≡ false
      → escape_loop c_re c_im (suc left) i zr zi ≡ i
  unfolding escape_loop
  loop_out left i zr zi e = rw (e, escape_loop) refl

  loop_end : (i : ℕ) (zr zi : ℤ) → escape_loop c_re c_im 0 i zr zi ≡ i
  unfolding escape_loop
  loop_end i zr zi = refl

  escape_loop-bound : (left i : ℕ) (zr zi : ℤ) → escape_loop c_re c_im left i zr zi ≤ left + i
  escape_loop-bound zero i zr zi = omega (arith, loop_end i zr zi)
  escape_loop-bound (suc left) i zr zi = elim (Bool-cases (goes_on zr zi)) [
    | inl on ↦ omega (
      arith,
      loop_on left i zr zi on,
      escape_loop-bound left (suc i) (next_re c_re zr zi) (next_im c_im zr zi),
    )
    | inr out ↦ omega (arith, loop_out left i zr zi out)
  ]

  -- More rounds do not change a count that was below the limit.
  escape_loop-more :
      (left more i : ℕ) (zr zi : ℤ)
      → escape_loop c_re c_im left i zr zi < left + i
      → escape_loop c_re c_im (left + more) i zr zi ≡ escape_loop c_re c_im left i zr zi
  escape_loop-more zero more i zr zi h = absurd (omega (arith, loop_end i zr zi))
  escape_loop-more (suc left) more i zr zi h =
      let regroup : suc left + more ≡ suc (left + more) = omega arith in
      elim (Bool-cases (goes_on zr zi)) [
        | inl on ↦
            let less : escape_loop c_re c_im left (suc i) (next_re c_re zr zi) (next_im c_im zr zi)
                < left + suc i =
              omega (arith, loop_on left i zr zi on) in
            rw regroup (
              loop_on (left + more) i zr zi on
              ∙ escape_loop-more left more (suc i) (next_re c_re zr zi) (next_im c_im zr zi) less
              ∙ sym (loop_on left i zr zi on))
        | inr out ↦
            rw regroup (loop_out (left + more) i zr zi out ∙ sym (loop_out left i zr zi out))
      ]

-- The count of a point is at most the limit.
pub mandelbrot_fp-bound :
    (c_re c_im : ℤ) (max_iter : ℕ) → mandelbrot_fp c_re c_im max_iter ≤ max_iter
unfolding mandelbrot_fp
mandelbrot_fp-bound c_re c_im max_iter =
    omega (arith, escape_loop-bound c_re c_im max_iter 0 (pos 0) (pos 0))

-- A point that escapes below the limit has the same count under every higher limit.
pub mandelbrot_fp-more :
    (c_re c_im : ℤ) (max_iter more : ℕ)
    → mandelbrot_fp c_re c_im max_iter < max_iter
    → mandelbrot_fp c_re c_im (max_iter + more) ≡ mandelbrot_fp c_re c_im max_iter
unfolding mandelbrot_fp
mandelbrot_fp-more c_re c_im max_iter more h =
    escape_loop-more c_re c_im max_iter more 0 (pos 0) (pos 0) (omega arith)

palette-All : All (λ (c : Colour). c.0 + c.1 + c.2 ≢ 0) palette
palette-All = ground arith

-- Every count has a colour, which is black exactly from the limit on.
pub iter_to_rgb-black :
    (it max_iter : ℕ)
    → (c : Colour) × (iter_to_rgb it max_iter ≡ some c) × ((c.0 + c.1 + c.2 ≡ 0) ↔ (max_iter ≤ it))
unfolding iter_to_rgb
iter_to_rgb-black it max_iter = elim (Bool-cases (leb max_iter it)) [
  | inl over ↦ ((0, 0, 0), rw over refl, ground arith)
  | inr below ↦
      let (c, e, light) =
        get_elem?-All (λ (c : Colour). c.0 + c.1 + c.2 ≢ 0) palette (it % 7) palette-All
          (omega arith) in
      (c, rw (below, e) refl, ground arith)
]
