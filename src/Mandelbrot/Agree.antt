-- ===== src/Mandelbrot/Agree.antt =====
-- What `check_fp_accuracy` of modules/mandelbrot/sim/verify_fp.py says about the two images of `render`.
use risc_v_so_c.Base.{
  ℕ, zero, suc, ◌+◌, ◌*◌, ◌≤◌, ◌<◌, ◌≡◌, ◌↔◌, ◌⊎◌, inl, inr, refl, ap, sym, arith, true, false, leb,
  some,
}
use risc_v_so_c.Base.Int.{ℤ, pos}
use risc_v_so_c.Base.Options.{◌>>=◌}
use risc_v_so_c.Base.Floats.{Floats}
use risc_v_so_c.Mandelbrot.{mandelbrot_fp, iter_to_rgb}
use risc_v_so_c.Mandelbrot.Escape.{mandelbrot_fp-bound}
use risc_v_so_c.Mandelbrot.Render.{
  to_fp, float_loop, mandelbrot_float, c_re, c_im, fp_count, pixel, render_row, render_rows, render,
  Tally, start, tally_diff, distance, check_pixel, check_row, check_rows, Accuracy,
  check_fp_accuracy,
}

module _ (F : Floats) where
  open F use {Float, of_int, decimal, mul, div, below, add}

  float_loop-bound :
      (re im : Float) (left i : ℕ) (zr zi : Float) → float_loop F re im left i zr zi ≤ left + i
  unfolding float_loop
  float_loop-bound re im zero i zr zi = omega arith
  float_loop-bound re im (suc left) i zr zi =
      let again = float_loop-bound re im left (suc i) in
      ground (
        arith,
        again (F.add (F.sub (mul zr zr) (mul zi zi)) re) (add (mul (mul (decimal 2 0) zr) zi) im),
      )

  mandelbrot_float-bound :
      (re im : Float) (max_iter : ℕ) → mandelbrot_float F re im max_iter ≤ max_iter
  unfolding mandelbrot_float
  mandelbrot_float-bound re im max_iter =
      omega (arith, float_loop-bound re im max_iter 0 (decimal 0 0) (decimal 0 0))

  -- The points of an image of `w` by `h` pixels are finite numbers.
  pub record IsFinite (w h : ℕ) : Type 0 where
    pub re : (p : ℕ) → p < w → (x : Float) × (z : ℤ) × (c_re F w p ≡ some x) × (to_fp F x ≡ some z)
    pub im : (p : ℕ) → p < h → (x : Float) × (z : ℤ) × (c_im F h p ≡ some x) × (to_fp F x ≡ some z)

  module _ (w h max_iter : ℕ) where
    -- The sums so far, of pixels whose counts are at most the limit.
    pub record IsTally (t : Tally) : Type 0 where
      pub few : t.mismatches ≤ t.total
      pub bounded : t.max_diff ≤ max_iter
      pub both : (t.mismatches ≡ 0) ↔ (t.max_diff ≡ 0)

    -- What `k` more pixels do to a tally, where `Same` stands for the two images' being the same there.
    record Goes (t t' : Tally) (k : ℕ) (Same : Type 0) : Type 0 where
      counted : t'.total ≡ t.total + k
      grows : t.mismatches ≤ t'.mismatches
      good : IsTally t'
      agree : (t.mismatches < t'.mismatches) ⊎ Same

    distance-zero : (a b : ℕ) → distance a b ≡ 0 → a ≡ b
    distance-zero a b e = ground arith

    tally_diff-Goes :
        (a b : ℕ) (t : Tally)
        → a ≤ max_iter
        → b ≤ max_iter
        → IsTally t
        → Goes t (tally_diff (distance a b) t) 1 (a ≡ b)
    unfolding tally_diff
    tally_diff-Goes a b t p q good = record {
      counted = refl;
      grows = ground arith;
      good = record {
        few = ground (arith, good.few);
        bounded = ground (arith, good.bounded);
        both = (λ e. ground (arith, good.both.0), λ e. ground (arith, good.both.1));
      };
      agree = ground arith;
    }

    still : {t : Tally} {k : ℕ} {Same : Type 0} → k ≡ 0 → IsTally t → Same → Goes t t k Same
    still none_left good s = record {
      counted = omega arith;
      grows = omega arith;
      good = good;
      agree = inr s;
    }

    same_as : {t t' : Tally} {k : ℕ} {A B : Type 0} → Goes t t' k A → (A → B) → Goes t t' k B
    same_as g f = record {
      counted = g.counted;
      grows = g.grows;
      good = g.good;
      agree = elim g.agree [ inl lt ↦ inl lt | inr s ↦ inr (f s) ];
    }

    both_go :
        {t t1 t2 : Tally} {k l m : ℕ} {A B C : Type 0}
        → Goes t t1 k A
        → Goes t1 t2 l B
        → k + l ≡ m
        → (A → B → C)
        → Goes t t2 m C
    both_go g g' e f = record {
      counted = omega (arith, g.counted, g'.counted);
      grows = omega (arith, g.grows, g'.grows);
      good = g'.good;
      agree = elim g.agree [
        | inl lt ↦ inl (omega (arith, g'.grows))
        | inr s ↦ elim g'.agree [ inl lt ↦ inl (omega (arith, g.grows)) | inr s' ↦ inr (f s s') ]
      ];
    }

    module _ (finite : IsFinite w h) where
      pixel-Goes :
          (px py : ℕ) (t : Tally)
          → px < w
          → py < h
          → IsTally t
          → (t' : Tally) × (check_pixel F w h max_iter px py t ≡ some t')
            × Goes t t' 1 (pixel F w h max_iter true px py ≡ pixel F w h max_iter false px py)
      unfolding check_pixel pixel fp_count
      pixel-Goes px py t p q good =
          let (x, x', e, f) = finite.re px p in
          let (y, y', e', f') = finite.im py q in
          let a = mandelbrot_float F x y max_iter in
          let b = mandelbrot_fp x' y' max_iter in
          let goes =
            tally_diff-Goes a b t (mandelbrot_float-bound x y max_iter)
              (mandelbrot_fp-bound x' y' max_iter) good in
          (
            _,
            rw (e, e', f, f', ◌>>=◌) refl,
            same_as goes
                (λ s. rw (e, e', f, f', ◌>>=◌) (ap (λ it. iter_to_rgb it max_iter) (sym s))),
          )

      row-Goes :
          (left px py : ℕ) (t : Tally)
          → px + left ≤ w
          → py < h
          → IsTally t
          → (t' : Tally) × (check_row F w h max_iter left px py t ≡ some t')
            × Goes t t' left (
                render_row F w h max_iter true left px py
                ≡ render_row F w h max_iter false left px py)
      unfolding check_row render_row
      row-Goes zero px py t p q good = (t, refl, still (omega arith) good refl)
      row-Goes (suc left) px py t p q good =
          let (t1, e, one) = pixel-Goes px py t (omega arith) q good in
          let (t2, e', rest) = row-Goes left (px + 1) py t1 (omega arith) q one.good in
          (t2, rw (e, ◌>>=◌) e', both_go one rest (omega arith) λ s s'. rw (s, s') refl)

      rows-Goes :
          (left py : ℕ) (t : Tally)
          → py + left ≤ h
          → IsTally t
          → (t' : Tally) × (check_rows F w h max_iter left py t ≡ some t')
            × Goes t t'
                (left * w)
                (render_rows F w h max_iter true left py ≡ render_rows F w h max_iter false left py)
      unfolding check_rows render_rows
      rows-Goes zero py t p good = (t, refl, still (omega arith) good refl)
      rows-Goes (suc left) py t p good =
          let (t1, e, one) = row-Goes w 0 py t (omega arith) (omega arith) good in
          let (t2, e', rest) = rows-Goes left (py + 1) t1 (omega arith) one.good in
          (t2, rw (e, ◌>>=◌) e', both_go one rest (omega arith) λ s s'. rw (s, s') refl)

      start-IsTally : IsTally start
      start-IsTally = record {
        few = omega arith;
        bounded = omega arith;
        both = (λ _. refl, λ _. refl);
      }

      -- For an image of at least one pixel, whose points are finite numbers, `check_fp_accuracy` returns. It
      -- has compared w * h pixels, its mismatches are at most so many, its largest difference is at most the
      -- iteration limit, and 0 exactly when there is no mismatch. Where there is none, the image that
      -- `render` makes of the fixed-point iteration is that of the floating-point one.
      pub check_fp_accuracy-render :
          0 < w
          → 0 < h
          → ((a : Float) (n : ℕ) → 0 < n → (q : Float) × (div a (of_int (pos n)) ≡ some q))
          → (r : Accuracy F) × (check_fp_accuracy F w h max_iter ≡ some r)
            × (r.tally.total ≡ w * h)
            × IsTally r.tally
            × ((0 < r.tally.mismatches)
                ⊎ (render F w h max_iter true ≡ render F w h max_iter false))
      unfolding check_fp_accuracy render
      check_fp_accuracy-render p q divides =
          let (t, e, goes) = rows-Goes h 0 start (omega arith) start-IsTally in
          let some_pixels : 0 < t.total = grind (arith, goes.counted) in
          let (pct, e') =
            divides (mul (decimal 1000 1) (of_int (pos t.mismatches))) t.total some_pixels in
          (
            record { tally = t; pct = pct; passes = leb t.max_diff 2 },
            rw (e, e', ◌>>=◌) refl,
            ground (arith, goes.counted),
            goes.good,
            goes.agree,
          )
