-- ===== src/Aes/Columns.antt =====
-- The columns of a state of modules/aes/bench/aes_benchmark.py, against the matrices of FIPS 197 for
-- MixColumns and its inverse. `product` is multiplication in the field of AES by a constant of at
-- most four bits, whose digits say which powers of x are added.
use risc_v_so_c.Base.{ℕ, zero, suc, ◌*◌, ◌<◌, ◌≡◌, refl, arith, bit_xor, List, [], ◌∷◌, length, All}
use risc_v_so_c.Base.Bits.{bit-xor, xor-lt}
use risc_v_so_c.Base.Xor.{bit_ext}
use risc_v_so_c.Aes.{xtime, mix, mix_columns}
use risc_v_so_c.Aes.Field.{xtime-xor, xtime-lt}

abbrev sum4 : ℕ → ℕ → ℕ → ℕ → ℕ
sum4 a b c d = bit_xor (bit_xor a b) (bit_xor c d)

-- Multiplication by 2, by 3, and by the constants of the inverse.
abbrev pub by_2 : ℕ → ℕ
by_2 b = xtime b

abbrev pub by_3 : ℕ → ℕ
by_3 b = bit_xor (xtime b) b

abbrev pub by_9 : ℕ → ℕ
by_9 b = bit_xor (xtime (xtime (xtime b))) b

abbrev pub by_b : ℕ → ℕ
by_b b = bit_xor (bit_xor (xtime (xtime (xtime b))) (xtime b)) b

abbrev pub by_d : ℕ → ℕ
by_d b = bit_xor (bit_xor (xtime (xtime (xtime b))) (xtime (xtime b))) b

abbrev pub by_e : ℕ → ℕ
by_e b = bit_xor (bit_xor (xtime (xtime (xtime b))) (xtime (xtime b))) (xtime b)

-- A column times the matrix whose first row is `f g h k`, each row the one above turned.
unfoldable pub circulant : (f g h k : ℕ → ℕ) → List ℕ → List ℕ
circulant f g h k (a ∷ b ∷ c ∷ d ∷ rest) =
    sum4 (f a) (g b) (h c) (k d)
    ∷ sum4 (k a) (f b) (g c) (h d)
    ∷ sum4 (h a) (k b) (f c) (g d)
    ∷ sum4 (g a) (h b) (k c) (f d)
    ∷ circulant f g h k rest
circulant f g h k _ = []

row : (a b c d : ℕ) → mix (bit_xor (bit_xor (bit_xor a b) c) d) a b ≡ sum4 (by_2 a) (by_3 b) c d
unfolding mix
row a b c d = bit_ext _ _ (λ k. simp (xtime-xor, bit-xor) (omega arith))

row1 : (a b c d : ℕ) → mix (bit_xor (bit_xor (bit_xor a b) c) d) b c ≡ sum4 a (by_2 b) (by_3 c) d
unfolding mix
row1 a b c d = bit_ext _ _ (λ k. simp (xtime-xor, bit-xor) (omega arith))

row2 : (a b c d : ℕ) → mix (bit_xor (bit_xor (bit_xor a b) c) d) c d ≡ sum4 a b (by_2 c) (by_3 d)
unfolding mix
row2 a b c d = bit_ext _ _ (λ k. simp (xtime-xor, bit-xor) (omega arith))

row3 : (a b c d : ℕ) → mix (bit_xor (bit_xor (bit_xor a b) c) d) d a ≡ sum4 (by_3 a) b c (by_2 d)
unfolding mix
row3 a b c d = bit_ext _ _ (λ k. simp (xtime-xor, bit-xor) (omega arith))

-- `mix_columns` multiplies each column by the matrix of MixColumns: 2 3 1 1 in the first row, and
-- each row the one above turned by one place.
pub mix_columns-circulant :
    (state : List ℕ) → mix_columns state ≡ circulant by_2 by_3 (λ b. b) (λ b. b) state
unfolding mix_columns circulant
mix_columns-circulant (a ∷ b ∷ c ∷ d ∷ rest) =
    rw (row a b c d, row1 a b c d, row2 a b c d, row3 a b c d, mix_columns-circulant rest) refl
mix_columns-circulant _ = refl

-- The matrix of the inverse: e b d 9 in the first row.
unfoldable pub inv_mix_columns : List ℕ → List ℕ
unfolding circulant
inv_mix_columns state = circulant by_e by_b by_d by_9 state

inverse :
    (a b c d : ℕ)
    → sum4
        (by_e (sum4 (by_2 a) (by_3 b) c d))
        (by_b (sum4 a (by_2 b) (by_3 c) d))
        (by_d (sum4 a b (by_2 c) (by_3 d)))
        (by_9 (sum4 (by_3 a) b c (by_2 d)))
      ≡ a
inverse a b c d = bit_ext _ _ (λ k. simp (xtime-xor, bit-xor) (omega arith))

inverse1 :
    (a b c d : ℕ)
    → sum4
        (by_9 (sum4 (by_2 a) (by_3 b) c d))
        (by_e (sum4 a (by_2 b) (by_3 c) d))
        (by_b (sum4 a b (by_2 c) (by_3 d)))
        (by_d (sum4 (by_3 a) b c (by_2 d)))
      ≡ b
inverse1 a b c d = bit_ext _ _ (λ k. simp (xtime-xor, bit-xor) (omega arith))

inverse2 :
    (a b c d : ℕ)
    → sum4
        (by_d (sum4 (by_2 a) (by_3 b) c d))
        (by_9 (sum4 a (by_2 b) (by_3 c) d))
        (by_e (sum4 a b (by_2 c) (by_3 d)))
        (by_b (sum4 (by_3 a) b c (by_2 d)))
      ≡ c
inverse2 a b c d = bit_ext _ _ (λ k. simp (xtime-xor, bit-xor) (omega arith))

inverse3 :
    (a b c d : ℕ)
    → sum4
        (by_b (sum4 (by_2 a) (by_3 b) c d))
        (by_d (sum4 a (by_2 b) (by_3 c) d))
        (by_9 (sum4 a b (by_2 c) (by_3 d)))
        (by_e (sum4 (by_3 a) b c (by_2 d)))
      ≡ d
inverse3 a b c d = bit_ext _ _ (λ k. simp (xtime-xor, bit-xor) (omega arith))

circulant_inverse :
    (n : ℕ) (state : List ℕ)
    → length state ≡ n * 4
    → inv_mix_columns (circulant by_2 by_3 (λ b. b) (λ b. b) state) ≡ state
unfolding inv_mix_columns circulant
circulant_inverse n [] h = refl
circulant_inverse zero (a ∷ rest) h = absurd (omega (arith, h))
circulant_inverse (suc n) (a ∷ b ∷ c ∷ d ∷ rest) h =
    rw
      (
        inverse a b c d,
        inverse1 a b c d,
        inverse2 a b c d,
        inverse3 a b c d,
        circulant_inverse n rest (omega (arith, h)),
      )
      refl
circulant_inverse (suc n) (a ∷ []) h = absurd (omega (arith, h))
circulant_inverse (suc n) (a ∷ b ∷ []) h = absurd (omega (arith, h))
circulant_inverse (suc n) (a ∷ b ∷ c ∷ []) h = absurd (omega (arith, h))

pub inv_mix_columns-mix_columns :
    (n : ℕ) (state : List ℕ) → length state ≡ n * 4 → inv_mix_columns (mix_columns state) ≡ state
inv_mix_columns-mix_columns n state h =
    rw (mix_columns-circulant state) (circulant_inverse n state h)

pub length-mix_columns :
    (n : ℕ) (state : List ℕ) → length state ≡ n * 4 → length (mix_columns state) ≡ n * 4
unfolding mix_columns
length-mix_columns n [] h = h
length-mix_columns zero (a ∷ rest) h = absurd (omega (arith, h))
length-mix_columns (suc n) (a ∷ b ∷ c ∷ d ∷ rest) h =
    omega (arith, h, length-mix_columns n rest (omega (arith, h)))
length-mix_columns (suc n) (a ∷ []) h = absurd (omega (arith, h))
length-mix_columns (suc n) (a ∷ b ∷ []) h = absurd (omega (arith, h))
length-mix_columns (suc n) (a ∷ b ∷ c ∷ []) h = absurd (omega (arith, h))

mix-lt : (t b next : ℕ) → t < 256 → b < 256 → mix t b next < 256
unfolding mix
mix-lt t b next p q =
    xor-lt 8 (bit_xor b t) (xtime (bit_xor b next)) (xor-lt 8 b t q p) (xtime-lt (bit_xor b next))

pub mix_columns-All :
    (state : List ℕ) → All (λ b. b < 256) state → All (λ b. b < 256) (mix_columns state)
unfolding mix_columns
mix_columns-All (a ∷ b ∷ c ∷ d ∷ rest) (p, (q, (r, (s, h)))) =
    let t = bit_xor (bit_xor (bit_xor a b) c) d in
    let below = xor-lt 8 _ d (xor-lt 8 _ c (xor-lt 8 a b p q) r) s in
    (
      mix-lt t a b below p,
      (
        mix-lt t b c below q,
        (mix-lt t c d below r, (mix-lt t d a below s, mix_columns-All rest h)),
      ),
    )
mix_columns-All _ h = tt
