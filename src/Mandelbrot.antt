-- ===== src/Mandelbrot.antt =====
-- modules/mandelbrot/sim/verify_fp.py: the fixed-point iteration and the colours.
pub mod Escape
pub mod Render
pub mod Agree
pub mod Image
pub mod Ppm
use risc_v_so_c.Base.{
  ℕ, zero, suc, ◌+◌, ◌*◌, ◌%◌, ◌^◌, ltb, leb, if◌then◌else◌, Bool, true, false, Option, some, List,
  [], ◌∷◌, length, get_elem?, ◌<<<◌,
}
use risc_v_so_c.Base.Int.{ℤ, pos, negsuc, ◌+ℤ◌, ◌-ℤ◌, ltb_ℤ, shr_ℤ, wrap}

abbrev pub frac_bits : ℕ
frac_bits = 27

abbrev pub fp_one : ℕ
fp_one = 1 <<< frac_bits

-- Python's `a * b`.
infixl 66 ◌*ℤ◌
abbrev pub ◌*ℤ◌ : ℤ → ℤ → ℤ
pos a *ℤ pos b = pos (a * b)
pos a *ℤ negsuc b = pos 0 -ℤ pos (a * (b + 1))
negsuc a *ℤ pos b = pos 0 -ℤ pos ((a + 1) * b)
negsuc a *ℤ negsuc b = pos ((a + 1) * (b + 1))

unfoldable pub fp_mul : ℤ → ℤ → ℤ
fp_mul a b = shr_ℤ (a *ℤ b) frac_bits

-- `to_fp(4.0)`, which is exact.
abbrev pub four_fp : ℤ
four_fp = pos (4 * fp_one)

-- `z & MASK32`, less 2 ^ 32 from 2 ^ 31 on.
unfoldable pub sign_32 : ℤ → ℤ
sign_32 z = let z' = wrap 32 z in if leb (1 <<< 31) z' then pos z' -ℤ pos (1 <<< 32) else pos z'

-- The next `zr` and `zi`.
unfoldable pub next_re : ℤ → ℤ → ℤ → ℤ
unfolding fp_mul sign_32
next_re c_re zr zi = sign_32 (fp_mul zr zr -ℤ fp_mul zi zi +ℤ c_re)

unfoldable pub next_im : ℤ → ℤ → ℤ → ℤ
unfolding fp_mul sign_32
next_im c_im zr zi = sign_32 (fp_mul zr zi *ℤ pos 2 +ℤ c_im)

-- `not zr2 + zi2 >= four_fp`.
unfoldable pub goes_on : ℤ → ℤ → Bool
unfolding fp_mul
goes_on zr zi = ltb_ℤ (fp_mul zr zr +ℤ fp_mul zi zi) four_fp

-- The loop from round `i` on, with `left` rounds to go.
unfoldable pub escape_loop : ℤ → ℤ → ℕ → ℕ → ℤ → ℤ → ℕ
unfolding next_re next_im goes_on
escape_loop c_re c_im zero i zr zi = i
escape_loop c_re c_im (suc left) i zr zi = elim (goes_on zr zi) [
  | false ↦ i
  | true ↦ escape_loop c_re c_im left (suc i) (next_re c_re zr zi) (next_im c_im zr zi)
]

unfoldable pub mandelbrot_fp : ℤ → ℤ → ℕ → ℕ
unfolding escape_loop
mandelbrot_fp c_re c_im max_iter = escape_loop c_re c_im max_iter 0 (pos 0) (pos 0)

abbrev pub Colour : Type 0
Colour = ℕ × ℕ × ℕ

abbrev pub palette : List Colour
palette =
    (0, 0, 255)
    ∷ (0, 255, 0)
    ∷ (0, 255, 255)
    ∷ (255, 0, 0)
    ∷ (255, 0, 255)
    ∷ (255, 255, 0)
    ∷ (255, 255, 255)
    ∷ []

-- `none` stands for an IndexError.
unfoldable pub iter_to_rgb : ℕ → ℕ → Option Colour
iter_to_rgb it max_iter =
    if leb max_iter it then some (0, 0, 0) else get_elem? palette (it % length palette)
