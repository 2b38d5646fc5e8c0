-- ===== src/Mandelbrot/Ppm.antt =====
-- modules/mandelbrot/sim/verify_fp.py: `write_ppm` and `main`.
use mathlib.Core.List.{append_assoc}
use risc_v_so_c.Base.{
  ℕ, zero, suc, ◌+◌, ◌-◌, ◌*◌, ◌/◌, ◌%◌, ◌≤◌, ◌<◌, ◌≡◌, refl, ◌∙◌, ap, arith, ltb, leb, ◌&&◌,
  if◌then◌else◌, Bool, Bool-cases, true, false, inl, inr, Option, none, some, List, [], ◌∷◌, ◌++◌,
  length,
}
use risc_v_so_c.Base.Text.{Text, codes}
use risc_v_so_c.Base.Options.{◌>>=◌}
use risc_v_so_c.Base.Hex.{decimal_from, decimal_text}
use risc_v_so_c.Base.Floats.{Floats}
use risc_v_so_c.Mandelbrot.{Colour}
use risc_v_so_c.Mandelbrot.Render.{render, check_fp_accuracy, Accuracy, preview}

-- `rest` stands for what the file has behind the text.
unfoldable pub pixel_text : Colour → Text → Text
unfolding decimal_from
pixel_text (r, g, b) rest =
    decimal_text r ++ 32 ∷ (decimal_text g ++ 32 ∷ (decimal_text b ++ 32 ∷ rest))

unfoldable pub row_text : List Colour → Text → Text
unfolding pixel_text
row_text [] rest = 10 ∷ rest
row_text (colour ∷ row) rest = pixel_text colour (row_text row rest)

unfoldable pub rows_text : List (List Colour) → Text
unfolding row_text
rows_text [] = []
rows_text (row ∷ rows) = row_text row (rows_text rows)

abbrev pub width : List (List Colour) → ℕ
width [] = 0
width (row ∷ rows) = length row

-- The file of `write_ppm`.
unfoldable pub write_ppm : List (List Colour) → Text
unfolding decimal_from rows_text
write_ppm pixels =
    codes "P3\n"
    ++ (decimal_text (width pixels)
        ++ 32 ∷ (decimal_text (length pixels) ++ 10 ∷ (codes "255\n" ++ rows_text pixels)))

-- The decimal numbers in a text, between any other characters, as a reader of the format takes them.
abbrev pub is_digit : ℕ → Bool
is_digit c = leb b'0' c && leb c b'9'

abbrev pub begun : Option ℕ → List ℕ → List ℕ
begun none rest = rest
begun (some n) rest = n ∷ rest

abbrev or_zero : Option ℕ → ℕ
or_zero none = 0
or_zero (some n) = n

unfoldable pub numbers : Option ℕ → Text → List ℕ
numbers acc [] = begun acc []
numbers acc (c ∷ cs) = elim (is_digit c) [
  | true ↦ numbers (some (or_zero acc * 10 + (c - b'0'))) cs
  | false ↦ begun acc (numbers none cs)
]

numbers-digit :
    (acc : Option ℕ) (d : ℕ) (rest : Text)
    → d < 10
    → numbers acc ((b'0' + d) ∷ rest) ≡ numbers (some (or_zero acc * 10 + d)) rest
unfolding numbers
numbers-digit acc d rest h =
    let is : is_digit (b'0' + d) ≡ true = ground arith in
    let value : b'0' + d - b'0' ≡ d = omega arith in rw (numbers, is, value) refl

first_digit :
    (d : ℕ) (rest : Text) → d < 10 → numbers none ((b'0' + d) ∷ rest) ≡ numbers (some d) rest
first_digit d rest h = numbers-digit none d rest h ∙ ap (λ v. numbers (some v) rest) (omega arith)

numbers-between :
    (acc : Option ℕ) (c : ℕ) (rest : Text)
    → is_digit c ≡ false
    → numbers acc (c ∷ rest) ≡ begun acc (numbers none rest)
unfolding numbers
numbers-between acc c rest h = rw (numbers, h) refl

decimal_from-numbers :
    (fuel n : ℕ) (rest : Text)
    → n ≤ fuel
    → numbers none (decimal_from fuel n ++ rest) ≡ numbers (some n) rest
unfolding decimal_from
decimal_from-numbers zero n rest h = first_digit n rest (omega arith)
decimal_from-numbers (suc fuel) n rest h = elim (Bool-cases (ltb n 10)) [
  | inl small ↦ rw (small, decimal_from) (first_digit n rest (ground arith))
  | inr large ↦
      let whole : n / 10 * 10 + n % 10 ≡ n = omega arith in
      rw (large, decimal_from)
        (ap (numbers none) (append_assoc (decimal_from fuel (n / 10)) _ rest)
          ∙ decimal_from-numbers fuel (n / 10) _ (ground arith)
          ∙ numbers-digit (some (n / 10)) (n % 10) rest (omega arith)
          ∙ ap (λ v. numbers (some v) rest) whole)
]

-- A number with the character behind it.
decimal_text-numbers :
    (n c : ℕ) (rest : Text)
    → is_digit c ≡ false
    → numbers none (decimal_text n ++ c ∷ rest) ≡ n ∷ numbers none rest
decimal_text-numbers n c rest h =
    decimal_from-numbers n n (c ∷ rest) (omega arith) ∙ numbers-between (some n) c rest h

pixel_text-numbers :
    (colour : Colour) (rest : Text)
    → numbers none (pixel_text colour rest) ≡ colour.0 ∷ colour.1 ∷ colour.2 ∷ numbers none rest
unfolding pixel_text
pixel_text-numbers (r, g, b) rest =
    decimal_text-numbers r 32 _ refl
    ∙ ap (λ l. r ∷ l) (decimal_text-numbers g 32 _ refl)
    ∙ ap (λ l. r ∷ g ∷ l) (decimal_text-numbers b 32 rest refl)

unfoldable pub row_numbers : List Colour → List ℕ → List ℕ
row_numbers [] rest = rest
row_numbers (colour ∷ row) rest = colour.0 ∷ colour.1 ∷ colour.2 ∷ row_numbers row rest

-- The components of all pixels, row by row.
unfoldable pub components : List (List Colour) → List ℕ
unfolding row_numbers
components [] = []
components (row ∷ rows) = row_numbers row (components rows)

row_text-numbers :
    (row : List Colour) (rest : Text)
    → numbers none (row_text row rest) ≡ row_numbers row (numbers none rest)
unfolding row_text row_numbers
row_text-numbers [] rest = numbers-between none 10 rest refl
row_text-numbers (colour ∷ row) rest =
    pixel_text-numbers colour (row_text row rest)
    ∙ ap (λ l. colour.0 ∷ colour.1 ∷ colour.2 ∷ l) (row_text-numbers row rest)

rows_text-numbers : (rows : List (List Colour)) → numbers none (rows_text rows) ≡ components rows
unfolding rows_text components numbers
rows_text-numbers [] = refl
rows_text-numbers (row ∷ rows) =
    row_text-numbers row (rows_text rows) ∙ ap (row_numbers row) (rows_text-numbers rows)

-- The numbers in the file of `write_ppm` are the 3 of the format's name, the width and the height, the
-- largest value 255, and the components of all pixels in their order.
pub write_ppm-numbers :
    (pixels : List (List Colour))
    → numbers none (write_ppm pixels) ≡ 3 ∷ width pixels ∷ length pixels ∷ 255 ∷ components pixels
unfolding write_ppm
write_ppm-numbers pixels =
    numbers-between none b'P' _ refl
    ∙ numbers-digit none 3 _ (omega arith)
    ∙ numbers-between (some 3) 10 _ refl
    ∙ ap (λ l. 3 ∷ l) (decimal_text-numbers (width pixels) 32 _ refl)
    ∙ ap (λ l. 3 ∷ width pixels ∷ l) (decimal_text-numbers (length pixels) 10 _ refl)
    ∙ ap (λ l. 3 ∷ width pixels ∷ length pixels ∷ l) (decimal_text-numbers 255 10 _ refl)
    ∙ ap (λ l. 3 ∷ width pixels ∷ length pixels ∷ 255 ∷ l) (rows_text-numbers pixels)

-- The options of the command line.
pub record Args : Type 0 where
  pub w : ℕ
  pub h : ℕ
  pub max_iter : ℕ
  pub check_fp : Bool
  pub fp_image : Bool

-- The accuracy that is printed, the files with their names and the preview.
unfoldable pub main :
    (F : Floats) → Args → Option (Option (Accuracy F) × List (Text × Text) × List Text)
unfolding write_ppm
main F args = do
  accuracy ←
      (if args.check_fp
        then (check_fp_accuracy F args.w args.h args.max_iter >>= λ a. some (some a))
        else some none)
  pixels ← render F args.w args.h args.max_iter false
  files ←
      (if args.fp_image
        then (render F args.w args.h args.max_iter true >>= λ pixels_fp.
            some ((codes "mandelbrot_fp.ppm", write_ppm pixels_fp) ∷ []))
        else some [])
  ascii ← preview F args.w args.h args.max_iter
  some (accuracy, (codes "mandelbrot_ref.ppm", write_ppm pixels) ∷ files, ascii)
