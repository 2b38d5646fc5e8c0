-- ===== src/Tests/Nist.antt =====
-- The statistical tests on a few bits.
use risc_v_so_c.Base.{
  ℕ, zero, suc, ◌+◌, ◌-◌, ◌<◌, get_elem?, ◌/◌, ◌*◌, ◌^◌, ◌≤◌, ◌≡◌, refl, arith, none, some, List,
  [], ◌∷◌, ◌++◌, length, take, replicate, ◌==◌, if◌then◌else◌, not,
}
use risc_v_so_c.Base.Int.{ℤ, pos, ◌+ℤ◌, ◌-ℤ◌, ltb_ℤ, pos_part, neg_part}
use risc_v_so_c.Nist.{bytes_to_bits, longest_run, pattern_counts, max_walk}
use risc_v_so_c.Base.Floats.{Floats}
use risc_v_so_c.Nist.Runs.{HasRun, longest_run-HasRun-le}
use risc_v_so_c.Nist.Counts.{count_of, positions, pattern_counts-positions}
use risc_v_so_c.Nist.Rank.{
  matrix_rank, eliminate, find_pivot, cell, swap_rows, clear_column, clear_row, xor_row,
}
use risc_v_so_c.Nist.Rank.Rows.{Entries, IsRow, IsMatrix}
use risc_v_so_c.Nist.Rank.Echelon.{IsBits}
use risc_v_so_c.Nist.Rank.Reduced.{Reduced, matrix_rank-Reduced}
use risc_v_so_c.Nist.Template.{default_template}
use risc_v_so_c.Nist.Suite.{test_non_overlapping_template}
use risc_v_so_c.Nist.Lengths.{test_non_overlapping_template-same}

-- Whole numbers in place of floating-point numbers.
abbrev pub integers : Floats
integers = record {
  Float = ℤ;
  of_int = λ z. z;
  decimal = λ n k. pos (n / 10 ^ k);
  pi = pos 3;
  neg = λ a. pos 0 -ℤ a;
  add = λ a b. a +ℤ b;
  sub = λ a b. a -ℤ b;
  mul = λ a b. pos (pos_part a * pos_part b);
  square = λ a. pos ((pos_part a + neg_part a) * (pos_part a + neg_part a));
  div = λ a b. if pos_part b == 0 then none else some (pos (pos_part a / pos_part b));
  abs = λ a. pos (pos_part a + neg_part a);
  sin = λ a. some a;
  tan = λ a. some a;
  pow = λ a b. some (pos (pos_part a ^ pos_part b));
  sqrt = λ a. some a;
  exp = λ a. some (pos 1);
  log = λ a. some a;
  lgamma = λ a. some a;
  math_erfc = λ a. pos 1;
  trunc = λ a. some a;
  round = λ a. some a;
  below = λ a b. ltb_ℤ a b;
  at_most = λ a b. not (ltb_ℤ b a);
}

bits_of_byte : bytes_to_bits (0xa5 ∷ []) ≡ 1 ∷ 0 ∷ 1 ∷ 0 ∷ 0 ∷ 1 ∷ 0 ∷ 1 ∷ []
unfolding bytes_to_bits
bits_of_byte = refl

walk : max_walk (pos 0) 0 (1 ∷ 1 ∷ 0 ∷ 0 ∷ 0 ∷ []) ≡ 2
unfolding max_walk
walk = refl

rank_two : matrix_rank ((0 ∷ 1 ∷ 1 ∷ []) ∷ (1 ∷ 0 ∷ 1 ∷ []) ∷ (1 ∷ 1 ∷ 0 ∷ []) ∷ []) 3 3 ≡ some 2
unfolding matrix_rank eliminate find_pivot cell swap_rows clear_column clear_row xor_row
rank_two = refl

abbrev run_bits : List ℕ
run_bits = 0 ∷ 1 ∷ 1 ∷ 0 ∷ 1 ∷ []

longest_run-HasRun-le_example :
    HasRun (longest_run 0 0 run_bits) run_bits × (2 ≤ longest_run 0 0 run_bits)
longest_run-HasRun-le_example = longest_run-HasRun-le run_bits 2 (0 ∷ [], 0 ∷ 1 ∷ [], refl)

pattern_counts-positions_example :
    count_of (pattern_counts 2 run_bits) (0 ∷ 1 ∷ [])
    ≡ positions (0 ∷ 1 ∷ []) 2 (run_bits ++ take (2 - 1) run_bits) (length run_bits)
pattern_counts-positions_example = pattern_counts-positions 2 run_bits (0 ∷ 1 ∷ [])

abbrev unit_matrix : List (List ℕ)
unit_matrix = (1 ∷ 0 ∷ []) ∷ (0 ∷ 1 ∷ []) ∷ []

abbrev unit_entries : Entries
unit_entries r c = if r == c then 1 else 0

unit_matrix-IsMatrix : IsMatrix 2 2 unit_matrix unit_entries
unit_matrix-IsMatrix = record { tall = refl; at = rows }
  where
    first : (c : ℕ) → c < 2 → get_elem? (1 ∷ 0 ∷ []) c ≡ some (unit_entries 0 c)
    first zero h = refl
    first (suc zero) h = refl
    first (suc (suc c)) h = absurd (omega arith)

    second : (c : ℕ) → c < 2 → get_elem? (0 ∷ 1 ∷ []) c ≡ some (unit_entries 1 c)
    second zero h = refl
    second (suc zero) h = refl
    second (suc (suc c)) h = absurd (omega arith)

    rows :
        (r : ℕ)
        → r < 2
        → (row : List ℕ) × (get_elem? unit_matrix r ≡ some row) × IsRow 2 2 row (unit_entries r)
    rows zero h = (1 ∷ 0 ∷ [], refl, first)
    rows (suc zero) h = (0 ∷ 1 ∷ [], refl, second)
    rows (suc (suc r)) h = absurd (omega arith)

unit_entries-IsBits : IsBits 2 2 unit_entries
unit_entries-IsBits = record { small = λ r c _ _. ground arith }

matrix_rank-Reduced_example :
    (v : ℕ) × (matrix_rank unit_matrix 2 2 ≡ some v)
    × (v ≤ 2)
    × (v ≤ 2)
    × Reduced 2 2 unit_entries v
matrix_rank-Reduced_example =
    matrix_rank-Reduced 2 2 unit_matrix unit_entries unit_matrix-IsMatrix unit_entries-IsBits

test_non_overlapping_template-same_example :
    test_non_overlapping_template integers (replicate 16 0) default_template
    ≡ test_non_overlapping_template integers (replicate 16 1) default_template
test_non_overlapping_template-same_example =
    test_non_overlapping_template-same integers default_template (replicate 16 0) (replicate 16 1)
      (omega arith) refl
