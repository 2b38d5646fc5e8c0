-- ===== src/Nist/Rank.antt =====
-- modules/trng/tools/nist_sts.py: `_matrix_rank`, elimination over bits. `none` stands for an IndexError.
pub mod Rows
pub mod Solutions
pub mod Echelon
pub mod Reduced
use risc_v_so_c.Base.{
  ℕ, zero, suc, ◌+◌, ◌-◌, ◌≤◌, ◌<◌, ◌≡◌, ◌⊎◌, refl, ◌∙◌, ap, arith, Bool-cases, inl, inr, true,
  false, not, ◌&&◌, ◌==◌, if◌then◌else◌, Option, none, some, List, [], ◌∷◌, length, get_elem?,
  get_elem?-All, set, length-set, All, All-set, bit_xor,
}
use risc_v_so_c.Base.Options.{◌>>=◌}

-- `mat[r][c]`.
unfoldable pub cell : List (List ℕ) → ℕ → ℕ → Option ℕ
cell mat r c = get_elem? mat r >>= λ row. get_elem? row c

-- The search for a pivot in the `left` rows from `r` on.
unfoldable pub find_pivot : ℕ → ℕ → ℕ → List (List ℕ) → Option (Option ℕ)
find_pivot zero r col mat = some none
find_pivot (suc left) r col mat = cell mat r col >>= λ b. elim (b == 1) [
  | true ↦ some (some r)
  | false ↦ find_pivot left (r + 1) col mat
]

unfoldable pub swap_rows : ℕ → ℕ → List (List ℕ) → Option (List (List ℕ))
swap_rows a b mat = do x ← get_elem? mat a; y ← get_elem? mat b; some (set (set mat a y) b x)

-- The new row, for `left` columns from `c` on.
unfoldable pub xor_row : ℕ → ℕ → List ℕ → List ℕ → Option (List ℕ)
xor_row zero c x y = some []
xor_row (suc left) c x y = do
  a ← get_elem? x c
  b ← get_elem? y c
  rest ← xor_row left (c + 1) x y
  some (bit_xor a b ∷ rest)

-- One row of the loop that clears a column.
unfoldable pub clear_row : ℕ → ℕ → ℕ → ℕ → List (List ℕ) → Option (List (List ℕ))
clear_row cols rank col r mat = do
  b ← cell mat r col
  if not (r == rank) && b == 1
      then (do
        x ← get_elem? mat r
        y ← get_elem? mat rank
        row ← xor_row cols 0 x y
        some (set mat r row))
      else some mat

-- The `left` rows from `r` on.
unfoldable pub clear_column : ℕ → ℕ → ℕ → ℕ → ℕ → List (List ℕ) → Option (List (List ℕ))
unfolding clear_row
clear_column zero r cols rank col mat = some mat
clear_column (suc left) r cols rank col mat =
    clear_row cols rank col r mat >>= λ next. clear_column left (r + 1) cols rank col next

-- The `left` columns from `col` on.
unfoldable pub eliminate : ℕ → ℕ → ℕ → ℕ → ℕ → List (List ℕ) → Option ℕ
eliminate zero col rows cols rank mat = some rank
eliminate (suc left) col rows cols rank mat = find_pivot (rows - rank) rank col mat >>= λ found.
    elim found [
      | none ↦ eliminate left (col + 1) rows cols rank mat
      | some pivot ↦ swap_rows rank pivot mat >>= λ swapped.
          clear_column rows 0 cols rank col swapped >>= λ cleared.
          eliminate left (col + 1) rows cols (rank + 1) cleared
    ]

-- `_matrix_rank`.
unfoldable pub matrix_rank : List (List ℕ) → ℕ → ℕ → Option ℕ
matrix_rank mat rows cols = eliminate cols 0 rows cols 0 mat
