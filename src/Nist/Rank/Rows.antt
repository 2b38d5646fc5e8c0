-- ===== src/Nist/Rank/Rows.antt =====
-- What the loops of modules/trng/tools/nist_sts.py's `_matrix_rank` do to the entries of the matrix.
use risc_v_so_c.Base.{
  ℕ, zero, suc, ◌+◌, ◌≤◌, ◌<◌, ◌≡◌, ◌≢◌, ◌⊎◌, refl, ◌∙◌, ap, arith, Bool-cases, inl, inr, not, ◌&&◌,
  ltb, leb, ◌==◌, if◌then◌else◌, none, some, List, [], ◌∷◌, length, get_elem?, set, length-set,
  get_elem?-set_self, get_elem?-set_ne, bit_xor,
}
use risc_v_so_c.Base.Options.{◌>>=◌}
use risc_v_so_c.Nist.Rank.{cell, find_pivot, swap_rows, xor_row, clear_row, clear_column}

-- A matrix, by its entries.
abbrev pub Entries : Type 0
Entries = ℕ → ℕ → ℕ

-- Row `b` in place `a`, and row `a` in place `b`.
abbrev pub swapped : ℕ → ℕ → Entries → Entries
swapped a b M r c = if r == b then M a c else if r == a then M b c else M r c

-- Row `k` added to each row from `low` on and below `high` that has a 1 in column `col`, but not to itself.
abbrev pub cleared : ℕ → ℕ → ℕ → ℕ → Entries → Entries
cleared low high k col M r c =
    if leb low r && ltb r high && not (r == k) && M r col == 1
    then bit_xor (M r c) (M k c)
    else M r c

module _ (rows cols : ℕ) where
  abbrev pub IsRow : List ℕ → (ℕ → ℕ) → Type 0
  IsRow row f = (c : ℕ) → c < cols → get_elem? row c ≡ some (f c)

  pub record IsMatrix (mat : List (List ℕ)) (M : Entries) : Type 0 where
    pub tall : length mat ≡ rows
    pub at : (r : ℕ) → r < rows → (row : List ℕ) × (get_elem? mat r ≡ some row) × IsRow row (M r)

  same_entries :
      {mat : List (List ℕ)} {M N : Entries}
      → IsMatrix mat M
      → ((r c : ℕ) → r < rows → c < cols → M r c ≡ N r c)
      → IsMatrix mat N
  same_entries m same = record {
    tall = m.tall;
    at = λ r h.
        let (row, e, is) = m.at r h in (row, e, λ c k. is c k ∙ ap (λ v. some v) (same r c h k));
  }

  cell-at :
      {mat : List (List ℕ)} {M : Entries} (r c : ℕ)
      → IsMatrix mat M
      → r < rows
      → c < cols
      → cell mat r c ≡ some (M r c)
  unfolding cell
  cell-at r c m h k = let (row, e, is) = m.at r h in rw (e, ◌>>=◌) (is c k)

  set-IsMatrix :
      {mat : List (List ℕ)} {M : Entries} (r : ℕ) (row : List ℕ) (f : ℕ → ℕ)
      → IsMatrix mat M
      → r < rows
      → IsRow row f
      → IsMatrix (set mat r row) (λ k c. if k == r then f c else M k c)
  set-IsMatrix {mat} {M} r row f m h is = record {
    tall = length-set mat r row ∙ m.tall;
    at = λ k lt. elim (Bool-cases (k == r)) [
      | inl same ↦
          let e : k ≡ r = ground arith in
          (
            row,
            rw e (get_elem?-set_self mat r row (omega (arith, m.tall))),
            λ c lt'. rw same (is c lt'),
          )
      | inr other ↦
          let (old, e, was) = m.at k lt in
          let ne : r ≢ k = λ p. ground arith in
          (old, get_elem?-set_ne mat r k row ne ∙ e, λ c lt'. rw other (was c lt'))
    ];
  }

  pub swap_rows-IsMatrix :
      {mat : List (List ℕ)} {M : Entries} (a b : ℕ)
      → IsMatrix mat M
      → a < rows
      → b < rows
      → (m : List (List ℕ)) × (swap_rows a b mat ≡ some m) × IsMatrix m (swapped a b M)
  unfolding swap_rows
  swap_rows-IsMatrix {mat} {M} a b m h k =
      let (x, e, is) = m.at a h in
      let (y, e', is') = m.at b k in
      (
        set (set mat a y) b x,
        rw (e, e', ◌>>=◌) refl,
        set-IsMatrix b x (M a) (set-IsMatrix a y (M b) m h is') k is,
      )

  xor_row-IsRow :
      (left c : ℕ) (x y : List ℕ) (f g : ℕ → ℕ)
      → IsRow x f
      → IsRow y g
      → c + left ≡ cols
      → (row : List ℕ) × (xor_row left c x y ≡ some row)
        × ((k : ℕ) → k < left → get_elem? row k ≡ some (bit_xor (f (c + k)) (g (c + k))))
  unfolding xor_row
  xor_row-IsRow zero c x y f g p q e = ([], refl, λ k h. absurd (omega arith))
  xor_row-IsRow (suc left) c x y f g p q e =
      let (rest, done, at) = xor_row-IsRow left (c + 1) x y f g p q (omega arith) in
      let first = p c (omega arith) in
      let second = q c (omega arith) in
      (bit_xor (f c) (g c) ∷ rest, rw (first, second, done, ◌>>=◌) refl, shifted rest at)
    where
      shifted :
          (rest : List ℕ)
          → ((k : ℕ) → k < left → get_elem? rest k ≡ some (bit_xor (f (c + 1 + k)) (g (c + 1 + k))))
          → (k : ℕ) → k < suc left
          → get_elem? (bit_xor (f c) (g c) ∷ rest) k ≡ some (bit_xor (f (c + k)) (g (c + k)))
      shifted rest at zero h = let e : c + 0 ≡ c = omega arith in rw e refl
      shifted rest at (suc k) h =
          let e : c + suc k ≡ c + 1 + k = omega arith in rw e (at k (omega arith))

  clear_row-IsMatrix :
      {mat : List (List ℕ)} {M : Entries} (rank col r : ℕ)
      → IsMatrix mat M
      → rank < rows
      → r < rows
      → col < cols
      → (m : List (List ℕ)) × (clear_row cols rank col r mat ≡ some m)
        × IsMatrix m (cleared r (r + 1) rank col M)
  unfolding clear_row
  clear_row-IsMatrix {mat} {M} rank col r m h k l =
      let b = cell-at r col m k l in
      let (x, e, is) = m.at r k in
      let (y, e', is') = m.at rank h in
      let (row, done, at) = xor_row-IsRow cols 0 x y (M r) (M rank) is is' (omega arith) in
      elim (Bool-cases (not (r == rank) && M r col == 1)) [
        | inl add ↦ (
          set mat r row,
          rw (b, add, e, e', done, ◌>>=◌) refl,
          same_entries
              (set-IsMatrix r row (λ c. bit_xor (M r c) (M rank c)) m k
                λ c lt. let z : 0 + c ≡ c = omega arith in rw z at (at c lt))
              λ k c _ _. ground arith,
        )
        | inr leave ↦ (mat, rw (b, leave, ◌>>=◌) refl, same_entries m λ k c _ _. ground arith)
      ]

  pub clear_column-IsMatrix :
      (left r rank col : ℕ) {mat : List (List ℕ)} {M : Entries}
      → IsMatrix mat M
      → rank < rows
      → r + left ≤ rows
      → col < cols
      → (m : List (List ℕ)) × (clear_column left r cols rank col mat ≡ some m)
        × IsMatrix m (cleared r (r + left) rank col M)
  unfolding clear_column
  clear_column-IsMatrix zero r rank col {mat} m h k l =
      (mat, refl, same_entries m λ k c _ _. ground arith)
  clear_column-IsMatrix (suc left) r rank col {mat} {M} m h k l =
      let (next, e, m') = clear_row-IsMatrix rank col r m h (omega arith) l in
      let (last, e', m'') = clear_column-IsMatrix left (r + 1) rank col m' h (omega arith) l in
      (last, rw (e, ◌>>=◌) e', same_entries m'' λ k c _ _. ground arith)

  -- The first row with a 1 in the column, from `r` on, or none of `left` rows.
  pub find_pivot-cases :
      (left r col : ℕ) {mat : List (List ℕ)} {M : Entries}
      → IsMatrix mat M
      → r + left ≤ rows
      → col < cols
      → ((find_pivot left r col mat ≡ some none) × ((k : ℕ) → r ≤ k → k < r + left → M k col ≢ 1))
        ⊎ ((p : ℕ) × (find_pivot left r col mat ≡ some (some p))
            × (r ≤ p)
            × (p < r + left)
            × (M p col ≡ 1))
  unfolding find_pivot
  find_pivot-cases zero r col m h k = inl (refl, λ k ge lt. absurd (omega arith))
  find_pivot-cases (suc left) r col {mat} {M} m h l =
      let b = cell-at r col m (omega arith) l in
      elim (Bool-cases (M r col == 1)) [
        | inl one ↦
            inr (r, rw (find_pivot, b, one, ◌>>=◌) refl, omega arith, omega arith, ground arith)
        | inr other ↦ elim (find_pivot-cases left (r + 1) col m (omega arith) l) [
          | inl (e, none_below) ↦ inl (
            rw (find_pivot, b, other, ◌>>=◌) e,
            λ k ge lt. elim (Bool-cases (k == r)) [
              | inl here ↦ let e : k ≡ r = ground arith in rw e (λ q. ground arith)
              | inr there ↦ none_below k (ground arith) (omega arith)
            ],
          )
          | inr (p, e, ge, lt, one) ↦
              inr (p, rw (find_pivot, b, other, ◌>>=◌) e, omega arith, omega arith, one)
        ]
      ]
