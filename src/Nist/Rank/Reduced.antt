-- ===== src/Nist/Rank/Reduced.antt =====
-- `_matrix_rank` of modules/trng/tools/nist_sts.py brings a matrix over the field of two elements into
-- reduced echelon form.
use risc_v_so_c.Base.{
  ℕ, zero, suc, ◌+◌, ◌-◌, ◌≤◌, ◌<◌, ◌≡◌, ◌↔◌, refl, arith, Bool, inl, inr, some, List,
}
use mathlib.Core.Path.{subst}
use risc_v_so_c.Nist.Rank.{swap_rows, clear_column, eliminate, matrix_rank}
use risc_v_so_c.Nist.Rank.Solutions.{Solves, swapped-Solves, cleared-Solves}
use risc_v_so_c.Nist.Rank.Echelon.{
  IsBits, IsEchelon, swapped-IsBits, cleared-IsBits, skipped-IsEchelon, swapped-IsEchelon,
  cleared-IsEchelon,
}
use risc_v_so_c.Nist.Rank.Rows.{
  Entries, swapped, cleared, IsMatrix, swap_rows-IsMatrix, clear_column-IsMatrix, find_pivot-cases,
}

module _ (rows cols : ℕ) where
  -- What the elimination reaches from a matrix.
  pub record Reduced (M : Entries) (v : ℕ) : Type 0 where
    pub final : Entries
    pub echelon : IsEchelon rows cols v cols final
    pub same_solutions : (x : ℕ → Bool) → Solves rows cols final x ↔ Solves rows cols M x

  from_before :
      {M N : Entries} {v : ℕ}
      → ((x : ℕ → Bool) → Solves rows cols N x ↔ Solves rows cols M x)
      → Reduced N v
      → Reduced M v
  from_before same r = record {
    final = r.final;
    echelon = r.echelon;
    same_solutions = λ x.
        (λ s. (same x).0 ((r.same_solutions x).0 s), λ s. (r.same_solutions x).1 ((same x).1 s));
  }

  -- The rows from `rank` on are searched, row `p` is taken, and its column is cleared.
  one_pivot :
      (rank p col : ℕ) (mat : List (List ℕ)) (M : Entries)
      → IsMatrix rows cols mat M
      → IsBits rows cols M
      → IsEchelon rows cols rank col M
      → rank ≤ p
      → p < rows
      → col < cols
      → M p col ≡ 1
      → (mat₁ mat₂ : List (List ℕ)) × (N : Entries) × (swap_rows rank p mat ≡ some mat₁)
        × (clear_column rows 0 cols rank col mat₁ ≡ some mat₂)
        × IsMatrix rows cols mat₂ N
        × IsBits rows cols N
        × IsEchelon rows cols (rank + 1) (col + 1) N
        × ((x : ℕ → Bool) → Solves rows cols N x ↔ Solves rows cols M x)
  one_pivot rank p col mat M m bits f ge inside h one =
      let next : rank < rows = omega arith in
      let (mat₁, e₁, m₁) = swap_rows-IsMatrix rows cols rank p m next inside in
      let S = swapped rank p M in
      let first : S rank col ≡ 1 = ground arith in
      let (mat₂, e₂, m₂) =
        clear_column-IsMatrix rows cols rows 0 rank col m₁ next (omega arith) h in
      let all_rows : 0 + rows ≡ rows = omega arith in
      let bits₁ = swapped-IsBits rows cols rank p M next inside bits in
      (
        mat₁,
        mat₂,
        cleared 0 rows rank col S,
        e₁,
        e₂,
        subst (λ n. IsMatrix rows cols mat₂ (cleared 0 n rank col S)) all_rows m₂,
        cleared-IsBits rows cols rank col S next bits₁,
        cleared-IsEchelon rows cols rank col S
            (swapped-IsEchelon rows cols rank p col M f ge inside) bits₁ next h first,
        λ x. (
          λ s.
              (swapped-Solves rows cols rank p M x next inside).0
                ((cleared-Solves rows cols rank col S x next).0 s),
          λ s.
              (cleared-Solves rows cols rank col S x next).1
                ((swapped-Solves rows cols rank p M x next inside).1 s),
        ),
      )

  eliminate-Reduced :
      (left col rank : ℕ) (mat : List (List ℕ)) (M : Entries)
      → IsMatrix rows cols mat M
      → IsBits rows cols M
      → IsEchelon rows cols rank col M
      → col + left ≡ cols
      → rank ≤ rows
      → (v : ℕ) × (eliminate left col rows cols rank mat ≡ some v)
        × (v ≤ rows)
        × (v ≤ rank + left)
        × Reduced M v
  unfolding eliminate
  eliminate-Reduced zero col rank mat M m bits f e h =
      let there : col ≡ cols = omega arith in
      (
        rank,
        refl,
        h,
        omega arith,
        record {
          final = M;
          echelon = subst (λ c. IsEchelon rows cols rank c M) there f;
          same_solutions = λ x. (λ s. s, λ s. s);
        },
      )
  eliminate-Reduced (suc left) col rank mat M m bits f e h =
      elim (find_pivot-cases rows cols (rows - rank) rank col m (omega arith) (omega arith)) [
        | inl (missing, none_below) ↦
            let f' =
              skipped-IsEchelon rows cols rank col M f bits (omega arith)
                λ k ge lt. none_below k ge (omega arith) in
            let (v, run, few, few', r) =
              eliminate-Reduced left (col + 1) rank mat M m bits f' (omega arith) h in
            (v, rw (missing, eliminate) run, few, omega arith, r)
        | inr (p, found, ge, lt, one) ↦
            let (mat₁, mat₂, N, e₁, e₂, m₂, bits₂, f₂, same) =
              one_pivot rank p col mat M m bits f ge (omega arith) (omega arith) one in
            let (v, run, few, few', r) =
              eliminate-Reduced left (col + 1) (rank + 1) mat₂ N m₂ bits₂ f₂ (omega arith)
                (omega arith) in
            (v, rw (found, e₁, e₂, eliminate) run, few, omega arith, from_before same r)
      ]

-- On a matrix of `rows` rows of `cols` bits the elimination raises no IndexError. It gives a `v`, at most the
-- number of rows and at most that of columns, for which there is a matrix with the same solutions, modulo
-- 2, in reduced echelon form: each of its first `v` rows has a 1 in a column where every other row has 0,
-- and the rows behind them have 0 in all columns.
pub matrix_rank-Reduced :
    (rows cols : ℕ) (mat : List (List ℕ)) (M : Entries)
    → IsMatrix rows cols mat M
    → IsBits rows cols M
    → (v : ℕ) × (matrix_rank mat rows cols ≡ some v)
      × (v ≤ rows)
      × (v ≤ cols)
      × Reduced rows cols M v
unfolding matrix_rank
matrix_rank-Reduced rows cols mat M m bits =
    let begun : IsEchelon rows cols 0 0 M = record {
      pivot = λ i lt. absurd (omega arith);
      zeros = λ r c _ _ lt. absurd (omega arith);
    } in
    let (v, run, few, few', r) =
      eliminate-Reduced rows cols cols 0 0 mat M m bits begun (omega arith) (omega arith) in
    (v, run, few, omega arith, r)
