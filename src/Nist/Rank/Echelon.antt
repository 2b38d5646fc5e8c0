-- ===== src/Nist/Rank/Echelon.antt =====
-- Row operations of `_matrix_rank` of modules/trng/tools/nist_sts.py towards reduced echelon form.
use risc_v_so_c.Base.{
  ℕ, ◌+◌, ◌≤◌, ◌<◌, ◌≡◌, ◌≢◌, ◌∙◌, ap, arith, Bool-cases, inl, inr, ◌==◌, bit_xor,
}
use mathlib.Core.Path.{ap₂}
use risc_v_so_c.Base.Bits.{xor-lt}
use risc_v_so_c.Base.Xor.{xor_zero}
use risc_v_so_c.Nist.Rank.Solutions.{cleared-cases, cleared_self}
use risc_v_so_c.Nist.Rank.Rows.{Entries, swapped, cleared}

module _ (rows cols : ℕ) where
  pub record IsBits (M : Entries) : Type 0 where
    pub small : (r c : ℕ) → r < rows → c < cols → M r c < 2

  -- Each of the first `rank` rows has a 1 in a column below `upto` where all other rows have 0, and the
  -- rows behind them have 0 in all those columns.
  pub record IsEchelon (rank upto : ℕ) (M : Entries) : Type 0 where
    pub pivot :
        (i : ℕ)
        → i < rank
        → (p : ℕ) × (p < upto) × (M i p ≡ 1) × ((r : ℕ) → r < rows → r ≢ i → M r p ≡ 0)
    pub zeros : (r c : ℕ) → rank ≤ r → r < rows → c < upto → M r c ≡ 0

  pub swapped-IsBits :
      (a b : ℕ) (M : Entries) → a < rows → b < rows → IsBits M → IsBits (swapped a b M)
  swapped-IsBits a b M h k bits = record {
    small = λ r c lt lt'. ground (arith, bits.small a c, bits.small b c, bits.small r c);
  }

  pub cleared-IsBits :
      (k col : ℕ) (M : Entries) → k < rows → IsBits M → IsBits (cleared 0 rows k col M)
  cleared-IsBits k col M h bits = record {
    small = λ r c lt lt'. elim (cleared-cases rows cols k col M r lt) [
      | inl (_, _, e) ↦
          rw (e c) (xor-lt 1 (M r c) (M k c) (bits.small r c lt lt') (bits.small k c h lt'))
      | inr (_, e) ↦ rw (e c) (bits.small r c lt lt')
    ];
  }

  pub skipped-IsEchelon :
      (rank col : ℕ) (M : Entries)
      → IsEchelon rank col M
      → IsBits M
      → col < cols
      → ((k : ℕ) → rank ≤ k → k < rows → M k col ≢ 1)
      → IsEchelon rank (col + 1) M
  skipped-IsEchelon rank col M f bits h none_below = record {
    pivot = λ i lt. let (p, below, one, others) = f.pivot i lt in (p, omega arith, one, others);
    zeros = λ r c ge lt lt'. elim (Bool-cases (c == col)) [
      | inl here ↦
          let e : c ≡ col = ground arith in
          rw e (ground (arith, none_below r ge lt, bits.small r col lt h))
      | inr there ↦ f.zeros r c ge lt (ground arith)
    ];
  }

  pub swapped-IsEchelon :
      (rank p col : ℕ) (M : Entries)
      → IsEchelon rank col M
      → rank ≤ p
      → p < rows
      → IsEchelon rank col (swapped rank p M)
  swapped-IsEchelon rank p col M f h k = record {
    pivot = λ i lt.
        let (q, below, one, others) = f.pivot i lt in
        (q, below, ground arith, λ r lt' ne. ground (arith, others r, others rank, others p));
    zeros = λ r c ge lt lt'. ground (arith, f.zeros r c, f.zeros rank c, f.zeros p c);
  }

  -- A 1 in the next row, and its column cleared: one more pivot.
  pub cleared-IsEchelon :
      (rank col : ℕ) (M : Entries)
      → IsEchelon rank col M
      → IsBits M
      → rank < rows
      → col < cols
      → M rank col ≡ 1
      → IsEchelon (rank + 1) (col + 1) (cleared 0 rows rank col M)
  cleared-IsEchelon rank col M f bits h k one = record {
    pivot = λ i lt. elim (Bool-cases (i == rank)) [
      | inl last ↦
          let e : i ≡ rank = ground arith in
          rw e (
            col,
            omega arith,
            cleared_self rows cols rank col M col ∙ one,
            λ r lt' ne. column r lt' ne,
          )
      | inr earlier ↦
          let (p, below, first, others) = f.pivot i (ground arith) in
          let flat : M rank p ≡ 0 = others rank h (λ q. ground arith) in
          (
            p,
            omega arith,
            unchanged i p (ground arith) flat ∙ first,
            λ r lt' ne. unchanged r p lt' flat ∙ others r lt' ne,
          )
    ];
    zeros = λ r c ge lt lt'. elim (Bool-cases (c == col)) [
      | inl here ↦ let e : c ≡ col = ground arith in rw e (column r lt (λ q. omega arith))
      | inr there ↦
          let flat : M rank c ≡ 0 = f.zeros rank c (omega arith) h (ground arith) in
          unchanged r c lt flat ∙ f.zeros r c (omega arith) lt (ground arith)
    ];
  }
    where
      unchanged : (r c : ℕ) → r < rows → M rank c ≡ 0 → cleared 0 rows rank col M r c ≡ M r c
      unchanged r c lt flat = elim (cleared-cases rows cols rank col M r lt) [
        | inl (_, _, e) ↦ e c ∙ ap (bit_xor (M r c)) flat ∙ xor_zero (M r c)
        | inr (_, e) ↦ e c
      ]

      column : (r : ℕ) → r < rows → r ≢ rank → cleared 0 rows rank col M r col ≡ 0
      column r lt ne = elim (cleared-cases rows cols rank col M r lt) [
        | inl (_, same, e) ↦ e col ∙ ap₂ (λ a b. bit_xor a b) same one
        | inr (why, e) ↦ e col ∙ ground (arith, bits.small r col lt k)
      ]
