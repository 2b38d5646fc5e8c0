-- ===== src/Nist/Rank/Solutions.antt =====
-- Row operations of `_matrix_rank` of modules/trng/tools/nist_sts.py keep the solutions over the field of
-- two elements.
use risc_v_so_c.Base.{
  ℕ, zero, suc, ◌+◌, ◌%◌, ◌<◌, ◌≡◌, ◌≢◌, ◌↔◌, ◌⊎◌, refl, sym, ◌∙◌, ap, arith, Bool, Bool-cases, inl,
  inr, not, ◌&&◌, ◌==◌, if◌then◌else◌, bit_xor,
}
use risc_v_so_c.Base.Bits.{xor_digit}
use risc_v_so_c.Nist.Rank.Rows.{Entries, swapped, cleared}

-- The sum of the first `n` entries that `x` selects.
unfoldable pub dot : ℕ → (ℕ → ℕ) → (ℕ → Bool) → ℕ
dot zero f x = 0
dot (suc n) f x = (if x n then f n else 0) + dot n f x

dot-same : (n : ℕ) (f g : ℕ → ℕ) (x : ℕ → Bool) → ((c : ℕ) → f c ≡ g c) → dot n f x ≡ dot n g x
unfolding dot
dot-same zero f g x h = refl
dot-same (suc n) f g x h = rw (h n, dot-same n f g x h) refl

xor_parity : (a b : ℕ) → bit_xor a b % 2 ≡ (a + b) % 2
xor_parity a b = omega (arith, xor_digit a b)

dot-xor :
    (n : ℕ) (f g : ℕ → ℕ) (x : ℕ → Bool)
    → dot n (λ c. bit_xor (f c) (g c)) x % 2 ≡ (dot n f x + dot n g x) % 2
unfolding dot
dot-xor zero f g x = refl
dot-xor (suc n) f g x = ground (arith, xor_parity (f n) (g n), dot-xor n f g x)

module _ (rows cols : ℕ) where
  -- The columns that `x` selects add up to zero, modulo 2.
  pub record Solves (M : Entries) (x : ℕ → Bool) : Type 0 where
    pub even : (r : ℕ) → r < rows → dot cols (M r) x % 2 ≡ 0

  row_even :
      {M : Entries} {x : ℕ → Bool} (r : ℕ) (f : ℕ → ℕ)
      → Solves M x
      → r < rows
      → ((c : ℕ) → M r c ≡ f c)
      → dot cols f x % 2 ≡ 0
  row_even {M} {x} r f s h same = ap (λ n. n % 2) (sym (dot-same cols (M r) f x same)) ∙ s.even r h

  pub swapped-Solves :
      (a b : ℕ) (M : Entries) (x : ℕ → Bool)
      → a < rows
      → b < rows
      → Solves (swapped a b M) x ↔ Solves M x
  swapped-Solves a b M x h k = (
    λ s. record {
      even = λ r lt. elim (Bool-cases (r == a)) [
        | inl first ↦ row_even b (M r) s k (λ c. ground arith)
        | inr other ↦ elim (Bool-cases (r == b)) [
          | inl second ↦ row_even a (M r) s h (λ c. ground arith)
          | inr neither ↦ row_even r (M r) s lt (λ c. ground arith)
        ]
      ];
    },
    λ s. record {
      even = λ r lt. elim (Bool-cases (r == b)) [
        | inl second ↦ row_even a (swapped a b M r) s h (λ c. ground arith)
        | inr other ↦ elim (Bool-cases (r == a)) [
          | inl first ↦ row_even b (swapped a b M r) s k (λ c. ground arith)
          | inr neither ↦ row_even r (swapped a b M r) s lt (λ c. ground arith)
        ]
      ];
    },
  )

  -- A row that has row `k` added to it, and one that is left alone.
  pub cleared-cases :
      (k col : ℕ) (M : Entries) (r : ℕ)
      → r < rows
      → ((r ≢ k) × (M r col ≡ 1) × ((c : ℕ) → cleared 0 rows k col M r c ≡ bit_xor (M r c) (M k c)))
        ⊎ (((r ≡ k) ⊎ (M r col ≢ 1)) × ((c : ℕ) → cleared 0 rows k col M r c ≡ M r c))
  cleared-cases k col M r lt = elim (Bool-cases (not (r == k) && M r col == 1)) [
    | inl added ↦ inl ((λ e. ground arith), ground arith, λ c. ground arith)
    | inr alone ↦ inr (ground arith, λ c. ground arith)
  ]

  pub cleared_self : (k col : ℕ) (M : Entries) (c : ℕ) → cleared 0 rows k col M k c ≡ M k c
  cleared_self k col M c = ground arith

  pub cleared-Solves :
      (k col : ℕ) (M : Entries) (x : ℕ → Bool)
      → k < rows
      → Solves (cleared 0 rows k col M) x ↔ Solves M x
  cleared-Solves k col M x h = (
    λ s. record {
      even = λ r lt. elim (cleared-cases k col M r lt) [
        | inl (_, _, e) ↦ omega (
          arith,
          row_even k (M k) s h (cleared_self k col M),
          row_even r (λ c. bit_xor (M r c) (M k c)) s lt e,
          dot-xor cols (M r) (M k) x,
        )
        | inr (_, e) ↦ row_even r (M r) s lt e
      ];
    },
    λ s. record {
      even = λ r lt. elim (cleared-cases k col M r lt) [
        | inl (_, _, e) ↦ omega (
          arith,
          s.even r lt,
          s.even k h,
          dot-xor cols (M r) (M k) x,
          dot-same cols (cleared 0 rows k col M r) (λ c. bit_xor (M r c) (M k c)) x e,
        )
        | inr (_, e) ↦ row_even r (cleared 0 rows k col M r) s lt (λ c. sym (e c))
      ];
    },
  )
