-- ===== src/Nist/Runs.antt =====
-- modules/trng/tools/nist_sts.py: `test_longest_run` finds the longest run of ones of a block, and counts
-- each block once.
use risc_v_so_c.Base.{
  ℕ, zero, suc, ◌+◌, ◌≤◌, ◌≡◌, ◌⊎◌, ==_iff, refl, ◌∙◌, ap, sym, arith, max, Bool-cases, inl, inr,
  ◌==◌, if◌then◌else◌, List, [], ◌∷◌, ◌++◌, replicate,
}
use mathlib.Core.List.{append-nil, append_assoc}
use mathlib.Core.Path.{subst}
use risc_v_so_c.Nist.{longest_run}

longest_run-le : (run most : ℕ) (bits : List ℕ) → most ≤ longest_run run most bits
unfolding longest_run
longest_run-le run most [] = omega arith
longest_run-le run most (b ∷ bits) =
    let run' : ℕ = if b == 1 then run + 1 else 0 in
    omega (arith, longest_run-le run' (max most run') bits)

longest_run-ones :
    (run most n : ℕ) (ys : List ℕ)
    → run ≤ most
    → run + n ≤ longest_run run most (replicate n 1 ++ ys)
unfolding longest_run
longest_run-ones run most zero ys h = omega (arith, longest_run-le run most ys)
longest_run-ones run most (suc n) ys h =
    omega (arith, longest_run-ones (run + 1) (max most (run + 1)) n ys (omega arith))

longest_run-bound :
    (run most : ℕ) (xs : List ℕ) (n : ℕ) (ys : List ℕ)
    → n ≤ longest_run run most (xs ++ (replicate n 1 ++ ys))
unfolding longest_run
longest_run-bound run most [] zero ys = omega arith
longest_run-bound run most [] (suc n) ys =
    omega (arith, longest_run-ones (run + 1) (max most (run + 1)) n ys (omega arith))
longest_run-bound run most (x ∷ xs) n ys =
    let run' : ℕ = if x == 1 then run + 1 else 0 in longest_run-bound run' (max most run') xs n ys

-- A run of `n` ones stands somewhere in the bits.
abbrev pub HasRun : ℕ → List ℕ → Type 0
HasRun n bits = (xs : List ℕ) × (ys : List ℕ) × (bits ≡ xs ++ (replicate n 1 ++ ys))

HasRun-append : (n : ℕ) (bits more : List ℕ) → HasRun n bits → HasRun n (bits ++ more)
HasRun-append n bits more (xs, ys, e) = (
  xs,
  ys ++ more,
  ap (λ l. l ++ more) e
      ∙ (append_assoc xs (replicate n 1 ++ ys) more
          ∙ ap (λ l. xs ++ l) (append_assoc (replicate n 1) ys more)),
)

abbrev ones : ℕ → List ℕ
ones n = replicate n 1

ones-snoc : (n : ℕ) → ones n ++ 1 ∷ [] ≡ ones (suc n)
ones-snoc zero = refl
ones-snoc (suc n) = ap (λ l. 1 ∷ l) (ones-snoc n)

max-cases : (a b : ℕ) → (max a b ≡ a) ⊎ (max a b ≡ b)
max-cases a b = ground arith

HasRun-max : (a b : ℕ) (bits : List ℕ) → HasRun a bits → HasRun b bits → HasRun (max a b) bits
HasRun-max a b bits h k = elim (max-cases a b) [
  | inl e ↦ subst (λ n. HasRun n bits) (sym e) h
  | inr e ↦ subst (λ n. HasRun n bits) (sym e) k
]

abbrev next : ℕ → ℕ → ℕ
next run b = if b == 1 then run + 1 else 0

-- One bit further, the bits end in the next run.
ends :
    (run b : ℕ) (past ps : List ℕ)
    → past ≡ ps ++ ones run
    → (qs : List ℕ) × (past ++ b ∷ [] ≡ qs ++ ones (next run b))
ends run b past ps e = elim (Bool-cases (b == 1)) [
  | inl one ↦
      let same : b ≡ 1 = (==_iff b 1).0 one in
      let grown : run + 1 ≡ suc run = omega arith in
      (ps, rw (one, grown, same, e, append_assoc ps (ones run) (1 ∷ []), ones-snoc run) refl)
  | inr other ↦ (past ++ b ∷ [], rw other (sym (append-nil (past ++ b ∷ []))))
]

-- The bits so far end in the run; the longest so far is one of theirs.
longest_run-HasRun :
    (run most : ℕ) (past bits ps : List ℕ)
    → past ≡ ps ++ ones run
    → HasRun most past
    → HasRun (longest_run run most bits) (past ++ bits)
unfolding longest_run
longest_run-HasRun run most past [] ps e h = HasRun-append most past [] h
longest_run-HasRun run most past (b ∷ bits) ps e h =
    let (qs, e') = ends run b past ps e in
    let run' = next run b in
    let grown : HasRun run' (past ++ b ∷ []) =
      (qs, [], e' ∙ ap (λ l. qs ++ l) (sym (append-nil (ones run')))) in
    let kept = HasRun-max most run' (past ++ b ∷ []) (HasRun-append most past (b ∷ []) h) grown in
    subst (HasRun (longest_run run' (max most run') bits)) (append_assoc past (b ∷ []) bits)
      (longest_run-HasRun run' (max most run') (past ++ b ∷ []) bits qs e' kept)

-- The loop over a block finds the longest run of ones: a run of that length stands in the block, and
-- a run of ones in the block is no longer.
pub longest_run-HasRun-le :
    (bits : List ℕ) (n : ℕ)
    → HasRun n bits
    → HasRun (longest_run 0 0 bits) bits × (n ≤ longest_run 0 0 bits)
longest_run-HasRun-le bits n (xs, ys, e) = (
  longest_run-HasRun 0 0 [] bits [] refl ([], [], refl),
  subst (λ l. n ≤ longest_run 0 0 l) (sym e) (longest_run-bound 0 0 xs n ys),
)
