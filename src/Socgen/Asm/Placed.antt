-- ===== src/Socgen/Asm/Placed.antt =====
-- socgen/asm.py: the words of an `Assembler` stand at the addresses that its branches and labels
-- hold, after any sequence of calls.
use mathlib.Core.Path.{subst}
use risc_v_so_c.Base.{
  ℕ, suc, ◌+◌, ◌*◌, ◌%◌, ◌^◌, ◌≤◌, ◌<◌, ◌≡◌, refl, sym, arith, Bool-cases, inl, inr, List, [], ◌∷◌,
  ◌++◌, length, length-append, All, low,
}
use risc_v_so_c.Base.Text.{Text}
use risc_v_so_c.Base.Dict.{Dict, text_key, contains, put-All}
use risc_v_so_c.Base.Results.{ok, ok-injective}
use risc_v_so_c.Socgen.Asm.{Register, Kind, Entry, word, branch, Assembler, pc, label, append, emit}

-- From index `i` on, a word has 32 bits and a branch holds its own address.
abbrev pub PlacedFrom : ℕ → List Entry → Type 0
PlacedFrom i [] = Unit
PlacedFrom i (word w ∷ es) = (w < 2 ^ 32) × PlacedFrom (suc i) es
PlacedFrom i (branch kind rs1 rs2 target at_pc ∷ es) = (at_pc ≡ i * 4) × PlacedFrom (suc i) es

-- An address of one of the first `n` words, or of the end behind them.
abbrev pub IsAddress : ℕ → ℕ → Type 0
IsAddress n address = (address % 4 ≡ 0) × (address ≤ n * 4)

pub record IsPlaced (a : Assembler) : Type 0 where
  pub placed : PlacedFrom 0 a.words
  pub targets : All (λ (entry : Text × ℕ). IsAddress (length a.words) entry.1) a.labels

PlacedFrom-append :
    (i : ℕ) (es : List Entry) (e : Entry)
    → PlacedFrom i es
    → PlacedFrom (i + length es) (e ∷ [])
    → PlacedFrom i (es ++ e ∷ [])
PlacedFrom-append i [] e p q = subst (λ j. PlacedFrom j (e ∷ [])) (omega arith) q
PlacedFrom-append i (word w ∷ es) e (p, ps) q =
    (p, PlacedFrom-append (suc i) es e ps (subst (λ j. PlacedFrom j (e ∷ [])) (omega arith) q))
PlacedFrom-append i (branch k x y t at_pc ∷ es) e (p, ps) q =
    (p, PlacedFrom-append (suc i) es e ps (subst (λ j. PlacedFrom j (e ∷ [])) (omega arith) q))

more_words :
    (n : ℕ) (d : Dict Text ℕ)
    → All (λ (entry : Text × ℕ). IsAddress n entry.1) d
    → All (λ (entry : Text × ℕ). IsAddress (n + 1) entry.1) d
more_words n [] t = t
more_words n ((name, address) ∷ d) ((p, q), ts) = ((p, omega arith), more_words n d ts)

append-IsPlaced :
    (e : Entry) (a : Assembler)
    → IsPlaced a
    → PlacedFrom (length a.words) (e ∷ [])
    → IsPlaced (append e a)
append-IsPlaced e a p q = record {
  placed =
      PlacedFrom-append 0 a.words e p.placed (subst (λ j. PlacedFrom j (e ∷ [])) (omega arith) q);
  targets =
      subst (λ n. All (λ (entry : Text × ℕ). IsAddress n entry.1) a.labels)
        (sym (length-append a.words (e ∷ []))) (more_words (length a.words) a.labels p.targets);
}

pub emit-IsPlaced : (w : ℕ) (a : Assembler) → IsPlaced a → IsPlaced (emit w a)
unfolding emit
emit-IsPlaced w a p = append-IsPlaced (word (low 32 w)) a p (omega arith, tt)

pub branch-IsPlaced :
    (kind : Kind) (rs1 rs2 : Register) (target : Text) (a : Assembler)
    → IsPlaced a
    → IsPlaced (append (branch kind rs1 rs2 target (pc a)) a)
branch-IsPlaced kind rs1 rs2 target a p =
    append-IsPlaced (branch kind rs1 rs2 target (pc a)) a p (refl, tt)

pub label-IsPlaced :
    (name : Text) (a a' : Assembler) → IsPlaced a → label name a ≡ ok a' → IsPlaced a'
unfolding label
label-IsPlaced name a a' p h = elim (Bool-cases (contains a.labels name)) [
  | inl twice ↦ absurd (cc (rw twice at h))
  | inr new ↦ subst IsPlaced (ok-injective (rw new at h)) (record {
    placed = p.placed;
    targets =
        put-All (IsAddress (length a.words)) a.labels name (pc a) p.targets
          (omega arith, omega arith);
  })
]
