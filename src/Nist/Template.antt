-- ===== src/Nist/Template.antt =====
-- modules/trng/tools/nist_sts.py: the counts of `test_non_overlapping_template`.
use risc_v_so_c.Base.{
  ℕ, zero, suc, ◌+◌, ◌/◌, ◌≤◌, ◌<◌, ◌≡◌, refl, ◌∙◌, ap, arith, Bool-cases, inl, inr, true, false,
  Option, none, some, List, [], ◌∷◌, length, take, drop, replicate,
}
use risc_v_so_c.Base.Int.{pos, ◌-ℤ◌, ltb_ℤ}
use risc_v_so_c.Base.Text.{text_eq}
use risc_v_so_c.Base.Options.{◌>>=◌}
use risc_v_so_c.Nist.{blocks}
use risc_v_so_c.Nist.Counts.{length-blocks}

-- The default `template`.
abbrev pub default_template : List ℕ
default_template = 0 ∷ 0 ∷ 1 ∷ 0 ∷ 0 ∷ 1 ∷ 0 ∷ 1 ∷ 1 ∷ 1 ∷ []

-- `M`.
abbrev pub block_size : ℕ
block_size = 8

-- The loop over one block, from place `j` and count `w` on; `none` if it is not over in `fuel` rounds.
unfoldable pub template_loop : ℕ → List ℕ → List ℕ → ℕ → ℕ → Option ℕ
unfolding text_eq
template_loop zero template block j w = none
template_loop (suc fuel) template block j w =
    elim (ltb_ℤ (pos block_size -ℤ pos (length template)) (pos j)) [
      | true ↦ some w
      | false ↦ elim (text_eq (take (length template) (drop j block)) template) [
        | true ↦ template_loop fuel template block (j + length template) (w + 1)
        | false ↦ template_loop fuel template block (j + 1) w
      ]
    ]

unfoldable pub template_counts_of : List ℕ → List (List ℕ) → Option (List ℕ)
template_counts_of template [] = some []
template_counts_of template (block ∷ rest) = do
  w ← template_loop (block_size + 2) template block 0 0
  ws ← template_counts_of template rest
  some (w ∷ ws)

-- The list `w`.
unfoldable pub template_counts : List ℕ → List ℕ → Option (List ℕ)
template_counts template bits =
    template_counts_of template (blocks (length bits / block_size) block_size bits)

still_within : (m j : ℕ) → ltb_ℤ (pos block_size -ℤ pos m) (pos j) ≡ false → j + m ≤ block_size
still_within m j h = ground arith

over_at_once : (m : ℕ) → block_size < m → ltb_ℤ (pos block_size -ℤ pos m) (pos 0) ≡ true
over_at_once m h = ground arith

-- A template of one bit or more ends the loop within its fuel.
template_loop-some :
    (fuel : ℕ) (template block : List ℕ) (j w : ℕ)
    → 1 ≤ length template
    → j ≤ block_size
    → block_size < j + fuel
    → (v : ℕ) × (template_loop fuel template block j w ≡ some v)
unfolding template_loop
template_loop-some zero template block j w h p q = absurd (omega arith)
template_loop-some (suc fuel) template block j w h p q =
    elim (Bool-cases (ltb_ℤ (pos block_size -ℤ pos (length template)) (pos j))) [
      | inl over ↦ (w, rw (over, template_loop) refl)
      | inr more ↦
          let inside = still_within (length template) j more in
          elim (Bool-cases (text_eq (take (length template) (drop j block)) template)) [
            | inl same ↦
                let (v, e) =
                  template_loop-some fuel template block (j + length template) (w + 1) h
                    (omega arith) (omega arith) in
                (v, rw (more, same, template_loop) e)
            | inr differs ↦
                let (v, e) =
                  template_loop-some fuel template block (j + 1) w h (omega arith) (omega arith) in
                (v, rw (more, differs, template_loop) e)
          ]
    ]

-- The loops of `test_non_overlapping_template` end, with one count for each whole block, unless the
-- template is empty.
pub template_counts-some :
    (template bits : List ℕ)
    → 1 ≤ length template
    → (w : List ℕ) × (template_counts template bits ≡ some w)
      × (length w ≡ length bits / block_size)
unfolding template_counts template_counts_of
template_counts-some template bits h =
    let n = length bits / block_size in
    let (w, e, long) = counted (blocks n block_size bits) in
    (w, e, long ∙ length-blocks n block_size bits)
  where
    counted :
        (bs : List (List ℕ))
        → (w : List ℕ) × (template_counts_of template bs ≡ some w) × (length w ≡ length bs)
    counted [] = ([], refl, refl)
    counted (b ∷ bs) =
        let (v, e) =
          template_loop-some (block_size + 2) template b 0 0 h (omega arith) (omega arith) in
        let (w, es, long) = counted bs in (v ∷ w, rw (e, es) refl, ap suc long)

template_loop-over :
    (fuel : ℕ) (template block : List ℕ)
    → block_size < length template
    → template_loop (suc fuel) template block 0 0 ≡ some 0
unfolding template_loop
template_loop-over fuel template block h = rw (over_at_once (length template) h, template_loop) refl

template_counts_of-zero :
    (template rest : List ℕ) (n : ℕ)
    → block_size < length template
    → template_counts_of template (blocks n block_size rest) ≡ some (replicate n 0)
unfolding template_counts_of blocks
template_counts_of-zero template rest zero h = refl
template_counts_of-zero template rest (suc n) h =
    rw
      (
        template_loop-over (block_size + 1) template (take block_size rest) h,
        template_counts_of-zero template (drop block_size rest) n h,
      )
      refl

-- A template of more than the eight bits of a block, as the default one of ten bits is, is found
-- nowhere: every count is 0, whatever the bits are.
pub template_counts-zero :
    (template bits : List ℕ)
    → block_size < length template
    → template_counts template bits ≡ some (replicate (length bits / block_size) 0)
unfolding template_counts
template_counts-zero template bits h =
    template_counts_of-zero template bits (length bits / block_size) h
