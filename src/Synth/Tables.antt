-- ===== src/Synth/Tables.antt =====
-- modules/synth/sim/gen_hex.py: the two tables and what the files hold of them.
use risc_v_so_c.Base.{
  ℕ, zero, suc, ◌+◌, ◌^◌, ◌<◌, ◌≡◌, ◌↔◌, refl, ap, arith, Option, some, List, [], ◌∷◌, length,
  get_elem?, All,
}
use risc_v_so_c.Base.Bits.{wrap-lt}
use risc_v_so_c.Base.Int.{ℤ, wrap}
use risc_v_so_c.Base.Options.{◌>>=◌}
use risc_v_so_c.Base.Floats.{Floats}
use risc_v_so_c.Synth.{
  word_16, hex_lines, sine_value, sine_entries, gen_sine_rom, note_value, note_entries,
  gen_note_phases, to_q15,
}
use risc_v_so_c.Synth.Words.{
  signed_16, Fits, word_16-lt, signed_16-word_16, saturate-Fits, Holds, hex_lines-Holds,
}

-- A table of `count` entries, entry `k` being the word of what `value` gives at `first + k`.
pub record IsTable (value : ℕ → Option ℤ) (word : ℤ → ℕ) (first count : ℕ) (entries : List ℕ)
    : Type 0 where
  pub long : length entries ≡ count
  pub at :
      (k : ℕ)
      → k < count
      → (v : ℤ) × (value (first + k) ≡ some v) × (get_elem? entries k ≡ some (word v))

empty : (value : ℕ → Option ℤ) (word : ℤ → ℕ) (first : ℕ) → IsTable value word first 0 []
empty value word first = record { long = refl; at = λ k h. absurd (omega arith) }

next :
    (value : ℕ → Option ℤ) (word : ℤ → ℕ) (first count : ℕ) (v : ℤ) (entries : List ℕ)
    → value first ≡ some v
    → IsTable value word (first + 1) count entries
    → IsTable value word first (suc count) (word v ∷ entries)
next value word first count v entries e t = record { long = ap suc t.long; at = find }
  where
    find :
        (k : ℕ)
        → k < suc count
        → (u : ℤ) × (value (first + k) ≡ some u) × (get_elem? (word v ∷ entries) k ≡ some (word u))
    find zero h = let here : first + 0 ≡ first = omega arith in (v, rw here e, refl)
    find (suc k) h =
        let there : first + suc k ≡ first + 1 + k = omega arith in
        let (u, e', g) = t.at k (omega arith) in (u, rw there e', g)

module _ (F : Floats) where
  open F use {Float, decimal, mul, round}

  sine_entries-IsTable :
      (left i : ℕ)
      → ((k : ℕ) → k < i + left → (v : ℤ) × (sine_value F k ≡ some v))
      → (entries : List ℕ) × (sine_entries F left i ≡ some entries)
        × IsTable (sine_value F) word_16 i left entries
        × All (λ v. v < 16 ^ 4) entries
  unfolding sine_entries
  sine_entries-IsTable zero i h = ([], refl, empty _ _ _, tt)
  sine_entries-IsTable (suc left) i h =
      let (v, e) = h i (omega arith) in
      let (rest, e', t, small) = sine_entries-IsTable left (i + 1) (λ k lt. h k (omega arith)) in
      (word_16 v ∷ rest, rw (e, e', ◌>>=◌) refl, next _ _ i left v rest e t, (word_16-lt v, small))

  note_entries-IsTable :
      (fs left n : ℕ)
      → ((k : ℕ) → k < n + left → (v : ℤ) × (note_value F fs k ≡ some v))
      → (entries : List ℕ) × (note_entries F fs left n ≡ some entries)
        × IsTable (note_value F fs) (wrap 32) n left entries
        × All (λ v. v < 16 ^ 8) entries
  unfolding note_entries
  note_entries-IsTable fs zero n h = ([], refl, empty _ _ _, tt)
  note_entries-IsTable fs (suc left) n h =
      let (v, e) = h n (omega arith) in
      let (rest, e', t, small) = note_entries-IsTable fs left (n + 1) (λ k lt. h k (omega arith)) in
      (wrap 32 v ∷ rest, rw (e, e', ◌>>=◌) refl, next _ _ n left v rest e t, (wrap-lt 32 v, small))

  -- Where the floating-point operations are defined at the entries, `gen_sine_rom` returns 1024 entries, the
  -- 16-bit words of the rounded and saturated sines, and `gen_note_phases` 128, the rounded phase
  -- increments modulo 2 ^ 32. The lines of the two files have 4 and 8 digits, and read in base 16 as the
  -- entries.
  pub hex_lines-tables :
      (fs : ℕ)
      → ((k : ℕ) → k < 1024 → (v : ℤ) × (sine_value F k ≡ some v))
      → ((k : ℕ) → k < 128 → (v : ℤ) × (note_value F fs k ≡ some v))
      → (sine phases : List ℕ) × (gen_sine_rom F ≡ some sine)
        × (gen_note_phases F fs ≡ some phases)
        × IsTable (sine_value F) word_16 0 1024 sine
        × IsTable (note_value F fs) (wrap 32) 0 128 phases
        × Holds 4 sine (hex_lines 2 sine)
        × Holds 8 phases (hex_lines 4 phases)
  unfolding gen_sine_rom gen_note_phases
  hex_lines-tables fs h k =
      let (sine, e, t, small) = sine_entries-IsTable 1024 0 h in
      let (phases, e', t', small') = note_entries-IsTable fs 128 0 k in
      (
        sine,
        phases,
        e,
        e',
        t,
        t',
        hex_lines-Holds 2 3 sine refl small,
        hex_lines-Holds 4 7 phases refl small',
      )

  -- The word of `to_q15` is below 2 ^ 16. As a signed number it is the rounded product with 32768, if and
  -- only if that is at least -32768 and at most 32767.
  pub to_q15-signed :
      (x : Float) (v : ℤ)
      → round (mul x (decimal 32768 0)) ≡ some v
      → (w : ℕ) × (to_q15 F x ≡ some w)
        × (w < 65536)
        × Fits (signed_16 w)
        × ((signed_16 w ≡ v) ↔ Fits v)
  unfolding to_q15
  to_q15-signed x v e =
      let (fits, exact) = saturate-Fits v in
      (
        word_16 v,
        rw (e, ◌>>=◌) refl,
        word_16-lt v,
        rw (signed_16-word_16 v) fits,
        rw (signed_16-word_16 v) exact,
      )
