-- ===== src/Tests/Synth.antt =====
-- The tables over whole numbers.
use risc_v_so_c.Base.{ℕ, ◌<◌, ◌≡◌, ◌↔◌, refl, some, List, [], ◌∷◌}
use risc_v_so_c.Base.Int.{ℤ, pos, negsuc, wrap}
use risc_v_so_c.Base.Text.{codes}
use risc_v_so_c.Base.Hex.{hex_padded, hex_from}
use risc_v_so_c.Synth.{
  saturate, word_16, hex_lines, line_text, write_hex, sine_value, gen_sine_rom, note_value,
  gen_note_phases, to_q15,
}
use risc_v_so_c.Synth.Words.{signed_16, Fits, Holds}
use risc_v_so_c.Synth.Tables.{IsTable, hex_lines-tables, to_q15-signed}
use risc_v_so_c.Tests.Nist.{integers}

words :
    word_16 (negsuc 0) ∷ word_16 (pos 40000) ∷ word_16 (negsuc 49999) ∷ []
    ≡ 65535 ∷ 32767 ∷ 32768 ∷ []
unfolding word_16 saturate
words = refl

file : write_hex 2 (32767 ∷ 10 ∷ []) ≡ codes "7FFF\n000A\n"
unfolding write_hex hex_lines line_text hex_padded hex_from
file = refl

sines : (k : ℕ) → k < 1024 → (v : ℤ) × (sine_value integers k ≡ some v)
unfolding sine_value
sines k h = (_, refl)

notes : (k : ℕ) → k < 128 → (v : ℤ) × (note_value integers 48000 k ≡ some v)
unfolding note_value
notes k h = (_, refl)

hex_lines-tables_example :
    (sine phases : List ℕ) × (gen_sine_rom integers ≡ some sine)
    × (gen_note_phases integers 48000 ≡ some phases)
    × IsTable (sine_value integers) word_16 0 1024 sine
    × IsTable (note_value integers 48000) (wrap 32) 0 128 phases
    × Holds 4 sine (hex_lines 2 sine)
    × Holds 8 phases (hex_lines 4 phases)
hex_lines-tables_example = hex_lines-tables integers 48000 sines notes

-- With a product above the range.
to_q15-signed_example :
    (w : ℕ) × (to_q15 integers (pos 2) ≡ some w)
    × (w < 65536)
    × Fits (signed_16 w)
    × ((signed_16 w ≡ pos 65536) ↔ Fits (pos 65536))
to_q15-signed_example = to_q15-signed integers (pos 2) (pos 65536) refl
