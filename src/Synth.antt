-- ===== src/Synth.antt =====
-- modules/synth/sim/gen_hex.py: the ROM tables of the synthesiser and the coefficients of its filter. `none`
-- stands for an arithmetic exception. The gains that `biquad_lowpass` prints as a sanity check are left out.
pub mod Words
pub mod Tables
use risc_v_so_c.Base.{
  ℕ, zero, suc, ◌+◌, ◌-◌, ◌*◌, ◌^◌, if◌then◌else◌, Option, none, some, List, [], ◌∷◌, ◌++◌, map,
}
use risc_v_so_c.Base.Int.{ℤ, pos, negsuc, ◌+ℤ◌, ◌-ℤ◌, ltb_ℤ, pos_part, wrap}
use risc_v_so_c.Base.Text.{Text, codes}
use risc_v_so_c.Base.Hex.{hex_padded}
use risc_v_so_c.Base.Options.{◌>>=◌}
use risc_v_so_c.Base.Floats.{Floats}

abbrev pub wave_points : ℕ
wave_points = 1024

abbrev pub phase_bits : ℕ
phase_bits = 32

abbrev pub q15_scale : ℕ
q15_scale = 32767

-- `max(-32768, min(32767, v))`, and 65536 more for a negative number.
unfoldable pub saturate : ℤ → ℤ
saturate v =
    let low = if ltb_ℤ v (pos 32767) then v else pos 32767 in
    if ltb_ℤ (negsuc 32767) low then low else negsuc 32767

unfoldable pub word_16 : ℤ → ℕ
unfolding saturate
word_16 v = let s = saturate v in pos_part (if ltb_ℤ s (pos 0) then s +ℤ pos 65536 else s)

-- The lines of `write_hex`.
unfoldable pub hex_lines : ℕ → List ℕ → List Text
unfolding hex_padded
hex_lines width_bytes entries = map (hex_padded b'A' (width_bytes * 2)) entries

unfoldable pub line_text : List Text → Text
line_text [] = []
line_text (line ∷ lines) = line ++ 10 ∷ line_text lines

-- The file of `write_hex`.
unfoldable pub write_hex : ℕ → List ℕ → Text
unfolding hex_lines line_text
write_hex width_bytes entries = line_text (hex_lines width_bytes entries)

module _ (F : Floats) where
  open F use {Float, of_int, decimal, pi, add, sub, mul, div, sin, tan, pow, round}

  -- `int(round(math.sin(angle) * Q15_SCALE))` of entry `i`.
  unfoldable pub sine_value : ℕ → Option ℤ
  sine_value i = do
    angle ← div (mul (mul (decimal 2 0) pi) (of_int (pos i))) (of_int (pos wave_points))
    s ← sin angle
    round (mul s (of_int (pos q15_scale)))

  -- The `left` entries from `i` on.
  unfoldable pub sine_entries : ℕ → ℕ → Option (List ℕ)
  unfolding sine_value word_16
  sine_entries zero i = some []
  sine_entries (suc left) i = do
    v ← sine_value i
    rest ← sine_entries left (i + 1)
    some (word_16 v ∷ rest)

  unfoldable pub gen_sine_rom : Option (List ℕ)
  unfolding sine_entries
  gen_sine_rom = sine_entries wave_points 0

  -- `int(round(freq / fs * (2 ** PHASE_BITS)))` of note `n`.
  unfoldable pub note_value : ℕ → ℕ → Option ℤ
  note_value fs n = do
    octaves ← div (of_int (pos n -ℤ pos 69)) (decimal 12 0)
    factor ← pow (decimal 2 0) octaves
    per_sample ← div (mul (decimal 440 0) factor) (of_int (pos fs))
    round (mul per_sample (of_int (pos (2 ^ phase_bits))))

  unfoldable pub note_entries : ℕ → ℕ → ℕ → Option (List ℕ)
  unfolding note_value
  note_entries fs zero n = some []
  note_entries fs (suc left) n = do
    v ← note_value fs n
    rest ← note_entries fs left (n + 1)
    some (wrap 32 v ∷ rest)

  unfoldable pub gen_note_phases : ℕ → Option (List ℕ)
  unfolding note_entries
  gen_note_phases fs = note_entries fs 128 0

  unfoldable pub to_q15 : Float → Option ℕ
  unfolding word_16
  to_q15 x = round (mul x (decimal 32768 0)) >>= λ v. some (word_16 v)

  pub record Biquad : Type 0 where
    pub b0 : Float
    pub b1 : Float
    pub b2 : Float
    pub a1_f : Float
    pub a2_f : Float

  -- The coefficients that `biquad_lowpass` returns.
  unfoldable pub biquad_lowpass : Float → Float → ℕ → Option Biquad
  biquad_lowpass fc q fs = do
    angle ← div (mul pi fc) (of_int (pos fs))
    k ← tan angle
    k_q ← div k q
    let k2 = mul k k
    let norm = add (add (decimal 1 0) k_q) k2
    b0 ← div k2 norm
    a1_f ← div (mul (decimal 2 0) (sub k2 (decimal 1 0))) norm
    a2_f ← div (add (sub (decimal 1 0) k_q) k2) norm
    some (record { b0 = b0; b1 = mul (decimal 2 0) b0; b2 = b0; a1_f = a1_f; a2_f = a2_f })

  -- The text between `.b0(16'h` and the closing brackets of one coefficient.
  unfoldable pub port_text : Text → Float → Option Text
  unfolding to_q15 hex_padded
  port_text name x = do
    v ← to_q15 x
    some (46 ∷ (name ++ (codes "(16'h" ++ (hex_padded b'A' 4 v ++ codes ")"))))

  -- The two lines for `synth_top.v`.
  unfoldable pub q15_lines : Biquad → Option (List Text)
  unfolding port_text
  q15_lines c = do
    b0 ← port_text (codes "b0") c.b0
    b1 ← port_text (codes "b1") c.b1
    b2 ← port_text (codes "b2") c.b2
    a1 ← port_text (codes "a1") c.a1_f
    a2 ← port_text (codes "a2") c.a2_f
    some (
        (codes "  " ++ (b0 ++ (codes ",  " ++ (b1 ++ (codes ",  " ++ (b2 ++ codes ","))))))
        ∷ (codes "  " ++ (a1 ++ (codes ",  " ++ a2)))
        ∷ [])

  -- The files with their names, and the lines for `synth_top.v`.
  unfoldable pub main : Float → Float → ℕ → Option (List (Text × Text) × List Text)
  unfolding gen_sine_rom gen_note_phases biquad_lowpass q15_lines write_hex
  main fc q fs = do
    sine ← gen_sine_rom
    phases ← gen_note_phases fs
    c ← biquad_lowpass fc q fs
    lines ← q15_lines c
    some (
      (codes "sine1024_q15.hex", write_hex 2 sine)
          ∷ (codes "note_phase_48k.hex", write_hex 4 phases)
          ∷ [],
      lines,
    )
