-- ===== src/Synth/Words.antt =====
-- modules/synth/sim/gen_hex.py: 16-bit words and the lines of the files.
use mathlib.Core.Path.{ap₂}
use native.Mathlib.Nat.{pow-zero, pow-suc}
use risc_v_so_c.Base.{
  ℕ, zero, suc, ◌-◌, ◌*◌, ◌/◌, ◌%◌, ◌^◌, ◌≤◌, ◌<◌, ◌≡◌, ◌↔◌, refl, arith, ltb, Bool-cases, true,
  false, inl, inr, if◌then◌else◌, some, List, [], ◌∷◌, map, length, replicate, All, length-append,
  length-replicate,
}
use risc_v_so_c.Base.Int.{ℤ, pos, negsuc, ◌-ℤ◌, ◌≤ℤ◌}
use risc_v_so_c.Base.Text.{Text}
use risc_v_so_c.Base.Hex.{hex_digit, hex_from, hex_padded}
use risc_v_so_c.C8asm.Operand.{digits_value}
use risc_v_so_c.C8asm.Hex.{hex_padded-digits_value}
use risc_v_so_c.Synth.{saturate, word_16, hex_lines}

-- What a 16-bit word stands for.
abbrev pub signed_16 : ℕ → ℤ
signed_16 w = if ltb w 32768 then pos w else pos w -ℤ pos 65536

abbrev pub Fits : ℤ → Type 0
Fits v = (negsuc 32767 ≤ℤ v) × (v ≤ℤ pos 32767)

pub word_16-lt : (v : ℤ) → word_16 v < 65536
unfolding word_16 saturate
word_16-lt (pos n) = ground arith
word_16-lt (negsuc n) = ground arith

pub signed_16-word_16 : (v : ℤ) → signed_16 (word_16 v) ≡ saturate v
unfolding word_16 saturate
signed_16-word_16 (pos n) = ground arith
signed_16-word_16 (negsuc n) = ground arith

pub saturate-Fits : (v : ℤ) → Fits (saturate v) × ((saturate v ≡ v) ↔ Fits v)
unfolding saturate
saturate-Fits (pos n) = ground arith
saturate-Fits (negsuc n) = ground arith

-- `width` digits are enough for a number below their power of 16.
hex_from-le :
    (fuel n width : ℕ) → n ≤ fuel → n < 16 ^ suc width → length (hex_from b'A' fuel n) ≤ suc width
unfolding hex_from
hex_from-le zero n width h k = omega arith
hex_from-le (suc fuel) n zero h k =
    let small : ltb n 16 ≡ true = ground (arith, pow-suc 16 0, pow-zero 16) in
    rw (small, hex_from) (omega arith)
hex_from-le (suc fuel) n (suc width) h k = elim (Bool-cases (ltb n 16)) [
  | inl small ↦ rw (small, hex_from) (omega arith)
  | inr large ↦
      let shorter : n / 16 < 16 ^ suc width = ground (arith, pow-suc 16 (suc width)) in
      rw (large, hex_from)
        (omega (
          arith,
          length-append {0} (hex_from b'A' fuel (n / 16)) (hex_digit b'A' (n % 16) ∷ []),
          hex_from-le fuel (n / 16) width (ground arith) shorter,
        ))
]

hex_padded-length :
    (width n : ℕ) → n < 16 ^ suc width → length (hex_padded b'A' (suc width) n) ≡ suc width
unfolding hex_padded
hex_padded-length width n h =
    let digits = hex_from b'A' n n in
    let zeros = suc width - length digits in
    omega (
      arith,
      length-append {0} (replicate zeros b'0') digits,
      length-replicate {A = ℕ} zeros b'0',
      hex_from-le n n width (omega arith) h,
    )

-- The lines have `width` digits each, and read in base 16 as the entries.
pub record Holds (width : ℕ) (entries : List ℕ) (lines : List Text) : Type 0 where
  pub wide : All (λ line. length line ≡ width) lines
  pub read_back : map (digits_value 16 false 0) lines ≡ map some entries

lines-wide :
    (width : ℕ) (entries : List ℕ)
    → All (λ v. v < 16 ^ suc width) entries
    → All (λ line. length line ≡ suc width) (map (hex_padded b'A' (suc width)) entries)
lines-wide width [] h = tt
lines-wide width (v ∷ entries) (small, h) =
    (hex_padded-length width v small, lines-wide width entries h)

lines-read_back :
    (width : ℕ) (entries : List ℕ)
    → map (digits_value 16 false 0) (map (hex_padded b'A' width) entries) ≡ map some entries
lines-read_back width [] = refl
lines-read_back width (v ∷ entries) =
    ap₂ (λ x xs. x ∷ xs) (hex_padded-digits_value width v) (lines-read_back width entries)

pub hex_lines-Holds :
    (width_bytes width : ℕ) (entries : List ℕ)
    → width_bytes * 2 ≡ suc width
    → All (λ v. v < 16 ^ suc width) entries
    → Holds (suc width) entries (hex_lines width_bytes entries)
unfolding hex_lines
hex_lines-Holds width_bytes width entries e h =
    rw e (record {
      wide = lines-wide width entries h;
      read_back = lines-read_back (suc width) entries;
    })
