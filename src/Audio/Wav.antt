-- ===== src/Audio/Wav.antt =====
-- modules/synth/sim/decode_pdm.py: the file that is written for a stream can be read back.
use mathlib.Core.Path.{subst}
mod Samples
use risc_v_so_c.Base.{
  ℕ, zero, suc, ◌+◌, ◌-◌, ◌*◌, ◌/◌, ◌%◌, ◌^◌, ◌≤◌, ◌<◌, ◌≡◌, refl, ap, arith, ltb, leb, ◌==◌,
  leb→le, Bool-cases, inl, inr, true, false, if◌then◌else◌, some, List, [], ◌∷◌, ◌++◌, length, take,
  drop, All,
}
use risc_v_so_c.Base.Int.{ℤ, pos, negsuc, pos_part, neg_part, wrap, ◌-ℤ◌}
use risc_v_so_c.Base.Text.{codes}
use risc_v_so_c.Base.Options.{◌>>=◌}
use risc_v_so_c.Base.Floats.{Floats}
use risc_v_so_c.Audio.{
  unpack_bits, total, clamp, sample_of, decode_loop, decode_pdm, little, pack_long, pack_short,
  pack_signed, pack_all, write_wav,
}
unfoldable pub use Samples.*

length-take : (n : ℕ) (bits : List ℕ) → n ≤ length bits → length (take n bits) ≡ n
length-take zero bits h = refl
length-take (suc n) [] h = absurd (omega arith)
length-take (suc n) (b ∷ bits) h = ap suc (length-take n bits (omega arith))

length-drop : (n : ℕ) (bits : List ℕ) → length (drop n bits) ≡ length bits - n
length-drop zero bits = omega arith
length-drop (suc n) [] = omega arith
length-drop (suc n) (b ∷ bits) = omega (arith, length-drop n bits)

fewer : (n d m : ℕ) → 1 ≤ d → n * d ≤ m → n ≤ m
fewer n d m h k = grind arith

nonzero : (n : ℕ) → 1 ≤ n → (n == 0) ≡ false
nonzero n h = ground arith

abbrev IsBit : ℕ → Type 0
IsBit b = b ≤ 1

unpack_bits-IsBit : (raw : List ℕ) → All IsBit (unpack_bits raw)
unfolding unpack_bits
unpack_bits-IsBit [] = tt
unpack_bits-IsBit (byte ∷ raw) =
    let low = unpack_bits-IsBit raw in
    (
      omega arith,
      (
        omega arith,
        (
          omega arith,
          (omega arith, (omega arith, (omega arith, (omega arith, (omega arith, low))))),
        ),
      ),
    )

take-IsBit : (n : ℕ) (bits : List ℕ) → All IsBit bits → All IsBit (take n bits)
take-IsBit zero bits h = tt
take-IsBit (suc n) [] h = tt
take-IsBit (suc n) (b ∷ bits) (h, hs) = (h, take-IsBit n bits hs)

drop-IsBit : (n : ℕ) (bits : List ℕ) → All IsBit bits → All IsBit (drop n bits)
drop-IsBit zero bits h = h
drop-IsBit (suc n) [] h = tt
drop-IsBit (suc n) (b ∷ bits) (h, hs) = drop-IsBit n bits hs

total-le : (bits : List ℕ) → All IsBit bits → total bits ≤ length bits
total-le [] h = omega arith
total-le (b ∷ bits) (h, hs) = omega (arith, h, total-le bits hs)

-- For each number of ones in a block of `size` bits, the quotient and its scaled and rounded value exist.
abbrev pub Rounds : Floats → ℕ → Type 0
Rounds F size =
    (n : ℕ)
    → n ≤ size
    → (q : F.Float) × (z : ℤ) × (F.div (F.of_int (pos n)) (F.of_int (pos size)) ≡ some q)
      × (F.round (F.mul (F.mul (F.sub q (F.decimal 5 1)) (F.of_int (pos 2))) (F.of_int (pos 32767)))
          ≡ some z)

module _ (F : Floats) (decimation : ℕ) (rounds : Rounds F decimation) where
  sample_of-IsSample :
      (block : List ℕ)
      → All IsBit block
      → length block ≡ decimation
      → (s : ℤ) × (sample_of F block ≡ some s) × IsSample s
  unfolding sample_of
  sample_of-IsSample block ones size =
      let (q, z, e, e') =
        rounds (total block) (subst (λ n. total block ≤ n) size (total-le block ones)) in
      (clamp z, rw (size, e, e') refl, clamp-IsSample z)

  decode_loop-step :
      (fuel : ℕ) (bits : List ℕ) (s : ℤ) (samples : List ℤ)
      → leb decimation (length bits) ≡ true
      → sample_of F (take decimation bits) ≡ some s
      → decode_loop F fuel decimation (drop decimation bits) ≡ some samples
      → decode_loop F (suc fuel) decimation bits ≡ some (s ∷ samples)
  unfolding decode_loop
  decode_loop-step fuel bits s samples long e e' = rw (long, decode_loop, e, ◌>>=◌, e') refl

  decode_loop-IsSample :
      (fuel : ℕ) (bits : List ℕ)
      → All IsBit bits
      → 1 ≤ decimation
      → length bits < fuel
      → (samples : List ℤ) × (decode_loop F fuel decimation bits ≡ some samples)
        × All IsSample samples
        × (length samples * decimation ≤ length bits)
        × (length bits < (length samples + 1) * decimation)
  unfolding decode_loop
  decode_loop-IsSample zero bits ones h k = absurd (omega arith)
  decode_loop-IsSample (suc fuel) bits ones h k = elim (Bool-cases (leb decimation (length bits))) [
    | inr short ↦ ([], rw (short, decode_loop) refl, tt, ground arith, ground (arith, short))
    | inl long ↦
        let enough = leb→le decimation (length bits) long in
        let (s, e, p) =
          sample_of-IsSample (take decimation bits) (take-IsBit decimation bits ones)
            (length-take decimation bits enough) in
        let (samples, e', ps, q, r) =
          decode_loop-IsSample fuel (drop decimation bits) (drop-IsBit decimation bits ones) h
            (omega (arith, length-drop decimation bits)) in
        (
          s ∷ samples,
          decode_loop-step fuel bits s samples long e e',
          (p, ps),
          grind (arith, q, enough, length-drop decimation bits),
          grind (arith, r, enough, length-drop decimation bits),
        )
  ]

length-unpack_bits : (raw : List ℕ) → length (unpack_bits raw) ≡ length raw * 8
unfolding unpack_bits
length-unpack_bits [] = refl
length-unpack_bits (byte ∷ raw) = omega (arith, length-unpack_bits raw)

-- Where for each number of ones in a block the scaled average has a rounded value, any stream of
-- bytes, at a clock that is not below the sample rate, is decoded to as many samples as there are
-- whole blocks of its bits. Where the sizes fit into the header, they are written as 44 bytes of
-- header and two bytes for each sample, which read back as the samples.
pub decode_pdm-write_wav :
    (F : Floats) (raw : List ℕ) (clk_hz sample_hz : ℕ)
    → Rounds F (clk_hz / sample_hz)
    → 1 ≤ sample_hz
    → 1 ≤ clk_hz / sample_hz
    → 36 + length raw * 16 < 2 ^ 32
    → sample_hz * 2 < 2 ^ 32
    → (samples : List ℤ) × (bytes : List ℕ) × (decode_pdm F raw clk_hz sample_hz ≡ some samples)
      × (length samples * (clk_hz / sample_hz) ≤ length raw * 8)
      × (length raw * 8 < (length samples + 1) * (clk_hz / sample_hz))
      × (write_wav samples sample_hz ≡ some bytes)
      × (length bytes ≡ 44 + length samples * 2)
      × (read_samples (drop 44 bytes) ≡ samples)
unfolding decode_pdm
decode_pdm-write_wav F raw clk_hz sample_hz rounds h k p q =
    let bits = unpack_bits raw in
    let eight = length-unpack_bits raw in
    let decimation = clk_hz / sample_hz in
    let (samples, e, within, low, high) =
      decode_loop-IsSample F decimation rounds (suc (length bits)) bits (unpack_bits-IsBit raw) k
        (omega arith) in
    let few = fewer (length samples) decimation (length bits) k low in
    let (bytes, e', long, back) =
      write_wav-read_samples samples sample_hz within (omega (arith, few, eight)) q in
    (
      samples,
      bytes,
      rw (nonzero sample_hz h) e,
      rw (← eight) low,
      rw (← eight) high,
      e',
      long,
      back,
    )
