-- ===== src/Audio/Wav/Samples.antt =====
-- modules/synth/sim/decode_pdm.py: the bytes of `write_wav`, and a reading of them.
use risc_v_so_c.Base.{
  ℕ, ◌+◌, ◌*◌, ◌/◌, ◌%◌, ◌^◌, ◌≤◌, ◌<◌, ◌≡◌, refl, arith, ltb, if◌then◌else◌, some, List, [], ◌∷◌,
  ◌++◌, length, drop, All,
}
use risc_v_so_c.Base.Int.{ℤ, pos, negsuc, pos_part, neg_part, wrap, ◌-ℤ◌}
use risc_v_so_c.Base.Text.{codes}
use risc_v_so_c.Audio.{clamp, little, pack_long, pack_short, pack_signed, pack_all, write_wav}

-- A sample that the clamp lets through.
abbrev pub IsSample : ℤ → Type 0
IsSample z = (pos_part z ≤ 32767) × (neg_part z ≤ 32767)

pub clamp-IsSample : (s : ℤ) → IsSample (clamp s)
unfolding clamp
clamp-IsSample s = ground arith

-- Two bytes, the low one first, as a signed number; and all the pairs of a list.
unfoldable pub read_sample : ℕ → ℕ → ℤ
read_sample low high =
    let n = low + high * 256 in if ltb n (2 ^ 15) then pos n else pos n -ℤ pos (2 ^ 16)

unfoldable pub read_samples : List ℕ → List ℤ
unfolding read_sample
read_samples (low ∷ high ∷ bytes) = read_sample low high ∷ read_samples bytes
read_samples _ = []

pub read_wrap : (z : ℤ) → IsSample z → read_sample (wrap 16 z % 256) (wrap 16 z / 256 % 256) ≡ z
unfolding read_sample
read_wrap (pos n) h = ground arith
read_wrap (negsuc n) h = ground arith

pub pack_signed-some : (z : ℤ) → IsSample z → pack_signed z ≡ some (little 2 (wrap 16 z))
unfolding pack_signed
pack_signed-some z h = ground arith

pub pack_all-some :
    (samples : List ℤ)
    → All IsSample samples
    → (frames : List ℕ) × (pack_all samples ≡ some frames)
      × (length frames ≡ length samples * 2)
      × (read_samples frames ≡ samples)
unfolding pack_all read_samples
pack_all-some [] h = ([], refl, refl, refl)
pack_all-some (z ∷ zs) (p, ps) =
    let (frames, e, long, back) = pack_all-some zs ps in
    (
      little 2 (wrap 16 z) ++ frames,
      rw (pack_signed-some z p, e) refl,
      omega (arith, long),
      rw (read_wrap z p, back) refl,
    )

pub pack_long-some : (n : ℕ) → n < 2 ^ 32 → pack_long n ≡ some (little 4 n)
unfolding pack_long
pack_long-some n h = ground arith

abbrev pub wav_bytes : ℕ → ℕ → List ℕ → List ℕ
wav_bytes data_size sample_hz frames =
    codes "RIFF"
    ++ (little 4 (36 + data_size)
        ++ (codes "WAVE"
            ++ (codes "fmt "
                ++ (little 4 16
                    ++ (little 2 1
                        ++ (little 2 1
                            ++ (little 4 sample_hz
                                ++ (little 4 (sample_hz * 2)
                                    ++ (little 2 2
                                        ++ (little 2 16
                                            ++ (codes "data"
                                                ++ (little 4 data_size ++ frames))))))))))))

-- Samples within the clamp are written with no struct.error, as 44 bytes of header and two bytes for
-- each sample, which read back as the samples.
pub write_wav-read_samples :
    (samples : List ℤ) (sample_hz : ℕ)
    → All IsSample samples
    → 36 + length samples * 2 < 2 ^ 32
    → sample_hz * 2 < 2 ^ 32
    → (bytes : List ℕ) × (write_wav samples sample_hz ≡ some bytes)
      × (length bytes ≡ 44 + length samples * 2)
      × (read_samples (drop 44 bytes) ≡ samples)
unfolding write_wav pack_short little
write_wav-read_samples samples sample_hz h p q =
    let (frames, e, long, back) = pack_all-some samples h in
    (
      wav_bytes (length samples * 2) sample_hz frames,
      rw
          (
            pack_long-some (36 + length samples * 2) p,
            pack_long-some 16 (omega arith),
            pack_long-some sample_hz (omega arith),
            pack_long-some (sample_hz * 2) q,
            pack_long-some (length samples * 2) (omega arith),
            e,
          )
          refl,
      omega (arith, long),
      back,
    )
