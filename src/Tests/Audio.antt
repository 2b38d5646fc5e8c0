-- ===== src/Tests/Audio.antt =====
-- A stream of bits, decoded and written.
use risc_v_so_c.Base.{
  ℕ, ◌+◌, ◌*◌, ◌/◌, ◌≤◌, ltb, if◌then◌else◌, none, ◌<◌, ◌≡◌, refl, arith, some, List, [], ◌∷◌,
  length, drop,
}
use risc_v_so_c.Base.Int.{ℤ, pos, pos_part}
use risc_v_so_c.Audio.{decode_pdm, decode_loop, sample_of, unpack_bits, write_wav}
use risc_v_so_c.Audio.Wav.{Rounds, read_samples, decode_pdm-write_wav}
use risc_v_so_c.Base.Floats.{Floats}
use risc_v_so_c.Tests.Nist.{integers}

abbrev stream : List ℕ
stream = 0xff ∷ 0x0f ∷ []

decoded : decode_pdm integers stream 8 1 ≡ some (pos 32767 ∷ pos 0 ∷ [])
unfolding decode_pdm decode_loop sample_of unpack_bits
decoded = refl

-- Whole numbers of which only those below a hundred thousand can be rounded, as Python's infinity cannot.
abbrev small_integers : Floats
small_integers = record integers { round = λ a. if ltb (pos_part a) 100000 then some a else none }

small_integers-Rounds : Rounds small_integers (8 / 1)
small_integers-Rounds n h = (pos (n / 8), pos (n / 8 * 2 * 32767), ground arith, ground arith)

decode_pdm-write_wav_example :
    (samples : List ℤ) × (bytes : List ℕ) × (decode_pdm small_integers stream 8 1 ≡ some samples)
    × (length samples * (8 / 1) ≤ length stream * 8)
    × (length stream * 8 < (length samples + 1) * (8 / 1))
    × (write_wav samples 1 ≡ some bytes)
    × (length bytes ≡ 44 + length samples * 2)
    × (read_samples (drop 44 bytes) ≡ samples)
decode_pdm-write_wav_example =
    decode_pdm-write_wav small_integers stream 8 1 small_integers-Rounds (omega arith) (omega arith)
      (omega arith) (omega arith)
