-- ===== src/Audio.antt =====
-- modules/synth/sim/decode_pdm.py: the samples of a stream of bits, and the bytes of the WAV file. `none`
-- stands for an arithmetic exception or a struct.error.
pub mod Wav
use risc_v_so_c.Base.{
  ℕ, zero, suc, ◌+◌, ◌*◌, ◌/◌, ◌%◌, ◌^◌, ltb, leb, ◌==◌, Bool, true, false, if◌then◌else◌, Option,
  none, some, List, [], ◌∷◌, ◌++◌, length, take, drop, bit,
}
use risc_v_so_c.Base.Int.{ℤ, pos, negsuc, ltb_ℤ, wrap}
use risc_v_so_c.Base.Text.{codes}
use risc_v_so_c.Base.Options.{◌>>=◌}
use risc_v_so_c.Base.Floats.{Floats}

-- The bits of the bytes, the lowest first.
unfoldable pub unpack_bits : List ℕ → List ℕ
unpack_bits [] = []
unpack_bits (byte ∷ bytes) =
    bit 0 byte
    ∷ bit 1 byte
    ∷ bit 2 byte
    ∷ bit 3 byte
    ∷ bit 4 byte
    ∷ bit 5 byte
    ∷ bit 6 byte
    ∷ bit 7 byte
    ∷ unpack_bits bytes

abbrev pub total : List ℕ → ℕ
total [] = 0
total (b ∷ bs) = b + total bs

-- `max(-32767, min(32767, s))`.
unfoldable pub clamp : ℤ → ℤ
clamp s =
    let below = if ltb_ℤ s (pos 32767) then s else pos 32767 in
    if ltb_ℤ (negsuc 32766) below then below else negsuc 32766

module _ (F : Floats) where
  open F use {Float, of_int, decimal, sub, mul, div, round}

  -- The sample of one block.
  unfoldable pub sample_of : List ℕ → Option ℤ
  unfolding clamp
  sample_of block = do
    average ← div (of_int (pos (total block))) (of_int (pos (length block)))
    s ← round (mul (mul (sub average (decimal 5 1)) (of_int (pos 2))) (of_int (pos 32767)))
    some (clamp s)

  -- The loop on the bits from `i` on.
  unfoldable pub decode_loop : ℕ → ℕ → List ℕ → Option (List ℤ)
  decode_loop zero decimation bits = none
  decode_loop (suc fuel) decimation bits = elim (leb decimation (length bits)) [
    | false ↦ some []
    | true ↦ sample_of (take decimation bits) >>= λ s.
        decode_loop fuel decimation (drop decimation bits) >>= λ samples. some (s ∷ samples)
  ]

  unfoldable pub decode_pdm : List ℕ → ℕ → ℕ → Option (List ℤ)
  decode_pdm raw clk_hz sample_hz =
      if sample_hz == 0
      then none
      else (let bits = unpack_bits raw in decode_loop (suc (length bits)) (clk_hz / sample_hz) bits)

-- The lowest `count` bytes, the lowest first.
unfoldable pub little : ℕ → ℕ → List ℕ
little zero n = []
little (suc count) n = n % 256 ∷ little count (n / 256)

-- `struct.pack` with `<I`, `<H` and `<h`.
unfoldable pub pack_long : ℕ → Option (List ℕ)
unfolding little
pack_long n = if ltb n (2 ^ 32) then some (little 4 n) else none

unfoldable pub pack_short : ℕ → Option (List ℕ)
unfolding little
pack_short n = if ltb n (2 ^ 16) then some (little 2 n) else none

unfoldable pub pack_signed : ℤ → Option (List ℕ)
unfolding little
pack_signed z =
    if ltb_ℤ z (negsuc 32767)
    then none
    else if ltb_ℤ (pos 32767) z
    then none
    else some (little 2 (wrap 16 z))

unfoldable pub pack_all : List ℤ → Option (List ℕ)
unfolding pack_signed
pack_all [] = some []
pack_all (s ∷ samples) = do first ← pack_signed s; rest ← pack_all samples; some (first ++ rest)

-- The bytes that `write_wav` writes.
unfoldable pub write_wav : List ℤ → ℕ → Option (List ℕ)
write_wav samples sample_hz = do
  let data_size = length samples * 2
  riff_size ← pack_long (36 + data_size)
  fmt_size ← pack_long 16
  format ← pack_short 1
  channels ← pack_short 1
  rate ← pack_long sample_hz
  byte_rate ← pack_long (sample_hz * 2)
  align ← pack_short 2
  depth ← pack_short 16
  size ← pack_long data_size
  frames ← pack_all samples
  some (
      codes "RIFF"
      ++ (riff_size
          ++ (codes "WAVE"
              ++ (codes "fmt "
                  ++ (fmt_size
                      ++ (format
                          ++ (channels
                              ++ (rate
                                  ++ (byte_rate
                                      ++ (align
                                          ++ (depth ++ (codes "data" ++ (size ++ frames)))))))))))))

-- `main`: the bytes of the WAV file for those of the input file.
unfoldable pub main : (F : Floats) → List ℕ → Option (List ℕ)
unfolding decode_pdm write_wav
main F raw = decode_pdm F raw 12000000 48000 >>= λ samples. write_wav samples 48000
