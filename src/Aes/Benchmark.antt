-- ===== src/Aes/Benchmark.antt =====
-- The benchmark of modules/aes/bench/aes_benchmark.py and its main program, over a parameter for
-- floating-point numbers. `none` stands for an exception; the clock's reading is an argument.
use risc_v_so_c.Base.{ℕ, zero, suc, ◌*◌, Option, some, List, [], ◌∷◌}
use risc_v_so_c.Base.Int.{pos}
use risc_v_so_c.Base.Text.{Text, codes}
use risc_v_so_c.Base.Options.{◌>>=◌}
use risc_v_so_c.Base.Floats.{Floats}
use risc_v_so_c.Aes.{aes128_encrypt}
use risc_v_so_c.Aes.Vectors.{vectors, run_vectors}

abbrev pub bench_key : List ℕ
bench_key =
    0x2b ∷ 0x7e ∷ 0x15 ∷ 0x16 ∷ 0x28 ∷ 0xae ∷ 0xd2 ∷ 0xa6 ∷ 0xab ∷ 0xf7 ∷ 0x15 ∷ 0x88 ∷ 0x09 ∷ 0xcf
    ∷ 0x4f ∷ 0x3c ∷ []

abbrev pub bench_plain : List ℕ
bench_plain =
    0x32 ∷ 0x43 ∷ 0xf6 ∷ 0xa8 ∷ 0x88 ∷ 0x5a ∷ 0x30 ∷ 0x8d ∷ 0x31 ∷ 0x31 ∷ 0x98 ∷ 0xa2 ∷ 0xe0 ∷ 0x37
    ∷ 0x07 ∷ 0x34 ∷ []

-- The encryptions of the loop.
unfoldable pub encrypt_all : ℕ → Option (Unit {0})
encrypt_all zero = some tt
encrypt_all (suc n) = aes128_encrypt bench_plain bench_key >>= λ _. encrypt_all n

-- The targets of the comparison, with their clocks in MHz.
abbrev pub targets : List (Text × ℕ)
targets =
    (codes "iCEstick (iCE40HX1K)", 80)
    ∷ (codes "Artix-7 XC7A35T", 220)
    ∷ (codes "Kintex-7 XC7K70T", 300)
    ∷ []

module _ (F : Floats) where
  open F use {Float, of_int, decimal, mul, div}

  -- `elapsed` is what the clock says that the loop took.
  unfoldable pub benchmark_software : ℕ → Float → Option Float
  unfolding encrypt_all
  benchmark_software n_blocks elapsed = do
    _ ← encrypt_all n_blocks
    bytes_per_second ← div (of_int (pos (n_blocks * 16))) elapsed
    div bytes_per_second (decimal 1000000 0)

  pub record Throughput : Type 0 where
    pub freq_mhz : ℕ
    pub throughput_mbps : Float
    pub latency_ns : Float
    pub blocks_per_sec : Float

  unfoldable pub hardware_throughput : ℕ → Option Throughput
  hardware_throughput freq = do
    let blocks = mul (of_int (pos freq)) (decimal 1000000 0)
    mbps ← div (mul blocks (of_int (pos 16))) (decimal 1000000 0)
    cycle ← div (of_int (pos 11)) (of_int (pos freq))
    some (record {
      freq_mhz = freq;
      throughput_mbps = mbps;
      latency_ns = mul cycle (decimal 1000 0);
      blocks_per_sec = blocks;
    })

  -- The rows of the comparison: a target's name, its throughput and how many times faster it is.
  unfoldable pub comparison : Float → List (Text × ℕ) → Option (List (Text × Throughput × Float))
  unfolding hardware_throughput
  comparison sw_mbps [] = some []
  comparison sw_mbps ((name, freq) ∷ rest) = do
    hw ← hardware_throughput freq
    speedup ← div hw.throughput_mbps sw_mbps
    rows ← comparison sw_mbps rest
    some ((name, hw, speedup) ∷ rows)

  -- The main program: the failures, the software's throughput and the comparison.
  unfoldable pub benchmark : Float → Option (ℕ × Float × List (Text × Throughput × Float))
  unfolding benchmark_software comparison
  benchmark elapsed = do
    failures ← run_vectors vectors
    sw_mbps ← benchmark_software 50000 elapsed
    rows ← comparison sw_mbps targets
    some (failures, sw_mbps, rows)
