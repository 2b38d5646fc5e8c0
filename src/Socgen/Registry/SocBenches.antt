-- ===== src/Socgen/Registry/SocBenches.antt =====
-- socgen/registry.py: the modules and their benches, the benches of the SoC.
use risc_v_so_c.Base.{List, [], ◌∷◌, ◌++◌, some}
use risc_v_so_c.Base.Text.{Text, codes}
use risc_v_so_c.Socgen.Toolchain.{systemverilog, Bench}
use risc_v_so_c.Socgen.Registry.Manifest.{core_rtl}
use risc_v_so_c.Socgen.Registry.Programs.{
  write_firmware, write_timer_demo, write_load_program, write_poll_program, write_defect_program,
}

abbrev tail_of : List Text → List Text
tail_of [] = []
tail_of (s ∷ ss) = ss

abbrev pub soc_bench : Bench
soc_bench = record {
  name = codes "soc";
  language = systemverilog;
  top = codes "tb_soc";
  sources =
      (codes "../../sim/tb_soc.sv")
      ∷ (codes "../../rtl/soc_top.sv")
      ∷ (codes "../../rtl/aes_regs.sv")
      ∷ (core_rtl
          ++ (codes "../uart-spi/rtl/uart_rx.sv")
            ∷ (codes "../uart-spi/rtl/uart_tx.sv")
            ∷ (codes "../uart-spi/rtl/sync_fifo.sv")
            ∷ (codes "../uart-spi/rtl/uart_core.sv")
            ∷ (codes "../aes/rtl/aes_sbox.v")
            ∷ (codes "../aes/rtl/aes_mixcol.v")
            ∷ (codes "../aes/rtl/aes_round.v")
            ∷ (codes "../aes/rtl/aes_final_round.v")
            ∷ (codes "../aes/rtl/aes_key_expand.v")
            ∷ (codes "../aes/rtl/aes128_core.v")
            ∷ (codes "../clint/rtl/clint.sv")
            ∷ []);
  include_dirs =
      (codes "rtl")
      ∷ (codes "../../rtl")
      ∷ (codes "../uart-spi/rtl")
      ∷ (codes "../aes/rtl")
      ∷ (codes "../clint/rtl")
      ∷ [];
  stop_time = [];
  standard = codes "2012";
  expect = codes "SOC SIMULATION PASSED";
  prepare = some write_firmware;
}

abbrev pub traps_bench : Bench
traps_bench = record {
  name = codes "traps";
  language = systemverilog;
  top = codes "tb_traps";
  sources = (codes "../../sim/tb_traps.sv") ∷ tail_of soc_bench.sources;
  include_dirs = soc_bench.include_dirs;
  stop_time = [];
  standard = codes "2012";
  expect = codes "TRAPS SIMULATION PASSED";
  prepare = some write_timer_demo;
}

abbrev pub load_bench : Bench
load_bench = record {
  name = codes "load";
  language = systemverilog;
  top = codes "tb_load";
  sources =
      (codes "../../sim/tb_load.sv")
      ∷ (codes "../../rtl/soc_top.sv")
      ∷ (codes "../../rtl/aes_regs.sv")
      ∷ (core_rtl
          ++ (codes "../uart-spi/rtl/uart_rx.sv")
            ∷ (codes "../uart-spi/rtl/uart_tx.sv")
            ∷ (codes "../uart-spi/rtl/sync_fifo.sv")
            ∷ (codes "../uart-spi/rtl/uart_core.sv")
            ∷ (codes "../aes/rtl/aes_sbox.v")
            ∷ (codes "../aes/rtl/aes_mixcol.v")
            ∷ (codes "../aes/rtl/aes_round.v")
            ∷ (codes "../aes/rtl/aes_final_round.v")
            ∷ (codes "../aes/rtl/aes_key_expand.v")
            ∷ (codes "../aes/rtl/aes128_core.v")
            ∷ (codes "../clint/rtl/clint.sv")
            ∷ []);
  include_dirs =
      (codes "rtl")
      ∷ (codes "../../rtl")
      ∷ (codes "../uart-spi/rtl")
      ∷ (codes "../aes/rtl")
      ∷ (codes "../clint/rtl")
      ∷ [];
  stop_time = [];
  standard = codes "2012";
  expect = codes "LOADS CORRECT";
  prepare = some write_load_program;
}

abbrev pub poll_bench : Bench
poll_bench = record {
  name = codes "poll";
  language = systemverilog;
  top = codes "tb_poll";
  sources =
      (codes "../../sim/tb_poll.sv")
      ∷ (codes "../../rtl/soc_top.sv")
      ∷ (codes "../../rtl/aes_regs.sv")
      ∷ (core_rtl
          ++ (codes "../uart-spi/rtl/uart_rx.sv")
            ∷ (codes "../uart-spi/rtl/uart_tx.sv")
            ∷ (codes "../uart-spi/rtl/sync_fifo.sv")
            ∷ (codes "../uart-spi/rtl/uart_core.sv")
            ∷ (codes "../aes/rtl/aes_sbox.v")
            ∷ (codes "../aes/rtl/aes_mixcol.v")
            ∷ (codes "../aes/rtl/aes_round.v")
            ∷ (codes "../aes/rtl/aes_final_round.v")
            ∷ (codes "../aes/rtl/aes_key_expand.v")
            ∷ (codes "../aes/rtl/aes128_core.v")
            ∷ (codes "../clint/rtl/clint.sv")
            ∷ []);
  include_dirs =
      (codes "rtl")
      ∷ (codes "../../rtl")
      ∷ (codes "../uart-spi/rtl")
      ∷ (codes "../aes/rtl")
      ∷ (codes "../clint/rtl")
      ∷ [];
  stop_time = [];
  standard = codes "2012";
  expect = codes "POLL FIXED";
  prepare = some write_poll_program;
}

abbrev pub defect_bench : Bench
defect_bench = record {
  name = codes "defects";
  language = systemverilog;
  top = codes "tb_defects";
  sources =
      (codes "../../sim/tb_defects.sv")
      ∷ (codes "../../rtl/soc_top.sv")
      ∷ (codes "../../rtl/aes_regs.sv")
      ∷ (core_rtl
          ++ (codes "../uart-spi/rtl/uart_rx.sv")
            ∷ (codes "../uart-spi/rtl/uart_tx.sv")
            ∷ (codes "../uart-spi/rtl/sync_fifo.sv")
            ∷ (codes "../uart-spi/rtl/uart_core.sv")
            ∷ (codes "../aes/rtl/aes_sbox.v")
            ∷ (codes "../aes/rtl/aes_mixcol.v")
            ∷ (codes "../aes/rtl/aes_round.v")
            ∷ (codes "../aes/rtl/aes_final_round.v")
            ∷ (codes "../aes/rtl/aes_key_expand.v")
            ∷ (codes "../aes/rtl/aes128_core.v")
            ∷ (codes "../clint/rtl/clint.sv")
            ∷ []);
  include_dirs =
      (codes "rtl")
      ∷ (codes "../../rtl")
      ∷ (codes "../uart-spi/rtl")
      ∷ (codes "../aes/rtl")
      ∷ (codes "../clint/rtl")
      ∷ [];
  stop_time = [];
  standard = codes "2012";
  expect = codes "DEFECTS FIXED";
  prepare = some write_defect_program;
}
