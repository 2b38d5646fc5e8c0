-- ===== src/Socgen/Registry/Manifest.antt =====
-- socgen/registry.py: the modules and their benches, `MANIFEST`.
use risc_v_so_c.Base.{List, [], ◌∷◌, ◌++◌, none}
use risc_v_so_c.Base.Text.{Text, codes}
use risc_v_so_c.Socgen.Toolchain.{Language, verilog, systemverilog, vhdl, Bench}

pub record Module : Type 0 where
  pub name : Text
  pub title : Text
  pub summary : Text
  pub language : Language
  pub benches : List Bench
  pub peripheral : Text

-- `_CORE_RTL`.
abbrev pub core_rtl : List Text
core_rtl =
    (codes "rtl/rv32i_pkg.sv")
    ∷ (codes "rtl/riscv_core.sv")
    ∷ (codes "rtl/if_stage.sv")
    ∷ (codes "rtl/id_stage.sv")
    ∷ (codes "rtl/ex_stage.sv")
    ∷ (codes "rtl/mem_stage.sv")
    ∷ (codes "rtl/wb_stage.sv")
    ∷ (codes "rtl/hazard_unit.sv")
    ∷ (codes "rtl/memories.sv")
    ∷ (codes "rtl/csr_file.sv")
    ∷ []

abbrev pub core_module : Module
core_module = record {
  name = codes "core";
  title = codes "RV32I pipeline";
  summary =
      codes
        "A five-stage RISC-V core: hazard detection, forwarding, a branch predictor and performance counters.";
  language = systemverilog;
  benches =
      record {
        name = codes "riscv";
        language = systemverilog;
        top = codes "tb_riscv";
        sources = (core_rtl ++ (codes "sim/tb_riscv.sv") ∷ []);
        include_dirs = (codes "rtl") ∷ [];
        stop_time = [];
        standard = codes "2012";
        expect = codes "SIMULATION PASSED";
        prepare = none;
      }
      ∷ [];
  peripheral = [];
}

abbrev pub cpu8_module : Module
cpu8_module = record {
  name = codes "cpu8";
  title = codes "8-bit CPU";
  summary =
      codes
        "A small accumulator machine with its own assembler and a Python instruction-set simulator to check the RTL against.";
  language = verilog;
  benches = [];
  peripheral = [];
}

abbrev pub uart_spi_module : Module
uart_spi_module = record {
  name = codes "uart-spi";
  title = codes "UART and SPI IP";
  summary =
      codes
        "Parameterised UART with a synchronous FIFO, and an SPI master covering all four clock modes.";
  language = systemverilog;
  benches =
      record {
        name = codes "uart";
        language = systemverilog;
        top = codes "tb_uart";
        sources =
            (codes "rtl/uart_rx.sv")
            ∷ (codes "rtl/uart_tx.sv")
            ∷ (codes "rtl/sync_fifo.sv")
            ∷ (codes "rtl/uart_core.sv")
            ∷ (codes "sim/tb_uart.sv")
            ∷ [];
        include_dirs = (codes "rtl") ∷ [];
        stop_time = [];
        standard = codes "2012";
        expect = [];
        prepare = none;
      }
      ∷ record {
        name = codes "spi";
        language = systemverilog;
        top = codes "tb_spi";
        sources =
            (codes "rtl/spi_core.sv") ∷ (codes "rtl/spi_master.sv") ∷ (codes "sim/tb_spi.sv") ∷ [];
        include_dirs = (codes "rtl") ∷ [];
        stop_time = [];
        standard = codes "2012";
        expect = [];
        prepare = none;
      }
      ∷ [];
  peripheral = codes "0x1000_0000";
}

abbrev pub aes_module : Module
aes_module = record {
  name = codes "aes";
  title = codes "AES-128 accelerator";
  summary =
      codes
        "A round-based AES-128 core with an AXI-lite wrapper, checked against the FIPS-197 vectors.";
  language = verilog;
  benches =
      record {
        name = codes "core";
        language = verilog;
        top = codes "tb_aes128_core";
        sources =
            (codes "rtl/aes_sbox.v")
            ∷ (codes "rtl/aes_mixcol.v")
            ∷ (codes "rtl/aes_round.v")
            ∷ (codes "rtl/aes_final_round.v")
            ∷ (codes "rtl/aes_key_expand.v")
            ∷ (codes "rtl/aes128_core.v")
            ∷ (codes "sim/tb_aes128_core.v")
            ∷ [];
        include_dirs = (codes "rtl") ∷ [];
        stop_time = [];
        standard = codes "2012";
        expect = codes "All 4 vectors PASSED";
        prepare = none;
      }
      ∷ [];
  peripheral = codes "0x2000_0000";
}

abbrev pub clint_module : Module
clint_module = record {
  name = codes "clint";
  title = codes "Core-local interruptor";
  summary =
      codes
        "The machine timer and software interrupt: a free-running 64-bit mtime, an mtimecmp, and the msip bit. What makes an interrupt able to reach the core at all.";
  language = systemverilog;
  benches =
      record {
        name = codes "clint";
        language = systemverilog;
        top = codes "tb_clint";
        sources = (codes "rtl/clint.sv") ∷ (codes "sim/tb_clint.sv") ∷ [];
        include_dirs = (codes "rtl") ∷ [];
        stop_time = [];
        standard = codes "2012";
        expect = codes "CLINT SIMULATION PASSED";
        prepare = none;
      }
      ∷ [];
  peripheral = codes "0x4000_0000";
}

abbrev pub trng_module : Module
trng_module = record {
  name = codes "trng";
  title = codes "Ring-oscillator TRNG";
  summary =
      codes
        "Entropy from ring-oscillator jitter, de-biased by von Neumann and whitened through an AES S-box, with NIST STS tooling.";
  language = vhdl;
  benches =
      record {
        name = codes "trng";
        language = vhdl;
        top = codes "tb_trng";
        sources =
            (codes "rtl/ring_osc.vhd")
            ∷ (codes "rtl/von_neumann.vhd")
            ∷ (codes "rtl/aes_sbox.vhd")
            ∷ (codes "rtl/aes_whitener.vhd")
            ∷ (codes "rtl/uart_out.vhd")
            ∷ (codes "rtl/trng_top.vhd")
            ∷ (codes "sim/tb_trng.vhd")
            ∷ [];
        include_dirs = [];
        stop_time = codes "500us";
        standard = codes "2012";
        expect = [];
        prepare = none;
      }
      ∷ [];
  peripheral = codes "0x3000_0000";
}

abbrev pub pong_module : Module
pong_module = record {
  name = codes "pong";
  title = codes "VGA Pong";
  summary =
      codes
        "A complete game in hardware: VGA timing, sprite rendering, collision, scoring and switch debouncing.";
  language = verilog;
  benches =
      record {
        name = codes "ball";
        language = verilog;
        top = codes "tb_ball";
        sources = (codes "rtl/ball.v") ∷ (codes "sim/tb_ball.v") ∷ [];
        include_dirs = (codes "rtl") ∷ [];
        stop_time = [];
        standard = codes "2012";
        expect = codes "0 failed";
        prepare = none;
      }
      ∷ [];
  peripheral = [];
}

abbrev pub mandelbrot_module : Module
mandelbrot_module = record {
  name = codes "mandelbrot";
  title = codes "VGA Mandelbrot";
  summary =
      codes
        "Fixed-point Mandelbrot iteration feeding a framebuffer and VGA output, with a Python model to verify the arithmetic.";
  language = vhdl;
  benches =
      record {
        name = codes "mandelbrot";
        language = vhdl;
        top = codes "tb_mandelbrot";
        sources =
            (codes "rtl/vga_pkg.vhd")
            ∷ (codes "rtl/fp_mul.vhd")
            ∷ (codes "rtl/mandelbrot_iter.vhd")
            ∷ (codes "rtl/mandelbrot_engine.vhd")
            ∷ (codes "rtl/framebuffer.vhd")
            ∷ (codes "rtl/colour_map.vhd")
            ∷ (codes "rtl/vga_sync.vhd")
            ∷ (codes "rtl/synth_top.vhd")
            ∷ (codes "sim/tb_mandelbrot.vhd")
            ∷ [];
        include_dirs = [];
        stop_time = codes "2ms";
        standard = codes "2012";
        expect = [];
        prepare = none;
      }
      ∷ [];
  peripheral = [];
}

abbrev pub synth_module : Module
synth_module = record {
  name = codes "synth";
  title = codes "Polyphonic synthesiser";
  summary =
      codes
        "Voice allocation, phase accumulators, a biquad filter and a PWM DAC — a MIDI-driven synth in fabric.";
  language = verilog;
  benches =
      record {
        name = codes "synth";
        language = verilog;
        top = codes "tb_synth";
        sources =
            (codes "rtl/q15_mul.v")
            ∷ (codes "rtl/dds_osc.v")
            ∷ (codes "rtl/adsr_env.v")
            ∷ (codes "rtl/midi_rx.v")
            ∷ (codes "rtl/sample_clk.v")
            ∷ (codes "rtl/note_to_phase.v")
            ∷ (codes "rtl/voice_alloc.v")
            ∷ (codes "rtl/voice_mixer.v")
            ∷ (codes "rtl/biquad_df1.v")
            ∷ (codes "rtl/pwm_dac.v")
            ∷ (codes "rtl/cc_store.v")
            ∷ (codes "rtl/synth_top.v")
            ∷ (codes "sim/tb_synth.v")
            ∷ [];
        include_dirs = (codes "rtl") ∷ [];
        stop_time = [];
        standard = codes "2012";
        expect = [];
        prepare = none;
      }
      ∷ [];
  peripheral = [];
}

-- `MANIFEST`.
abbrev pub manifest : List Module
manifest =
    core_module ∷ cpu8_module ∷ uart_spi_module ∷ aes_module ∷ clint_module ∷ trng_module
    ∷ pong_module ∷ mandelbrot_module ∷ synth_module ∷ []
