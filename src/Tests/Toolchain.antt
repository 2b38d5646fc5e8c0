-- ===== src/Tests/Toolchain.antt =====
-- A bench that passes, with every tool installed and every program printing its marker.
use risc_v_so_c.Base.{◌≡◌, refl, Bool, true, List, [], ◌∷◌, none}
use risc_v_so_c.Base.Int.{pos}
use risc_v_so_c.Base.Text.{Text, codes, strip, lstrip, rstrip}
use risc_v_so_c.Base.Results
use risc_v_so_c.C8asm.Lexer.{splitlines, lines_from}
use risc_v_so_c.Socgen.Toolchain.{
  Bench, Result, prepare_in, last_lines, Outcome, completed, systemverilog, simulate, run_bench,
  finish, after_build, is_in, starts_with,
}

abbrev soc : Bench
soc = record {
  name = codes "soc";
  language = systemverilog;
  top = codes "tb_soc";
  sources = codes "rtl/soc_top.sv" ∷ [];
  include_dirs = [];
  stop_time = [];
  standard = codes "2012";
  expect = codes "PASS";
  prepare = none;
}

abbrev installed : Text → Bool
installed tool = true

abbrev prints : List Text → Text → Outcome
prints command cwd = completed (pos 0) (codes "all PASS") []

abbrev passed : Result
passed = record {
  bench = codes "core:soc";
  ok = true;
  ran = true;
  skipped = [];
  command = [];
  tail = codes "all PASS" ∷ [];
}

passes :
    simulate installed prints (codes "900") (codes "modules") (codes "build") (codes "core") soc
    ≡ Results.ok passed
unfolding simulate run_bench prepare_in finish after_build is_in starts_with last_lines splitlines
    lines_from strip lstrip rstrip
passes = refl
