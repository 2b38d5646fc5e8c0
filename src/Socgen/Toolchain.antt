-- ===== src/Socgen/Toolchain.antt =====
-- socgen/toolchain.py: `simulate` and `lint`. The programs on the machine are parameters: `have`
-- (shutil.which) and `run` (subprocess.run in a directory, with its exceptions). The clock, which only
-- fills `elapsed`, and the making of directories and writing of files, with their own exceptions, are
-- left out. A time limit is the text that its format prints.
pub mod Passed
use risc_v_so_c.Base.{
  ℕ, zero, suc, ◌-◌, Bool, true, false, not, ◌&&◌, ◌||◌, ◌==◌, if◌then◌else◌, Option, none, some,
  List, [], ◌∷◌, ◌++◌, length, drop,
}
use risc_v_so_c.Base.Int.{ℤ, pos, eqb_ℤ}
use risc_v_so_c.Base.Text.{Text, codes, strip}
use risc_v_so_c.Base.Results
use risc_v_so_c.Base.Results.{err, ◌>>=◌}
use risc_v_so_c.Socgen.Asm.{AsmError}
use risc_v_so_c.C8asm.Lexer.{splitlines}

pub data Language : Type 0 where
  verilog systemverilog vhdl : Language

abbrev pub tool_for : Language → Text
tool_for verilog = codes "iverilog"
tool_for systemverilog = codes "verilator"
tool_for vhdl = codes "ghdl"

-- What `prepare` does in a directory: the path of the file that it writes and the text, or the
-- assembler's exception.
abbrev pub Preparation : Type 0
Preparation = Text → Results.Result AsmError (Text × Text)

pub record Bench : Type 0 where
  pub name : Text
  pub language : Language
  pub top : Text
  pub sources : List Text
  pub include_dirs : List Text
  pub stop_time : Text
  pub standard : Text
  pub expect : Text
  pub prepare : Option Preparation

pub record Result : Type 0 where
  pub bench : Text
  pub ok : Bool
  pub ran : Bool
  pub skipped : Text
  pub command : Text
  pub tail : List Text

abbrev pub fresh : Text → Result
fresh name = record { bench = name; ok = false; ran = false; skipped = []; command = []; tail = [] }

-- What `subprocess.run` comes to: a program's exit code, output and errors, `TimeoutExpired`, or another
-- exception, such as FileNotFoundError or UnicodeDecodeError, by its name.
pub data Outcome : Type 0 where
  completed : ℤ → Text → Text → Outcome
  timed_out : Outcome
  raised : Text → Outcome

-- The exceptions that `simulate` and `lint` do not catch.
pub data Uncaught : Type 0 where
  asm_error : AsmError → Uncaught
  timeout_expired : Uncaught
  other_error : Text → Uncaught

unfoldable pub starts_with : Text → Text → Bool
starts_with [] text = true
starts_with (c ∷ cs) [] = false
starts_with (c ∷ cs) (d ∷ ds) = c == d && starts_with cs ds

-- `part in text`.
unfoldable pub is_in : Text → Text → Bool
unfolding starts_with
is_in part [] = starts_with part []
is_in part (c ∷ cs) = starts_with part (c ∷ cs) || is_in part cs

-- `text.strip().splitlines()[-n:]`.
unfoldable pub last_lines : ℕ → Text → List Text
unfolding strip splitlines
last_lines n text = let ls = splitlines (strip text) in drop (length ls - n) ls

abbrev pub flagged : Text → List Text → List Text
flagged flag [] = []
flagged flag (d ∷ ds) = flag ∷ d ∷ flagged flag ds

abbrev pub expired : Text → Result → Result
expired seconds r = record r { tail = (codes "timed out after " ++ seconds ++ codes "s") ∷ [] }

-- What follows the run of the simulation.
unfoldable pub finish : Text → Bench → Result → Outcome → Results.Result Uncaught Result
unfolding is_in last_lines
finish seconds b r timed_out = Results.ok (expired seconds r)
finish seconds b r (raised e) = err (other_error e)
finish seconds b r (completed code out errors) = Results.ok (record r {
  ran = true;
  tail = last_lines 10 (out ++ errors);
  ok =
      eqb_ℤ code (pos 0) && (elim b.expect [ [] ↦ true | c ∷ cs ↦ is_in (c ∷ cs) (out ++ errors) ]);
})

-- What follows the build: its failure, or the run.
unfoldable pub after_build :
    Text → Text → Result → Outcome → Results.Result Uncaught Result → Results.Result Uncaught Result
unfolding last_lines
after_build seconds tool r timed_out next = Results.ok (expired seconds r)
after_build seconds tool r (raised e) next = err (other_error e)
after_build seconds tool r (completed code out errors) next =
    if eqb_ℤ code (pos 0)
    then next
    else Results.ok (record r { command = tool; tail = last_lines 8 errors })

-- What follows the run of a lint pass; no exception of the run is caught there.
unfoldable pub after_lint : Result → Outcome → Results.Result Uncaught Result
unfolding last_lines
after_lint r timed_out = err timeout_expired
after_lint r (raised e) = err (other_error e)
after_lint r (completed code out errors) =
    Results.ok (record r { ran = true; ok = eqb_ℤ code (pos 0); tail = last_lines 8 errors })

abbrev pub build_name : Language → Text
build_name verilog = codes "iverilog"
build_name systemverilog = codes "verilator"
build_name vhdl = codes "ghdl -a"

abbrev pub is_verilog : Language → Bool
is_verilog verilog = true
is_verilog _ = false

abbrev pub is_vhdl : Language → Bool
is_vhdl vhdl = true
is_vhdl _ = false

abbrev pub lint_command : Bench → List Text
lint_command b =
    codes "verilator"
      ∷ codes "--lint-only"
      ∷ codes "-Wno-fatal"
      ∷ flagged (codes "-y") b.include_dirs
    ++ codes "--top-module" ∷ b.top ∷ b.sources

-- What `prepare` ends in: an exception of the assembler is not caught.
unfoldable pub prepared : Results.Result AsmError (Text × Text) → Results.Result Uncaught (Unit {0})
prepared (err e) = err (asm_error e)
prepared (Results.ok file) = Results.ok tt

unfoldable pub prepare_in : Text → Bench → Results.Result Uncaught (Unit {0})
unfolding prepared
prepare_in cwd b = elim b.prepare [
  | none ↦ Results.ok tt
  | some preparation ↦ prepared (preparation cwd)
]

-- `[tool for tool in tools if not have(tool)]`.
unfoldable pub absent : (Text → Bool) → List Text → List Text
absent have [] = []
absent have (t ∷ ts) = if have t then absent have ts else t ∷ absent have ts

unfoldable pub missing_tools : (Text → Bool) → List Text
unfolding absent
missing_tools have =
    absent have (codes "iverilog" ∷ codes "vvp" ∷ codes "verilator" ∷ codes "ghdl" ∷ [])

module _ (have : Text → Bool) (run : List Text → Text → Outcome)
    (seconds modules build_dir : Text) where
  -- The file or directory of a build.
  abbrev pub target : Text → Bench → Text → Text
  target m b suffix = build_dir ++ codes "/" ++ m ++ codes "_" ++ b.name ++ suffix

  abbrev pub build_command : Text → Bench → List Text
  build_command m b = elim b.language [
    | verilog ↦
        codes "iverilog" ∷ (codes "-g" ++ b.standard) ∷ flagged (codes "-I") b.include_dirs
        ++ codes "-o" ∷ target m b (codes ".vvp") ∷ b.sources
    | systemverilog ↦
        codes "verilator"
          ∷ codes "--binary"
          ∷ codes "-Wno-fatal"
          ∷ flagged (codes "-y") b.include_dirs
        ++ codes "--top-module"
          ∷ b.top
          ∷ codes "--Mdir"
          ∷ target m b []
          ∷ codes "-o"
          ∷ b.top
          ∷ b.sources
    | vhdl ↦
        codes "ghdl"
        ∷ codes "-a"
        ∷ (codes "--workdir=" ++ target m b (codes "_ghdl"))
        ∷ codes "--std=08"
        ∷ b.sources
  ]

  abbrev pub run_command : Text → Bench → List Text
  run_command m b = elim b.language [
    | verilog ↦ codes "vvp" ∷ target m b (codes ".vvp") ∷ []
    | systemverilog ↦ (target m b [] ++ codes "/" ++ b.top) ∷ []
    | vhdl ↦
        codes "ghdl"
        ∷ codes "-r"
        ∷ (codes "--workdir=" ++ target m b (codes "_ghdl"))
        ∷ codes "--std=08"
        ∷ b.top
        ∷ (elim b.stop_time [ [] ↦ [] | c ∷ cs ↦ (codes "--stop-time=" ++ c ∷ cs) ∷ [] ])
  ]

  -- A build and a run in the module's directory, once the tools are there.
  unfoldable pub run_bench : Text → Bench → Result → Results.Result Uncaught Result
  unfolding finish after_build
  run_bench m b r =
      let cwd = modules ++ codes "/" ++ m in
      after_build seconds (build_name b.language) r (run (build_command m b) cwd)
        (finish seconds b r (run (run_command m b) cwd))

  -- `err` is an exception that is not caught: one of `prepare`, or one of a program's run that is no
  -- TimeoutExpired.
  unfoldable pub simulate : Text → Bench → Results.Result Uncaught Result
  unfolding run_bench
  simulate m b =
      let r = fresh (m ++ codes ":" ++ b.name) in
      if not (have (tool_for b.language))
      then Results.ok (record r { skipped = tool_for b.language ++ codes " is not installed" })
      else if is_verilog b.language && not (have (codes "vvp"))
      then Results.ok (record r { skipped = codes "vvp is not installed" })
      else prepare_in (modules ++ codes "/" ++ m) b >>= λ _. run_bench m b r

  unfoldable pub lint : Text → Bench → Results.Result Uncaught Result
  unfolding after_lint
  lint m b =
      let r = fresh (m ++ codes ":" ++ b.name ++ codes ":lint") in
      let outcome = run (lint_command b) (modules ++ codes "/" ++ m) in
      if is_vhdl b.language
      then Results.ok (record r { skipped = codes "Verilator does not read VHDL" })
      else if not (have (codes "verilator"))
      then Results.ok (record r { skipped = codes "verilator is not installed" })
      else after_lint r outcome
