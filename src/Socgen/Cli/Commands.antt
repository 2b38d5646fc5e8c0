-- ===== src/Socgen/Cli/Commands.antt =====
-- socgen/cli.py: the commands that print tables and write files, and `main` on what the argument parser
-- gives it. Printed text is the list of its lines.
use risc_v_so_c.Base.{
  ℕ, ◌+◌, ◌-◌, Bool, Option, none, some, List, [], ◌∷◌, ◌++◌, length, map, replicate,
}
use risc_v_so_c.Base.Text.{Text, codes, join}
use risc_v_so_c.Base.Hex.{decimal_text}
use mathlib.Core.Option
use risc_v_so_c.Base.Results
use risc_v_so_c.Base.Results.{ok, err, ◌>>=◌}
use risc_v_so_c.Socgen.Asm.{AsmError}
use risc_v_so_c.Socgen.Asm.Output.{write_hex}
use risc_v_so_c.Socgen.Firmware.{build}
use risc_v_so_c.Socgen.Memmap.{Region, memory_map, overlaps}
use risc_v_so_c.Socgen.Memmap.Headers.{hex8, to_systemverilog, to_c, to_markdown}
use risc_v_so_c.Socgen.Toolchain.{
  Language, verilog, systemverilog, vhdl, Outcome, Uncaught, asm_error, missing_tools,
}
use risc_v_so_c.Socgen.Registry.Manifest.{Module, manifest}
use risc_v_so_c.Socgen.Cli.{SimArgs, cmd_sim}
use risc_v_so_c.Socgen.Cli.Lint.{cmd_lint}
use risc_v_so_c.Socgen.Cli.Wrap.{wrap}

-- `f"{text:n}"`.
abbrev padded : ℕ → Text → Text
padded n text = text ++ replicate (n - length text) b' '

abbrev language_name : Language → Text
language_name verilog = codes "verilog"
language_name systemverilog = codes "systemverilog"
language_name vhdl = codes "vhdl"

blank : Text
blank = []

indented : Text → Text
indented text = codes "  " ++ (padded 12 [] ++ (codes " " ++ text))

-- The lines of one module.
unfoldable pub module_lines : Module → List Text
unfolding indented wrap blank
module_lines m =
    (codes "  "
        ++ padded 12 m.name
        ++ codes " "
        ++ padded 15 (language_name m.language)
        ++ codes " "
        ++ decimal_text (length m.benches)
        ++ codes " bench(es)"
        ++ (elim m.peripheral [ [] ↦ [] | c ∷ cs ↦ codes "   @ " ++ c ∷ cs ]))
      ∷ indented m.title
      ∷ map indented (wrap m.summary 70)
    ++ blank ∷ []

unfoldable pub modules_lines : List Module → List Text
unfolding module_lines
modules_lines [] = []
modules_lines (m ∷ ms) = module_lines m ++ modules_lines ms

tools_text : List Text → Text
tools_text [] = codes "all present"
tools_text (t ∷ ts) = codes "missing " ++ join (codes ", ") (t ∷ ts)

-- `_cmd_modules`.
unfoldable pub cmd_modules : (Text → Bool) → ℕ × List Text
unfolding modules_lines tools_text missing_tools blank
cmd_modules have = (
  0,
  blank ∷ modules_lines manifest
      ++ (codes "  tools: " ++ tools_text (missing_tools have)) ∷ blank ∷ [],
)

register_line : Region → Text × ℕ × Text → Text
register_line r (name, offset, meaning) =
    codes "    0x" ++ hex8 (r.base + offset) ++ codes "  " ++ padded 9 name ++ codes " " ++ meaning

-- The registers of the regions that have some.
unfoldable pub register_lines : List Region → List Text
unfolding register_line blank
register_lines [] = []
register_lines (r ∷ rs) = elim r.registers [
  | [] ↦ register_lines rs
  | first ∷ rest ↦
      (codes "  " ++ r.name) ∷ map (register_line r) (first ∷ rest) ++ blank ∷ register_lines rs
]

-- The `repr` of a list of pairs of names.
pair_text : Text × Text → Text
pair_text (a, b) = codes "('" ++ a ++ codes "', '" ++ b ++ codes "')"

pairs_text : List (Text × Text) → Text
unfolding pair_text
pairs_text ps = codes "[" ++ join (codes ", ") (map pair_text ps) ++ codes "]"

-- What follows the registers: the exit code, and the line that names overlapping regions.
unfoldable pub map_end : List (Text × Text) → ℕ × List Text
unfolding pairs_text
map_end [] = (0, [])
map_end (p ∷ ps) = (1, (codes "  OVERLAPPING REGIONS: " ++ pairs_text (p ∷ ps)) ∷ [])

-- `_cmd_map`; `none` is the IndexError of `to_markdown`.
unfoldable pub cmd_map : Option (ℕ × List Text)
unfolding register_lines map_end blank
cmd_map =
    Option.map
      (λ table.
        let (code, last) = map_end overlaps in
        (code, blank ∷ table ∷ blank ∷ register_lines memory_map ++ last))
      to_markdown

-- `_cmd_gen`: the files that it writes, with their text, and what it prints.
unfoldable pub generated : Text → List (Text × Text)
generated program =
    (codes "rtl/soc_map.svh", to_systemverilog)
    ∷ (codes "sw/soc_map.h", to_c)
    ∷ (codes "sim/program.hex", program)
    ∷ []

unfoldable pub cmd_gen : Results.Result AsmError (ℕ × List (Text × Text) × List Text)
unfolding generated blank
cmd_gen = do
  program ← build >>= write_hex
  ok (
    0,
    generated program,
    blank ∷ map (λ (file : Text × Text). codes "  wrote " ++ file.0) (generated program)
        ++ blank ∷ [],
  )

-- What the argument parser gives, for the five commands.
pub data Command : Type 0 where
  modules_command map_command gen_command lint_command : Command
  sim_command : SimArgs → Command

-- The exit code, or the exception.
pub data Ending : Type 0 where
  exit : ℕ → Ending
  index_error : Ending
  raises : Uncaught → Ending

unfoldable pub main : (Text → Bool) → (List Text → Text → Outcome) → Text → Text → Command → Ending
main have run modules build_dir modules_command = exit (cmd_modules have).0
main have run modules build_dir map_command = elim cmd_map [
  | none ↦ index_error
  | some (code, lines) ↦ exit code
]
main have run modules build_dir gen_command = elim cmd_gen [
  | err e ↦ raises (asm_error e)
  | ok (code, files, lines) ↦ exit code
]
main have run modules build_dir lint_command = elim (cmd_lint have run modules build_dir) [
  | err e ↦ raises e
  | ok (code, results) ↦ exit code
]
main have run modules build_dir (sim_command args) =
    elim (cmd_sim have run modules build_dir args) [
      | err e ↦ raises e
      | ok (code, results) ↦ exit code
    ]
