-- ===== src/Socgen/Memmap/Headers.antt =====
-- socgen/memmap.py: the generated headers and the table for the README, as their lines.
use risc_v_so_c.Base.{
  Option, some, leb, if◌then◌else◌, ◌/◌, get_elem?, ℕ, ◌+◌, List, [], ◌∷◌, ◌++◌, map,
}
use risc_v_so_c.Base.Text.{Text, codes, join_lines}
use risc_v_so_c.Base.Int.{pos_part}
use risc_v_so_c.Base.Hex.{hex_padded, decimal_from, decimal_text}
use risc_v_so_c.Base.Options.{◌>>=◌}
use risc_v_so_c.C8asm.Lexer.{splitlines}
use risc_v_so_c.Socgen.Memmap.{Region, limit, upper_name, memory_map}

-- `_BANNER`.
abbrev banner : Text
banner = codes "Generated by socgen/memmap.py. Do not edit; edit the map and regenerate."

-- `f"{n:08X}"`.
abbrev pub hex8 : ℕ → Text
hex8 = hex_padded b'A' 8

-- The lines of one register in the two headers.
unfoldable pub sv_register : Region → Text × ℕ × Text → Text
unfolding upper_name hex_padded
sv_register r (name, offset, meaning) =
    codes "localparam logic [31:0] "
    ++ upper_name r
    ++ codes "_"
    ++ name
    ++ codes " = 32'h"
    ++ hex8 (r.base + offset)
    ++ codes ";  // "
    ++ meaning

unfoldable pub c_register : Region → Text × ℕ × Text → Text
unfolding upper_name hex_padded
c_register r (name, offset, meaning) =
    codes "#define "
    ++ upper_name r
    ++ codes "_"
    ++ name
    ++ codes "  0x"
    ++ hex8 (r.base + offset)
    ++ codes "u  /* "
    ++ meaning
    ++ codes " */"

-- The lines of one region, with the blank line behind them.
unfoldable pub sv_region : Region → List Text
unfolding sv_register upper_name hex_padded
sv_region r =
    let constant = codes "localparam logic [31:0] " ++ upper_name r in
    (codes "// " ++ r.description)
      ∷ (constant ++ codes "_BASE = 32'h" ++ hex8 r.base ++ codes ";")
      ∷ (constant ++ codes "_SIZE = 32'h" ++ hex8 r.size ++ codes ";")
      ∷ (constant ++ codes "_LIMIT = 32'h" ++ hex8 (pos_part (limit r)) ++ codes ";")
      ∷ map (sv_register r) r.registers
    ++ [] ∷ []

unfoldable pub c_region : Region → List Text
unfolding c_register upper_name hex_padded
c_region r =
    let constant = codes "#define " ++ upper_name r in
    (codes "/* " ++ r.description ++ codes " */")
      ∷ (constant ++ codes "_BASE  0x" ++ hex8 r.base ++ codes "u")
      ∷ (constant ++ codes "_SIZE  0x" ++ hex8 r.size ++ codes "u")
      ∷ map (c_register r) r.registers
    ++ [] ∷ []

abbrev pub all_lines : (Region → List Text) → List Region → List Text
all_lines f [] = []
all_lines f (r ∷ rs) = f r ++ all_lines f rs

unfoldable pub to_systemverilog : Text
unfolding sv_region join_lines
to_systemverilog = join_lines (
    (codes "// " ++ banner)
      ∷ []
      ∷ codes "`ifndef SOC_MAP_SVH"
      ∷ codes "`define SOC_MAP_SVH"
      ∷ []
      ∷ all_lines sv_region memory_map
    ++ codes "`endif" ∷ [] ∷ [])

unfoldable pub to_c : Text
unfolding c_region join_lines
to_c = join_lines (
    (codes "/* " ++ banner ++ codes " */")
      ∷ []
      ∷ codes "#ifndef SOC_MAP_H"
      ∷ codes "#define SOC_MAP_H"
      ∷ []
      ∷ codes "#include <stdint.h>"
      ∷ []
      ∷ codes "#define MMIO(addr) (*(volatile uint32_t *)(addr))"
      ∷ []
      ∷ all_lines c_region memory_map
    ++ codes "#endif /* SOC_MAP_H */" ∷ [] ∷ [])

abbrev size_text : ℕ → Text
size_text n =
    if leb 1024 n then decimal_text (n / 1024) ++ codes " kB" else decimal_text n ++ codes " B"

-- The row of one region; `none` is the IndexError of an empty description.
unfoldable pub markdown_row : Region → Option Text
unfolding splitlines hex_padded decimal_from
markdown_row r = do
  first ← get_elem? (splitlines r.description) 0
  some (
      codes "| `"
      ++ r.name
      ++ codes "` | `0x"
      ++ hex8 r.base
      ++ codes "` | "
      ++ size_text r.size
      ++ codes " | "
      ++ r.kind
      ++ codes " | "
      ++ first
      ++ codes " |")

unfoldable pub markdown_rows : List Region → Option (List Text)
unfolding markdown_row
markdown_rows [] = some []
markdown_rows (r ∷ rs) = do row ← markdown_row r; rows ← markdown_rows rs; some (row ∷ rows)

unfoldable pub to_markdown : Option Text
unfolding markdown_rows join_lines
to_markdown = do
  rows ← markdown_rows memory_map
  some (
      join_lines
        (codes "| Region | Base | Size | Kind | Purpose |" ∷ codes "|---|---|---|---|---|" ∷ rows))
