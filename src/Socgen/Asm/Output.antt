-- ===== src/Socgen/Asm/Output.antt =====
-- socgen/asm.py: `assemble`, which resolves the branches, and the text of `write_hex`.
use risc_v_so_c.Base.{ℕ, none, some, List, [], ◌∷◌, ◌++◌, map}
use risc_v_so_c.Base.Int.{pos, ◌-ℤ◌}
use risc_v_so_c.Base.Text.{Text, join_lines}
use risc_v_so_c.Base.Hex.{hex_padded}
use risc_v_so_c.Base.Dict.{Dict, get, text_key}
use risc_v_so_c.Base.Results.{Result, ok, err, ◌>>=◌}
use risc_v_so_c.Socgen.Asm.{
  AsmError, undefined_label, Kind, on_equal, on_different, Entry, word, branch, Assembler, b_type,
}

-- `funct3` of a branch.
abbrev pub branch_funct : Kind → ℕ
branch_funct on_equal = 0
branch_funct on_different = 1

-- `self._words[0]` of the object with an empty list of words that the branch was emitted to.
unfoldable pub first_word : List Entry → ℕ
first_word (word w ∷ entries) = w
first_word _ = 0

-- A branch, emitted to an empty list of words.
unfoldable pub resolve_entry : Dict Text ℕ → Entry → Result AsmError ℕ
unfolding get first_word
resolve_entry labels (word w) = ok w
resolve_entry labels (branch kind rs1 rs2 target at_pc) = elim (get labels target) [
  | none ↦ err (undefined_label target)
  | some address ↦ do
    a ←
        b_type (pos address -ℤ pos at_pc) rs2 rs1 (branch_funct kind)
          (record { words = []; labels = labels })
    ok (first_word a.words)
]

unfoldable pub resolve_entries : Dict Text ℕ → List Entry → Result AsmError (List ℕ)
unfolding resolve_entry
resolve_entries labels [] = ok []
resolve_entries labels (e ∷ es) = do
  w ← resolve_entry labels e
  ws ← resolve_entries labels es
  ok (w ∷ ws)

-- What `assemble` returns or raises; the object that it leaves is `after_assemble`.
unfoldable pub assemble : Assembler → Result AsmError (List ℕ)
unfolding resolve_entries
assemble a = resolve_entries a.labels a.words

-- The words that `assemble` leaves of the words `saved`: it puts them back behind each branch, but not
-- where `_b` raises.
unfoldable pub left_entries : Dict Text ℕ → List Entry → List Entry → List Entry
unfolding get
left_entries labels saved [] = saved
left_entries labels saved (word w ∷ es) = left_entries labels saved es
left_entries labels saved (branch kind rs1 rs2 target at_pc ∷ es) = elim (get labels target) [
  | none ↦ saved
  | some address ↦
      elim (b_type (pos address -ℤ pos at_pc) rs2 rs1 (branch_funct kind)
        (record { words = []; labels = labels })) [
          | err e ↦ []
          | ok a ↦ left_entries labels saved es
        ]
]

unfoldable pub after_assemble : Assembler → Assembler
unfolding left_entries
after_assemble a = record a { words = left_entries a.labels a.words a.words }

-- The text that `write_hex` writes.
unfoldable pub hex_text : List ℕ → Text
unfolding hex_padded join_lines
hex_text ws = join_lines (map (hex_padded b'a' 8) ws) ++ 10 ∷ []

-- `write_hex`, up to the file: the text, or the exception of `assemble`.
unfoldable pub write_hex : Assembler → Result AsmError Text
unfolding assemble hex_text
write_hex a = assemble a >>= λ ws. ok (hex_text ws)
