-- ===== src/C8asm/Lexer.antt =====
-- modules/cpu8/asm/c8asm.py: `_strip`, with `str.splitlines` and `re.split` on ASCII text.
use risc_v_so_c.Base.{
  ℕ, ◌+◌, Bool, false, not, leb, ◌==◌, ◌&&◌, ◌||◌, if◌then◌else◌, Option, none, some, List, [], ◌∷◌,
  ◌++◌,
}
use risc_v_so_c.Base.Int.{pos}
use risc_v_so_c.Base.Text.{Text, is_space, strip, upper, has_char, before, after}
use risc_v_so_c.Base.Results.{Result, ok, err, ◌>>=◌}
use risc_v_so_c.C8asm.Syntax.{Line, AsmError, index_error}

-- The line boundaries of `splitlines`.
abbrev pub is_break : ℕ → Bool
is_break c = leb 10 c && leb c 13 || leb 28 c && leb c 30

-- `current` is the line so far; a line feed straight after a carriage return ends no line.
unfoldable pub lines_from : Bool → Text → Text → List Text
lines_from after_cr [] [] = []
lines_from after_cr (c ∷ cs) [] = (c ∷ cs) ∷ []
lines_from after_cr current (c ∷ cs) =
    let joined = after_cr && c == 10 in
    let rest = lines_from (c == 13) (if joined || is_break c then [] else current ++ c ∷ []) cs in
    if is_break c && not joined then current ∷ rest else rest

unfoldable pub splitlines : Text → List Text
unfolding lines_from
splitlines src = lines_from false [] src

-- The non-empty pieces of `re.split(r"[,\s]+", text)`.
unfoldable pub tokens_from : Text → Text → List Text
tokens_from [] [] = []
tokens_from (c ∷ cs) [] = (c ∷ cs) ∷ []
tokens_from current (c ∷ cs) =
    let separator = c == b',' || is_space c in
    let rest = tokens_from (if separator then [] else current ++ c ∷ []) cs in
    if separator then (elim current [ [] ↦ rest | d ∷ ds ↦ (d ∷ ds) ∷ rest ]) else rest

abbrev pub label_line : ℕ → Text → Option Text → Line
label_line n raw label = record {
  line_no = n;
  raw = raw;
  label = label;
  mnem = none;
  args = [];
  addr = pos 0;
  word = none;
}

-- `tokens[0].upper()` and `tokens[1:]`; a text of commas alone has no token.
unfoldable pub with_tokens : ℕ → Text → Option Text → List Text → Result AsmError (List Line)
with_tokens n raw label [] = err index_error
with_tokens n raw label (t ∷ ts) = ok (
    record {
      line_no = n;
      raw = raw;
      label = label;
      mnem = some (upper t);
      args = ts;
      addr = pos 0;
      word = none;
    }
    ∷ [])

-- The rest of a line behind its label.
unfoldable pub with_text : ℕ → Text → Option Text → Text → Result AsmError (List Line)
unfolding with_tokens tokens_from
with_text n raw label [] = ok (label_line n raw label ∷ [])
with_text n raw label (c ∷ cs) = with_tokens n raw label (tokens_from [] (c ∷ cs))

-- The body of the loop of `_strip`: no line for a blank or a comment.
unfoldable pub strip_line : ℕ → Text → Result AsmError (List Line)
unfolding with_text strip upper before after has_char
strip_line n raw =
    let text = strip (before b';' raw) in
    elim text [
      | [] ↦ ok []
      | c ∷ cs ↦
          if has_char b':' (c ∷ cs)
          then with_text n raw (some (strip (before b':' (c ∷ cs)))) (strip (after b':' (c ∷ cs)))
          else with_text n raw none (c ∷ cs)
    ]

unfoldable pub strip_lines : ℕ → List Text → Result AsmError (List Line)
unfolding strip_line
strip_lines n [] = ok []
strip_lines n (raw ∷ raws) = do
  first ← strip_line n raw
  rest ← strip_lines (n + 1) raws
  ok (first ++ rest)

unfoldable pub strip_source : Text → Result AsmError (List Line)
unfolding splitlines strip_lines
strip_source src = strip_lines 1 (splitlines src)
