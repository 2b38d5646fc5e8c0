-- ===== src/Cpu8/Main/Ends.antt =====
-- What `main` of modules/cpu8/sim/sim.py prints of the words that it has read.
use risc_v_so_c.Base.{
  ℕ, zero, suc, ◌+◌, ◌≤◌, ◌≡◌, refl, ◌∙◌, arith, Bool, true, false, some, List, [], ◌++◌, length,
  if◌then◌else◌,
}
use risc_v_so_c.Base.Int.{ℤ}
use risc_v_so_c.Base.Text.{Text}
use risc_v_so_c.Base.Options.{bind-eq}
use risc_v_so_c.Base.Results.{ok}
use risc_v_so_c.Base.Dict.{Dict}
use risc_v_so_c.Cpu8.Machine.{Sim, init}
use risc_v_so_c.C8asm.Passes.{Labels, assemble}
use risc_v_so_c.Cpu8.Valid.{IsValid}
use risc_v_so_c.Cpu8.Run.{Ends, init-IsValid, run-Ends}
use risc_v_so_c.Cpu8.Exec.{run}
use risc_v_so_c.Cpu8.Trace.{trace_rows}
use risc_v_so_c.Cpu8.Trace.Rows.{reg_read-some, trace_rows-cycles}
use risc_v_so_c.Cpu8.Main.{register_rows, dump, printed, load_words, main}

register_rows-some :
    (s : Sim) (left i : ℕ)
    → IsValid s
    → i + left ≤ 8
    → (rows : List Text) × (register_rows s left i ≡ some rows)
unfolding register_rows
register_rows-some s zero i valid h = ([], refl)
register_rows-some s (suc left) i valid h =
    let (v, e) = reg_read-some s i valid (omega arith) in
    let (rows, e') = register_rows-some s left (i + 1) valid (omega arith) in
    (_, bind-eq _ _ e ∙ bind-eq _ _ e')

printed-some :
    (dumps : Bool) (n : ℕ) (s : Sim)
    → IsValid s
    → (lines : List Text) × (printed dumps (n, s) ≡ some lines)
unfolding printed dump
printed-some false n s valid = (_, refl)
printed-some true n s valid =
    let (rows, e) = register_rows-some s 8 0 valid (omega arith) in (_, bind-eq _ _ (bind-eq _ _ e))

init_cycles : (words : Dict ℤ ℕ) → (init words).cycles ≡ 0
unfolding init
init_cycles words = refl

row_count :
    (traces : Bool) (k n l : ℕ)
    → k ≡ 0
    → k + l ≡ (if traces then n else k)
    → l ≡ (if traces then n else 0)
row_count true k n l e h = omega arith
row_count false k n l e h = omega arith

main_lines :
    (is_hex : Bool) (file : Text) (words : Dict ℤ ℕ) (cycles : ℕ) (traces dumps : Bool) (s : Sim)
    (rows lines : List Text)
    → load_words is_hex file ≡ ok words
    → run cycles (init words) ≡ some (some (s.cycles, s))
    → trace_rows traces cycles (init words) ≡ some rows
    → printed dumps (s.cycles, s) ≡ some lines
    → main is_hex file cycles traces dumps ≡ ok (some (rows ++ lines))
unfolding main
main_lines is_hex file words cycles traces dumps s rows lines e ran traced text =
    rw (e, ran, traced, text) refl

-- Where `main` has read words from its input, it ends with no exception. The run of a new simulator for
-- the words gives a state: halted or at the limit of cycles, well formed, with the program untouched, and
-- with no cycle spent above the limit. With `--trace` the lines of `trace_rows` for this run come first,
-- one for each cycle, and without it none. Then come the cycle count and with `--dump` the state.
pub main-Ends :
    (is_hex : Bool) (file : Text) (words : Dict ℤ ℕ) (cycles : ℕ) (traces dumps : Bool)
    → load_words is_hex file ≡ ok words
    → (s : Sim) × (rows lines : List Text) × (main is_hex file cycles traces dumps
        ≡ ok (some (rows ++ lines)))
      × (run cycles (init words) ≡ some (some (s.cycles, s)))
      × (trace_rows traces cycles (init words) ≡ some rows)
      × (length rows ≡ (if traces then s.cycles else 0))
      × (printed dumps (s.cycles, s) ≡ some lines)
      × Ends cycles (init words) s
main-Ends is_hex file words cycles traces dumps e =
    let (s, ran, ends) = run-Ends cycles (init words) (init-IsValid words) in
    let (rows, traced, long) =
      trace_rows-cycles traces cycles (init words) s (init-IsValid words) ran in
    let (lines, text) = printed-some dumps s.cycles s ends.valid in
    (
      s,
      rows,
      lines,
      main_lines is_hex file words cycles traces dumps s rows lines e ran traced text,
      ran,
      traced,
      row_count traces (init words).cycles s.cycles (length rows) (init_cycles words) long,
      text,
      ends,
    )

pub load_words-assembled :
    (src : Text) (words : Dict ℤ ℕ) (labels : Labels)
    → assemble src ≡ ok (words, labels)
    → load_words false src ≡ ok words
unfolding load_words
load_words-assembled src words labels e = rw (load_words, e) refl
