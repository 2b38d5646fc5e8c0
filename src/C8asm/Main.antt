-- ===== src/C8asm/Main.antt =====
-- modules/cpu8/asm/c8asm.py: `main`, on the text of the input file.
use risc_v_so_c.Base.{
  ℕ, zero, suc, ◌+◌, ◌/◌, ◌%◌, Bool, true, false, ltb, ◌==◌, ◌&&◌, if◌then◌else◌, Option, none,
  some, List, [], ◌∷◌, ◌++◌,
}
use risc_v_so_c.Base.Int.{ℤ}
use risc_v_so_c.Base.Text.{Text, codes}
use risc_v_so_c.Base.Options.{◌>>=◌}
use risc_v_so_c.Base.Results.{ok, err}
use risc_v_so_c.Base.Dict.{Dict}
use risc_v_so_c.C8asm.Syntax.{AsmError, value_error, index_error}
use risc_v_so_c.C8asm.Passes.{Labels, assemble}
use risc_v_so_c.C8asm.Hex.{word_or, to_hex}
use risc_v_so_c.C8asm.Listing.{to_listing}

pub record Args : Type 0 where
  pub input : Text
  pub output : Option Text
  pub bin : Bool
  pub lists : Bool

-- How the program ends: with an exit code, or with an exception.
pub data Ending : Type 0 where
  exit : ℕ → Ending
  raised : AsmError → Ending

-- The files that were written, in order, and the listing.
pub record Outcome : Type 0 where
  pub files : List (Text × List ℕ)
  pub listing : Option Text
  pub ending : Ending

-- The text before the last dot, if there is one.
unfoldable pub before_last_dot : Text → Option Text
before_last_dot [] = none
before_last_dot (c ∷ cs) = elim (before_last_dot cs) [
  | some t ↦ some (c ∷ t)
  | none ↦ if c == b'.' then some [] else none
]

-- `path.rsplit(".", 1)[0]`.
unfoldable pub stem : Text → Text
unfolding before_last_dot
stem path = elim (before_last_dot path) [ none ↦ path | some t ↦ t ]

-- An empty `--output` is false.
unfoldable pub out_path : Args → Text
unfolding stem
out_path args = elim args.output [
  | none ↦ stem args.input ++ codes ".hex"
  | some [] ↦ stem args.input ++ codes ".hex"
  | some (c ∷ cs) ↦ c ∷ cs
]

-- `path.replace(".hex", ".bin")`: `skip` characters belong to the piece that has just been replaced.
unfoldable pub replaced : ℕ → Text → Text
replaced (suc skip) (c ∷ cs) = replaced skip cs
replaced zero (a ∷ b ∷ c ∷ d ∷ cs) = elim (a == b'.' && b == b'h' && c == b'e' && d == b'x') [
  | true ↦ codes ".bin" ++ replaced 3 (b ∷ c ∷ d ∷ cs)
  | false ↦ a ∷ replaced zero (b ∷ c ∷ d ∷ cs)
]
replaced zero (c ∷ cs) = c ∷ replaced zero cs
replaced skip [] = []

-- `bytes([w >> 8, w & 0xFF])` for each word from `address` on; a byte above 255 is a ValueError.
unfoldable pub word_bytes : Dict ℤ ℕ → ℕ → ℕ → Option (List ℕ)
word_bytes words address zero = some []
word_bytes words address (suc n) =
    let w = word_or words 0 address in
    let rest = word_bytes words (address + 1) n in
    if ltb (w / 256) 256 then (rest >>= λ bs. some (w / 256 ∷ w % 256 ∷ bs)) else none

-- `--list`, behind the files.
unfoldable pub listed : Args → Text → Labels → List (Text × List ℕ) → Outcome
unfolding to_listing
listed args src labels files =
    if args.lists
    then (elim (to_listing src labels) [
      | err e ↦ record { files = files; listing = none; ending = raised e }
      | ok text ↦ record { files = files; listing = some text; ending = exit 0 }
    ])
    else record { files = files; listing = none; ending = exit 0 }

-- What `except AsmError` does not catch.
abbrev pub is_caught : AsmError → Bool
is_caught value_error = false
is_caught index_error = false
is_caught other = true

-- A binary file whose bytes are refused stands, cut off.
unfoldable pub main : Args → Text → Outcome
unfolding assemble out_path replaced word_bytes listed to_hex
main args src = elim (assemble src) [
  | err e ↦ record { files = []; listing = none; ending = if is_caught e then exit 1 else raised e }
  | ok (words, labels) ↦
      let path = out_path args in
      let files = (path, to_hex words 0) ∷ [] in
      if args.bin
      then (elim (word_bytes words 0 256) [
        | none ↦ record { files = files; listing = none; ending = raised value_error }
        | some bytes ↦ listed args src labels (files ++ (replaced 0 path, bytes) ∷ [])
      ])
      else listed args src labels files
]
