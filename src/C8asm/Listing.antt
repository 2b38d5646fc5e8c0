-- ===== src/C8asm/Listing.antt =====
-- modules/cpu8/asm/c8asm.py: `to_listing`.
use risc_v_so_c.Base.{ℕ, suc, ◌-◌, Option, none, some, List, [], ◌∷◌, ◌++◌, length, replicate}
use risc_v_so_c.Base.Int.{ℤ, pos, negsuc}
use risc_v_so_c.Base.Text.{Text, codes, strip}
use risc_v_so_c.Base.Dict.{Dict, get, put, int_eq}
use risc_v_so_c.Base.Results.{Result, ok, ◌>>=◌}
use risc_v_so_c.Base.Hex.{hex_padded}
use risc_v_so_c.C8asm.Syntax.{Line, AsmError}
use risc_v_so_c.C8asm.Lexer.{strip_source}
use risc_v_so_c.C8asm.Passes.{Labels, second_pass}
use risc_v_so_c.C8asm.Hex.{join_lines}

-- `{v: k for k, v in labels.items()}`.
unfoldable pub inverted : Labels → Dict ℤ Text → Dict ℤ Text
unfolding put
inverted [] inv = inv
inverted ((label, address) ∷ labels) inv = inverted labels (put inv address label)

-- The format `04X` of an integer; a sign takes one of the places.
unfoldable pub address_text : ℤ → Text
unfolding hex_padded
address_text (pos n) = hex_padded b'A' 4 n
address_text (negsuc n) = b'-' ∷ hex_padded b'A' 3 (suc n)

-- The format `<n`.
unfoldable pub padded : ℕ → Text → Text
padded n t = t ++ replicate (n - length t) 32

unfoldable pub label_text : Dict ℤ Text → ℤ → Text
unfolding get
label_text inv address = elim (get inv address) [ none ↦ [] | some label ↦ label ++ codes ":" ]

unfoldable pub word_row : Dict ℤ Text → Line → ℕ → Text
unfolding address_text hex_padded padded label_text strip
word_row inv ln w =
    address_text ln.addr
    ++ (codes "  "
        ++ (hex_padded b'A' 4 w
            ++ (codes "  " ++ (padded 8 (label_text inv ln.addr) ++ (codes "  " ++ strip ln.raw)))))

-- `ln.label` of a line with a label and no mnemonic; an empty label is false.
unfoldable pub lone_label : Line → Option Text
lone_label ln = elim ln.mnem [
  | some m ↦ none
  | none ↦ elim ln.label [ none ↦ none | some [] ↦ none | some (c ∷ cs) ↦ some (c ∷ cs) ]
]

unfoldable pub label_row : Text → Text
label_row label = replicate 17 32 ++ (label ++ codes ":")

unfoldable pub listing_row : Dict ℤ Text → Line → List Text
unfolding lone_label label_row word_row
listing_row inv ln = elim (lone_label ln) [
  | some label ↦ label_row label ∷ []
  | none ↦ elim ln.word [ none ↦ [] | some w ↦ word_row inv ln w ∷ [] ]
]

unfoldable pub listing_rows : Dict ℤ Text → List Line → List Text
unfolding listing_row
listing_rows inv [] = []
listing_rows inv (ln ∷ lns) = listing_row inv ln ++ listing_rows inv lns

abbrev pub listing_head : List Text
listing_head =
    (codes "Addr  Word  Disasm" ++ (replicate 34 32 ++ codes "  Source")) ∷ replicate 72 b'-' ∷ []

unfoldable pub to_listing : Text → Labels → Result AsmError Text
unfolding strip_source second_pass inverted listing_rows join_lines
to_listing src labels = do
  raw_lines ← strip_source src
  lines ← second_pass raw_lines labels
  ok (join_lines (listing_head ++ listing_rows (inverted labels []) lines))
