-- ===== src/C8asm/Fresh.antt =====
-- The lines of modules/cpu8/asm/c8asm.py's `_strip` have no address and no word yet, and what
-- `_second_pass` and `to_listing` make of them.
use risc_v_so_c.Base.{
  ℕ, ◌+◌, ◌≡◌, ◌⊎◌, refl, sym, ◌∙◌, ap, inl, inr, Bool-cases, Option, none, some, Option-cases,
  List, [], ◌∷◌, ◌++◌, All, All-append, if◌then◌else◌,
}
use mathlib.Core.Path.{subst}
use risc_v_so_c.Base.Int.{ℤ, pos}
use risc_v_so_c.Base.Text.{Text, codes, strip, before, after, has_char}
use risc_v_so_c.Base.Results.{Result, ok, >>=-eq-ok, ok-injective}
use risc_v_so_c.Base.Dict.{Dict}
use risc_v_so_c.Base.Hex.{hex_from, hex_padded}
use risc_v_so_c.C8asm.Syntax.{Line, AsmError}
use risc_v_so_c.C8asm.Lexer.{
  tokens_from, with_tokens, with_text, strip_line, strip_lines, strip_source, splitlines,
}
use risc_v_so_c.C8asm.Passes.{Labels, encode_line, second_pass}
use risc_v_so_c.C8asm.Hex.{join_lines}
use risc_v_so_c.C8asm.Listing.{
  address_text, padded, label_text, word_row, lone_label, label_row, listing_row, listing_rows,
  listing_head, inverted, to_listing,
}

-- A line as `_strip` makes it.
pub record IsNew (ln : Line) : Type 0 where
  pub no_address : ln.addr ≡ pos 0
  pub no_word : ln.word ≡ none

abbrev pub AllNew : List Line → Type 0
AllNew = All IsNew

new : {ln : Line} → ln.addr ≡ pos 0 → ln.word ≡ none → IsNew ln
new a w = record { no_address = a; no_word = w }

module _ (n : ℕ) (raw : Text) where
  with_tokens-AllNew :
      (label : Option Text) (ts : List Text) {lns : List Line}
      → with_tokens n raw label ts ≡ ok lns
      → AllNew lns
  unfolding with_tokens
  with_tokens-AllNew label [] h = cc
  with_tokens-AllNew label (t ∷ ts) h = subst AllNew (ok-injective h) (new refl refl, tt)

  with_text-AllNew :
      (label : Option Text) (text : Text) {lns : List Line}
      → with_text n raw label text ≡ ok lns
      → AllNew lns
  unfolding with_text
  with_text-AllNew label [] h = subst AllNew (ok-injective h) (new refl refl, tt)
  with_text-AllNew label (c ∷ cs) h = with_tokens-AllNew label (tokens_from [] (c ∷ cs)) h

  strip_line-AllNew : {lns : List Line} → strip_line n raw ≡ ok lns → AllNew lns
  unfolding strip_line
  strip_line-AllNew {lns} h = cases (strip (before b';' raw)) refl h
    where
      cases :
          (text : Text)
          → strip (before b';' raw) ≡ text
          → (elim text as (λ _. Result AsmError (List Line)) [
            | [] ↦ ok []
            | c ∷ cs ↦
                if has_char b':' (c ∷ cs)
                then with_text n raw
                    (some (strip (before b':' (c ∷ cs))))
                    (strip (after b':' (c ∷ cs)))
                else with_text n raw none (c ∷ cs)
          ])
            ≡ ok lns
          → AllNew lns
      cases [] e g = subst AllNew (ok-injective g) tt
      cases (c ∷ cs) e g = elim (Bool-cases (has_char b':' (c ∷ cs))) [
        | inl labelled ↦
            with_text-AllNew (some (strip (before b':' (c ∷ cs)))) (strip (after b':' (c ∷ cs)))
              (rw labelled at g)
        | inr bare ↦ with_text-AllNew none (c ∷ cs) (rw bare at g)
      ]

strip_lines-AllNew :
    (n : ℕ) (raws : List Text) {lns : List Line} → strip_lines n raws ≡ ok lns → AllNew lns
unfolding strip_lines
strip_lines-AllNew n [] h = subst AllNew (ok-injective h) tt
strip_lines-AllNew n (raw ∷ raws) h =
    let (first, e, h₁) = >>=-eq-ok (strip_line n raw) _ h in
    let (rest, e', h₂) = >>=-eq-ok (strip_lines (n + 1) raws) _ h₁ in
    subst AllNew (ok-injective h₂)
      (All-append IsNew first rest (strip_line-AllNew n raw e) (strip_lines-AllNew (n + 1) raws e'))

pub strip_source-AllNew : (src : Text) {lns : List Line} → strip_source src ≡ ok lns → AllNew lns
unfolding strip_source
strip_source-AllNew src h = strip_lines-AllNew 1 (splitlines src) h

abbrev pub with_word : Line → Option ℕ → Line
with_word ln none = ln
with_word ln (some w) = record ln { word = some w }

-- What each line has once it is encoded, all of them have behind `_second_pass`.
pub second_pass-All :
    (P Q : Line → Type 0) (labels : Labels)
    → ((ln : Line) (w : Option ℕ) → P ln → encode_line ln labels ≡ ok w → Q (with_word ln w))
    → (lns : List Line) {encoded : List Line} → All P lns
    → second_pass lns labels ≡ ok encoded
    → All Q encoded
unfolding second_pass
second_pass-All P Q labels keep [] all h = subst (All Q) (ok-injective h) tt
second_pass-All P Q labels keep (ln ∷ lns) (p, all) h =
    let (w, e, h₁) = >>=-eq-ok (encode_line ln labels) _ h in
    let (rest, e', h₂) = >>=-eq-ok (second_pass lns labels) _ h₁ in
    let done = second_pass-All P Q labels keep lns all e' in
    subst (All Q) (with_word-list ln w rest ∙ ok-injective h₂) (keep ln w p e, done)
  where
    with_word-list :
        (ln : Line) (w : Option ℕ) (rest : List Line)
        → with_word ln w ∷ rest ≡ (elim w as (λ _. List Line) [
          | none ↦ ln ∷ rest
          | some v ↦ record ln { word = some v } ∷ rest
        ])
    with_word-list ln none rest = refl
    with_word-list ln (some w) rest = refl

-- The row of a word in a listing, whose address column is 0000, or the row of a label.
pub IsRow : Text → Type 0
IsRow row =
    ((rest : Text) × (row ≡ codes "0000  " ++ rest)) ⊎ ((label : Text) × (row ≡ label_row label))

word_row-zero :
    (inv : Dict ℤ Text) (ln : Line) (w : ℕ)
    → ln.addr ≡ pos 0
    → (rest : Text) × (word_row inv ln w ≡ codes "0000  " ++ rest)
unfolding word_row address_text hex_padded hex_from
word_row-zero inv ln w e =
    let rest =
      hex_padded b'A' 4 w
      ++ (codes "  " ++ (padded 8 (label_text inv ln.addr) ++ (codes "  " ++ strip ln.raw))) in
    (rest, ap (λ a. address_text a ++ (codes "  " ++ rest)) e)

listing_row-IsRow :
    (inv : Dict ℤ Text) (ln : Line) → ln.addr ≡ pos 0 → All IsRow (listing_row inv ln)
unfolding listing_row IsRow
listing_row-IsRow inv ln e = elim (Option-cases (lone_label ln)) [
  | inr (label, lone) ↦ rw (listing_row, lone) (inr (label, refl), tt)
  | inl other ↦ elim (Option-cases ln.word) [
    | inl wordless ↦ rw (listing_row, other, wordless) tt
    | inr (w, encoded) ↦ rw (listing_row, other, encoded) (inl (word_row-zero inv ln w e), tt)
  ]
]

listing_rows-IsRow :
    (inv : Dict ℤ Text) (lns : List Line)
    → All (λ ln. ln.addr ≡ pos 0) lns
    → All IsRow (listing_rows inv lns)
unfolding listing_rows
listing_rows-IsRow inv [] all = tt
listing_rows-IsRow inv (ln ∷ lns) (e, all) =
    All-append IsRow (listing_row inv ln) _ (listing_row-IsRow inv ln e)
      (listing_rows-IsRow inv lns all)

-- Every row of a listing stands under its head as the row of a label, or with the address 0000 in its first
-- column, wherever the assembler has put the line.
pub to_listing-IsRow :
    (src : Text) (labels : Labels) (text : Text)
    → to_listing src labels ≡ ok text
    → (rows : List Text) × (text ≡ join_lines (listing_head ++ rows)) × All IsRow rows
unfolding to_listing
to_listing-IsRow src labels text h =
    let (raw, e, h₁) = >>=-eq-ok (strip_source src) _ h in
    let (lines, e', h₂) = >>=-eq-ok (second_pass raw labels) _ h₁ in
    let at_zero =
      second_pass-All IsNew (λ ln. ln.addr ≡ pos 0) labels keep raw (strip_source-AllNew src e)
        e' in
    (
      listing_rows (inverted labels []) lines,
      sym (ok-injective h₂),
      listing_rows-IsRow (inverted labels []) lines at_zero,
    )
  where
    keep :
        (ln : Line) (w : Option ℕ)
        → IsNew ln
        → encode_line ln labels ≡ ok w
        → (with_word ln w).addr ≡ pos 0
    keep ln none new e = new.no_address
    keep ln (some w) new e = new.no_address
