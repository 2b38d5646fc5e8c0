-- ===== src/Isa/Assembled/Program.antt =====
-- A whole source: modules/cpu8/asm/c8asm.py's `assemble`, and modules/cpu8/sim/sim.py on the words that it
-- gives.
use risc_v_so_c.Base.{
  ℕ, zero, suc, ◌+◌, ◌<◌, ◌≡◌, ◌≢◌, ◌⊎◌, refl, sym, ◌∙◌, ap, inl, inr, arith, Bool-cases, false,
  Option, none, some, Option-cases, List, [], ◌∷◌, All, All-at, get_elem?, drop,
}
use mathlib.Core.Path.{subst}
use risc_v_so_c.Base.Int.{ℤ, pos, ltb_ℤ, eqb_ℤ}
use risc_v_so_c.Base.Text.{Text, codes}
use risc_v_so_c.Base.Options.{some-injective}
use risc_v_so_c.Base.Results.{ok, ok-injective, bind-ok}
use risc_v_so_c.Base.Dict.{Dict, get, put, int_eq, eqb_ℤ→eq, get-put_self, get-put_ne}
use risc_v_so_c.C8asm.Syntax.{Line}
use risc_v_so_c.C8asm.Lexer.{strip_source}
use risc_v_so_c.C8asm.Passes.{Labels, first_pass, second_pass, encode_line, collect, assemble}
use risc_v_so_c.C8asm.Fresh.{strip_source-AllNew, with_word, second_pass-All}
use risc_v_so_c.C8asm.Hex.{word_or}
use risc_v_so_c.Cpu8.Machine.{Sim, words_from, init}
use risc_v_so_c.Cpu8.Exec.{step}
use risc_v_so_c.Cpu8.Valid.{IsValid}
use risc_v_so_c.Cpu8.Main.Hex.{init-imem}
use risc_v_so_c.Isa.{Insn, Fits, perform}
use risc_v_so_c.Isa.Assembled.Says.{Operands, mnemonic}
use risc_v_so_c.Isa.Assembled.Lines.{step-assembled}
use risc_v_so_c.Isa.Assembled.Files.{first_pass_from-All}

-- The passes of `assemble` on a source.
pub record Passes (src : Text) (placed encoded : List Line) (labels : Labels) (words : Dict ℤ ℕ)
    : Type 0 where
  pub raw : List Line
  pub stripped : strip_source src ≡ ok raw
  pub first : first_pass raw ≡ ok (placed, labels)
  pub second : second_pass placed labels ≡ ok encoded
  pub collected : collect [] encoded ≡ ok words

-- A line that writes no word to an address.
abbrev pub Spares : ℤ → Line → Type 0
Spares a ln = (ln.word ≡ none) ⊎ (ln.addr ≢ a)

collect-some :
    (d : Dict ℤ ℕ) (ln : Line) (lns : List Line) (w : ℕ) {final : Dict ℤ ℕ}
    → ln.word ≡ some w
    → collect d (ln ∷ lns) ≡ ok final
    → collect (put d ln.addr w) lns ≡ ok final
unfolding collect
collect-some d ln lns w e h = elim (Bool-cases (ltb_ℤ (pos 255) ln.addr)) [
  | inl over ↦ absurd (cc (rw (collect, e, over) at h))
  | inr inside ↦ rw (collect, e, inside) at h
]

collect-none :
    (d : Dict ℤ ℕ) (ln : Line) (lns : List Line) {final : Dict ℤ ℕ}
    → ln.word ≡ none
    → collect d (ln ∷ lns) ≡ ok final
    → collect d lns ≡ ok final
unfolding collect
collect-none d ln lns e h = rw (collect, e) at h

other_address : (a b : ℤ) → a ≢ b → eqb_ℤ a b ≡ false
other_address a b ne = elim (Bool-cases (eqb_ℤ a b)) [
  | inl same ↦ absurd (ne (eqb_ℤ→eq a b same))
  | inr other ↦ other
]

collect-keeps :
    (a : ℤ) (w : ℕ) (lns : List Line) (d : Dict ℤ ℕ) {final : Dict ℤ ℕ}
    → get d a ≡ some w
    → All (Spares a) lns
    → collect d lns ≡ ok final
    → get final a ≡ some w
unfolding collect
collect-keeps a w [] d e spare h = subst (λ k. get k a ≡ some w) (ok-injective h) e
collect-keeps a w (ln ∷ lns) d e (p, spare) h = elim (Option-cases ln.word) [
  | inl wordless ↦ collect-keeps a w lns d e spare (collect-none d ln lns wordless h)
  | inr (v, written) ↦ elim p [
    | inl wordless ↦ absurd (cc (sym written ∙ wordless))
    | inr ne ↦
        collect-keeps a w lns (put d ln.addr v)
          (get-put_ne d ln.addr a v (other_address ln.addr a ne) ∙ e) spare
          (collect-some d ln lns v written h)
  ]
]

-- The word of a line stays at its address, unless a later line writes there.
collect-at :
    (i : ℕ) (ln : Line) (w : ℕ) (lns : List Line) (d : Dict ℤ ℕ) {final : Dict ℤ ℕ}
    → get_elem? lns i ≡ some ln
    → ln.word ≡ some w
    → All (Spares ln.addr) (drop (suc i) lns)
    → collect d lns ≡ ok final
    → get final ln.addr ≡ some w
collect-at i ln w [] d e written spare h = cc
collect-at zero ln w (l ∷ lns) d {final} e written spare h =
    let same : l ≡ ln = cc in
    collect-keeps ln.addr w lns (put d ln.addr w) (get-put_self d ln.addr w) spare
      (collect-some d ln lns w written (subst (λ k. collect d (k ∷ lns) ≡ ok final) same h))
collect-at (suc i) ln w (l ∷ lns) d e written spare h = elim (Option-cases l.word) [
  | inl wordless ↦ collect-at i ln w lns d e written spare (collect-none d l lns wordless h)
  | inr (v, here) ↦
      collect-at i ln w lns (put d l.addr v) e written spare (collect-some d l lns v here h)
]

word_or-some : (words : Dict ℤ ℕ) (k w : ℕ) → get words (pos k) ≡ some w → word_or words 0 k ≡ w
word_or-some words k w e = rw (word_or, e) refl

words_from-at :
    (words : Dict ℤ ℕ) (i n k : ℕ)
    → k < n
    → get_elem? (words_from words i n) k ≡ some (word_or words 0 (i + k))
unfolding words_from
words_from-at words i zero k h = absurd (omega arith)
words_from-at words i (suc n) zero h = let e : i + 0 ≡ i = omega arith in rw e refl
words_from-at words i (suc n) (suc k) h =
    let e : i + suc k ≡ i + 1 + k = omega arith in
    rw e (words_from-at words (i + 1) n k (omega arith))

encoded-lines :
    {src : Text} {placed encoded : List Line} {labels : Labels} {words : Dict ℤ ℕ}
    → Passes src placed encoded labels words
    → All (λ ln. (w : ℕ) → ln.word ≡ some w → encode_line ln labels ≡ ok (some w)) encoded
unfolding first_pass encode_line
encoded-lines {src} {placed} {encoded} {labels} p =
    second_pass-All (λ ln. ln.word ≡ none)
      (λ ln. (w : ℕ) → ln.word ≡ some w → encode_line ln labels ≡ ok (some w)) labels keep placed
      (first_pass_from-All (pos 0) [] p.raw (strip_source-AllNew src p.stripped) p.first) p.second
  where
    keep :
        (ln : Line) (o : Option ℕ)
        → ln.word ≡ none
        → encode_line ln labels ≡ ok o
        → (w : ℕ) → (with_word ln o).word ≡ some w
        → encode_line (with_word ln o) labels ≡ ok (some w)
    keep ln none fresh e w h = cc
    keep ln (some v) fresh e w h =
        subst (λ x. encode_line ln labels ≡ ok (some x)) (some-injective h) e

Passes-assemble :
    {src : Text} {placed encoded : List Line} {labels : Labels} {words : Dict ℤ ℕ}
    → Passes src placed encoded labels words
    → assemble src ≡ ok (words, labels)
unfolding assemble
Passes-assemble p =
    bind-ok _ _ p.stripped ∙ bind-ok _ _ p.first ∙ bind-ok _ _ p.second ∙ bind-ok _ _ p.collected

-- Of the lines that `assemble` has placed and encoded, take one that has a word, is no `.WORD`, and at whose
-- address no later line writes. In every well-formed running state of a simulator with the assembled
-- words as its program and the line's address as its program counter, a step performs an instruction
-- that the line says.
pub step-assemble :
    (src : Text) (placed encoded : List Line) (labels : Labels) (words : Dict ℤ ℕ) (i : ℕ)
    (ln : Line) (w : ℕ) (s : Sim)
    → Passes src placed encoded labels words
    → get_elem? encoded i ≡ some ln
    → ln.word ≡ some w
    → ln.mnem ≢ some (codes ".WORD")
    → All (Spares ln.addr) (drop (suc i) encoded)
    → IsValid s
    → s.halted ≡ false
    → s.imem ≡ (init words).imem
    → pos s.pc ≡ ln.addr
    → (assemble src ≡ ok (words, labels))
      × ((n : Insn) × Fits n
          × (ln.mnem ≡ some (mnemonic n))
          × Operands n ln.args labels ln.addr ln.line_no
          × (step s ≡ perform n s))
step-assemble src placed encoded labels words i ln w s p at written plain spare v running program
      here =
    (Passes-assemble p, step-assembled ln labels w s line_word plain v running fetched)
  where
    line_word : encode_line ln labels ≡ ok (some w)
    line_word = All-at _ encoded i ln (encoded-lines p) at w written

    kept : get words ln.addr ≡ some w
    kept = collect-at i ln w encoded [] at written spare p.collected

    whole : pos (0 + s.pc) ≡ ln.addr
    whole = let e : 0 + s.pc ≡ s.pc = omega arith in ap pos e ∙ here

    fetched : get_elem? s.imem s.pc ≡ some w
    fetched =
        ap (λ m. get_elem? m s.pc) (program ∙ init-imem words)
        ∙ words_from-at words 0 256 s.pc v.pc_byte
        ∙ ap some (word_or-some words (0 + s.pc) w (ap (get words) whole ∙ kept))
