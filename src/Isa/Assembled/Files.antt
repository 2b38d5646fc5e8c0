-- ===== src/Isa/Assembled/Files.antt =====
-- The files of modules/cpu8/asm/c8asm.py's `main`: every word of a program has 16 bits.
use risc_v_so_c.Base.{
  ℕ, zero, suc, ◌+◌, ◌*◌, ◌/◌, ◌%◌, ◌<◌, ◌≡◌, ◌⊎◌, refl, sym, inl, inr, Bool-cases, true, ltb,
  arith, Option, none, some, Option-cases, List, [], ◌∷◌, All, length, if◌then◌else◌,
}
use mathlib.Core.Path.{subst, ap₂}
use risc_v_so_c.Base.Bits.{wrap-lt}
use risc_v_so_c.Base.Int.{ℤ, pos, ltb_ℤ}
use risc_v_so_c.Base.Text.{Text}
use risc_v_so_c.Base.Options.{some-injective}
use risc_v_so_c.Base.Options
use risc_v_so_c.Base.Results.{Result, ok, err, >>=-eq-ok, ok-injective}
use risc_v_so_c.Base.Dict.{Dict, get, put, put-All, get-All, int_eq}
use risc_v_so_c.C8asm.Syntax.{Line, AsmError}
use risc_v_so_c.C8asm.Lexer.{strip_source}
use risc_v_so_c.C8asm.Passes.{
  Labels, define_label, place, first_pass_from, first_pass, second_pass, encode_line, collect,
  assemble,
}
use risc_v_so_c.C8asm.Fresh.{IsNew, strip_source-AllNew, with_word, second_pass-All}
use risc_v_so_c.C8asm.Hex.{word_or, to_hex}
use risc_v_so_c.C8asm.Main.{
  Args, out_path, replaced, word_bytes, listed, Outcome, exit, raised, main,
}
use risc_v_so_c.C8asm.Listing.{to_listing}
use risc_v_so_c.Cpu8.Machine.{words_from}
use risc_v_so_c.Isa.{
  Insn, Fits, encode, nop, ret, hlt, alu, cmp, shf, ldi, ld, st, br, jmp, call, alu_op,
}
use risc_v_so_c.Isa.Formats.{encode_r_sum, encode_i_sum, encode_b_sum, encode_j_sum, encode_mem_sum}
use risc_v_so_c.Isa.Execute.{alu_op-lt}
use risc_v_so_c.Isa.Assembled.Lines.{encode_line-Assembled}

encode-lt : (i : Insn) → Fits i → encode i < 65536
unfolding encode
encode-lt nop f = omega arith
encode-lt ret f = omega arith
encode-lt hlt f = omega arith
encode-lt (alu o rd rs1 rs2) (p, q, r) =
    omega
      (arith, alu_op-lt o, encode_r_sum (alu_op o) rd rs1 rs2 0 (alu_op-lt o) p q r (omega arith))
encode-lt (cmp rs1 rs2) (q, r) =
    omega (arith, encode_r_sum 7 0 rs1 rs2 0 (omega arith) (omega arith) q r (omega arith))
encode-lt (shf rd rs1 fn) (p, q, r) =
    omega (arith, encode_r_sum 6 rd rs1 0 fn (omega arith) p q (omega arith) (omega arith))
encode-lt (ldi rd imm) (p, q) =
    omega (arith, encode_i_sum 8 rd (pos imm) (omega arith) p, wrap-lt 9 (pos imm))
encode-lt (ld rd rs1 off) (p, q, _, _) =
    omega (arith, encode_mem_sum 9 rd rs1 off (omega arith) p q, wrap-lt 6 off)
encode-lt (st rs2 rs1 off) (p, q, _, _) =
    omega (arith, encode_mem_sum 10 rs2 rs1 off (omega arith) p q, wrap-lt 6 off)
encode-lt (br c off) (p, _, _) = omega (arith, encode_b_sum 11 c off (omega arith) p, wrap-lt 9 off)
encode-lt (jmp a) f = omega (arith, encode_j_sum 12 (pos a) (omega arith), wrap-lt 8 (pos a))
encode-lt (call a) f = omega (arith, encode_j_sum 13 (pos a) (omega arith), wrap-lt 8 (pos a))

encode_line-lt :
    (ln : Line) (labels : Labels) (w : ℕ) → encode_line ln labels ≡ ok (some w) → w < 65536
encode_line-lt ln labels w h = elim (encode_line-Assembled ln labels w h) [
  | inl (_, lt) ↦ lt
  | inr (m, _, c) ↦ subst (λ v. v < 65536) (sym c.same_word) (encode-lt c.insn c.fits)
]

-- The word of a line, if there is one, has 16 bits.
abbrev Small : Option ℕ → Type 0
Small none = Unit
Small (some w) = w < 65536

pub first_pass_from-All :
    (pc : ℤ) (labels : Labels) (lns : List Line) {placed : List Line} {final : Labels}
    → All IsNew lns
    → first_pass_from pc labels lns ≡ ok (placed, final)
    → All (λ ln. ln.word ≡ none) placed
unfolding first_pass_from
first_pass_from-All pc labels [] {placed} all h =
    subst (λ (r : List Line × Labels). All (λ ln. ln.word ≡ none) r.0) (ok-injective h) tt
first_pass_from-All pc labels (ln ∷ lns) (new, all) h =
    let (labels', _, h₁) = >>=-eq-ok (define_label ln.label pc ln.line_no labels) _ h in
    let ((addr, pc'), _, h₂) = >>=-eq-ok (place ln pc) _ h₁ in
    let ((rest, end), e, h₃) = >>=-eq-ok (first_pass_from pc' labels' lns) _ h₂ in
    subst (λ (r : List Line × Labels). All (λ ln. ln.word ≡ none) r.0) (ok-injective h₃)
      (new.no_word, first_pass_from-All pc' labels' lns all e)

second_pass-Small :
    (labels : Labels) (lns : List Line) {encoded : List Line}
    → All (λ ln. ln.word ≡ none) lns
    → second_pass lns labels ≡ ok encoded
    → All (λ ln. Small ln.word) encoded
second_pass-Small labels lns all h =
    second_pass-All (λ ln. ln.word ≡ none) (λ ln. Small ln.word) labels keep lns all h
  where
    keep :
        (ln : Line) (w : Option ℕ)
        → ln.word ≡ none
        → encode_line ln labels ≡ ok w
        → Small (with_word ln w).word
    keep ln none e h = subst Small (sym e) tt
    keep ln (some w) e h = encode_line-lt ln labels w h

AllSmall : Dict ℤ ℕ → Type 0
AllSmall = All (λ (entry : ℤ × ℕ). entry.1 < 65536)

collect-AllSmall :
    (words : Dict ℤ ℕ) (lns : List Line) {final : Dict ℤ ℕ}
    → AllSmall words
    → All (λ ln. Small ln.word) lns
    → collect words lns ≡ ok final
    → AllSmall final
unfolding collect AllSmall
collect-AllSmall words [] small all h = subst AllSmall (ok-injective h) small
collect-AllSmall words (ln ∷ lns) small (lt, all) h = elim (Option-cases ln.word) [
  | inl wordless ↦ collect-AllSmall words lns small all (rw (collect, wordless) at h)
  | inr (w, e) ↦ elim (Bool-cases (ltb_ℤ (pos 255) ln.addr)) [
    | inl over ↦ absurd (cc (rw (collect, e, over) at h))
    | inr inside ↦
        collect-AllSmall (put words ln.addr w) lns
          (put-All (λ v. v < 65536) words ln.addr w small (subst Small e lt)) all
          (rw (collect, e, inside) at h)
  ]
]

assemble-AllSmall :
    (src : Text) (words : Dict ℤ ℕ) (labels : Labels)
    → assemble src ≡ ok (words, labels)
    → AllSmall words
unfolding assemble first_pass
assemble-AllSmall src words labels h =
    let (raw, e, h₁) = >>=-eq-ok (strip_source src) _ h in
    let ((lines, found), e₁, h₂) = >>=-eq-ok (first_pass raw) _ h₁ in
    let (encoded, e₂, h₃) = >>=-eq-ok (second_pass lines found) _ h₂ in
    let (final, e₃, h₄) = >>=-eq-ok (collect [] encoded) _ h₃ in
    let placed = first_pass_from-All (pos 0) [] raw (strip_source-AllNew src e) e₁ in
    let small =
      collect-AllSmall [] encoded (unfold AllSmall in tt) (second_pass-Small found lines placed e₂)
        e₃ in
    subst (λ (r : Dict ℤ ℕ × Labels). AllSmall r.0) (ok-injective h₄) small

-- The words whose high and low bytes follow each other.
unfoldable pub paired : List ℕ → List ℕ
paired (high ∷ low ∷ bytes) = (high * 256 + low) ∷ paired bytes
paired _ = []

word_or-lt : (words : Dict ℤ ℕ) (address : ℕ) → AllSmall words → word_or words 0 address < 65536
unfolding AllSmall
word_or-lt words address small = elim (Option-cases (get words (pos address))) [
  | inl missing ↦ rw (word_or, missing) (omega arith)
  | inr (w, e) ↦ rw (word_or, e) (get-All (λ v. v < 65536) words (pos address) w small e)
]

word_bytes-some :
    (words : Dict ℤ ℕ) (address n : ℕ)
    → AllSmall words
    → (bytes : List ℕ) × (word_bytes words address n ≡ some bytes)
      × (length bytes ≡ n * 2)
      × (paired bytes ≡ words_from words address n)
unfolding word_bytes words_from paired
word_bytes-some words address zero small = ([], refl, refl, refl)
word_bytes-some words address (suc n) small =
    let w = word_or words 0 address in
    let (rest, e, long, pairs) = word_bytes-some words (address + 1) n small in
    let byte : ltb (w / 256) 256 ≡ true = ground (arith, word_or-lt words address small) in
    let whole : w / 256 * 256 + w % 256 ≡ w = omega arith in
    (
      w / 256 ∷ w % 256 ∷ rest,
      rw (byte, e, Options.◌>>=◌) refl,
      omega (arith, long),
      ap₂ (λ v vs. v ∷ vs) whole pairs,
    )

listed-files :
    (args : Args) (src : Text) (labels : Labels) (files : List (Text × List ℕ))
    → ((listed args src labels files).files ≡ files)
      × (((listed args src labels files).ending ≡ exit 0) ⊎ (args.lists ≡ true))
unfolding listed
listed-files args src labels files = elim (Bool-cases args.lists) [
  | inr silent ↦ (rw silent refl, inl (rw silent refl))
  | inl wanted ↦ (rw wanted (same (to_listing src labels)), inr wanted)
]
  where
    same :
        (r : Result AsmError Text)
        → (elim r as (λ _. Outcome) [
          | err e ↦ record { files = files; listing = none; ending = raised e }
          | ok text ↦ record { files = files; listing = some text; ending = exit 0 }
        ]).files
          ≡ files
    same (err e) = refl
    same (ok text) = refl

-- For a source that assembles, `main` writes the text of `to_hex` to its output path, and with `--bin` then
-- 512 bytes to the other path, which are the words of all 256 addresses with their high bytes first. It
-- ends with exit code 0, unless a listing was asked for.
pub main-files :
    (args : Args) (src : Text) (words : Dict ℤ ℕ) (labels : Labels)
    → assemble src ≡ ok (words, labels)
    → (bytes : List ℕ) × (length bytes ≡ 512)
      × (paired bytes ≡ words_from words 0 256)
      × ((main args src).files
          ≡ (out_path args, to_hex words 0)
            ∷ (if args.bin then (replaced 0 (out_path args), bytes) ∷ [] else []))
      × (((main args src).ending ≡ exit 0) ⊎ (args.lists ≡ true))
unfolding main
main-files args src words labels e =
    let (bytes, e', long, pairs) =
      word_bytes-some words 0 256 (assemble-AllSmall src words labels e) in
    let path = out_path args in
    elim (Bool-cases args.bin) [
      | inl both ↦
          let files = (path, to_hex words 0) ∷ (replaced 0 path, bytes) ∷ [] in
          let (written, ending) = listed-files args src labels files in
          (bytes, long, pairs, rw (main, e, both, e') written, rw (main, e, both, e') ending)
      | inr one ↦
          let (written, ending) = listed-files args src labels ((path, to_hex words 0) ∷ []) in
          (bytes, long, pairs, rw (main, e, one) written, rw (main, e, one) ending)
    ]
