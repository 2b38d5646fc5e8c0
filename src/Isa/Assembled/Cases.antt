-- ===== src/Isa/Assembled/Cases.antt =====
-- `_second_pass` by mnemonic: what the chain of tests encodes is what the line says.
use risc_v_so_c.Base.{
  ℕ, ◌<◌, ◌≡◌, refl, sym, ap, ◌∙◌, arith, Option, some, List, false, Bool-cases, inl, inr,
}
use mathlib.Core.Path.{subst}
use risc_v_so_c.Base.Int.{ℤ, pos, ◌-ℤ◌}
use risc_v_so_c.Base.Text.{Text, codes, upper, text_eq, text_eq→eq}
use risc_v_so_c.Base.Dict.{get, text_key}
use risc_v_so_c.Base.Results.{ok, err}
use risc_v_so_c.C8asm.Syntax.{unhandled_mnemonic}
use risc_v_so_c.C8asm.Encode.{
  opcodes, shf_fn, cc_codes, encode_r, encode_i, encode_j, encode_b, encode_mem,
}
use risc_v_so_c.C8asm.Passes.{Labels, is, encode_alu, encode_op}
use risc_v_so_c.Isa.{
  Alu, encode, alu_op, add, sub, and, or, xor, alu, cmp, shf, ldi, ld, st, br, jmp, call,
}
use risc_v_so_c.Isa.Assembled.{
  parse_reg-lt, parse_mem-range, encode_alu-ok, encode_cmp-ok, encode_shf-ok, encode_ldi-ok,
  encode_ld-ok, encode_st-ok, encode_br-ok, encode_jump-ok,
}
use risc_v_so_c.Isa.Assembled.Says.{alu_name, Encodes}

shf_fn-lt : (t : Text) (v : ℕ) → get shf_fn t ≡ some v → v < 3
unfolding get
shf_fn-lt t v h = ground arith

pub cc_codes-lt : (t : Text) (v : ℕ) → get cc_codes t ≡ some v → v < 8
unfolding get
cc_codes-lt t v h = ground arith

module _ (a : List Text) (labels : Labels) (addr : ℤ) (n op w : ℕ) where
  -- What is to be shown of a mnemonic.
  abbrev pub Case : Text → Type 0
  Case m =
      get opcodes m ≡ some op → encode_op op m a labels addr n ≡ ok w → Encodes m a labels addr n w

  known : (k : ℕ) → ◌≡◌ {A = Option ℕ} (some k) (some op) → op ≡ k
  known k h = cc

  alu_word :
      (o : Alu)
      → op ≡ alu_op o
      → encode_alu op (alu_name o) a n ≡ ok w
      → Encodes (alu_name o) a labels addr n w
  unfolding encode
  alu_word o e h =
      let (x, y, z, rd, rs1, rs2, shape, p, q, r, word) = encode_alu-ok op (alu_name o) a n w h in
      record {
        insn = alu o rd rs1 rs2;
        fits = (parse_reg-lt x n rd p, parse_reg-lt y n rs1 q, parse_reg-lt z n rs2 r);
        same_mnemonic = refl;
        operands = (x, y, z, shape, p, q, r);
        same_word = word ∙ ap (λ k. encode_r k rd rs1 rs2 0) e;
      }

  alu-Case : (o : Alu) → Case (alu_name o)
  unfolding encode_op get text_eq
  alu-Case add g h = alu_word add (known 1 g) h
  alu-Case sub g h = alu_word sub (known 2 g) h
  alu-Case and g h = alu_word and (known 3 g) h
  alu-Case or g h = alu_word or (known 4 g) h
  alu-Case xor g h = alu_word xor (known 5 g) h

  cmp-Case : Case (codes "CMP")
  unfolding encode_op get text_eq encode
  cmp-Case g h =
      let (x, y, rs1, rs2, shape, p, q, word) = encode_cmp-ok op (codes "CMP") a n w h in
      record {
        insn = cmp rs1 rs2;
        fits = (parse_reg-lt x n rs1 p, parse_reg-lt y n rs2 q);
        same_mnemonic = refl;
        operands = (x, y, shape, p, q);
        same_word = word ∙ ap (λ k. encode_r k 0 rs1 rs2 0) (known 7 g);
      }

  shf-Case : Case (codes "SHF")
  unfolding encode_op get text_eq encode
  shf-Case g h =
      let (x, y, z, rd, rs1, fn, shape, p, q, f, word) = encode_shf-ok op (codes "SHF") a n w h in
      record {
        insn = shf rd rs1 fn;
        fits = (parse_reg-lt x n rd p, parse_reg-lt y n rs1 q, shf_fn-lt (upper z) fn f);
        same_mnemonic = refl;
        operands = (x, y, z, shape, p, q, f);
        same_word = word ∙ ap (λ k. encode_r k rd rs1 0 fn) (known 6 g);
      }

  ldi-Case : Case (codes "LDI")
  unfolding encode_op get text_eq encode
  ldi-Case g h =
      let (x, y, rd, imm, shape, p, q, lt, word) = encode_ldi-ok op (codes "LDI") a labels n w h in
      record {
        insn = ldi rd imm;
        fits = (parse_reg-lt x n rd p, lt);
        same_mnemonic = refl;
        operands = (x, y, shape, p, q);
        same_word = word ∙ ap (λ k. encode_i k rd (pos imm)) (known 8 g);
      }

  ld-Case : Case (codes "LD")
  unfolding encode_op get text_eq encode
  ld-Case g h =
      let (x, y, rd, rs1, off, shape, p, q, word) = encode_ld-ok op (codes "LD") a n w h in
      let (r, range) = parse_mem-range y n rs1 off q in
      record {
        insn = ld rd rs1 off;
        fits = (parse_reg-lt x n rd p, r, range.0, range.1);
        same_mnemonic = refl;
        operands = (x, y, shape, p, q);
        same_word = word ∙ ap (λ k. encode_mem k rd rs1 off) (known 9 g);
      }

  st-Case : Case (codes "ST")
  unfolding encode_op get text_eq encode
  st-Case g h =
      let (x, y, rs1, off, rs2, shape, p, q, word) = encode_st-ok op (codes "ST") a n w h in
      let (r, range) = parse_mem-range x n rs1 off p in
      record {
        insn = st rs2 rs1 off;
        fits = (parse_reg-lt y n rs2 q, r, range.0, range.1);
        same_mnemonic = refl;
        operands = (x, y, shape, p, q);
        same_word = word ∙ ap (λ k. encode_mem k rs2 rs1 off) (known 10 g);
      }

  br-Case : Case (codes "BR")
  unfolding encode_op get text_eq encode
  br-Case g h =
      let (x, y, c, t, shape, f, p, lo, hi, word) =
        encode_br-ok op (codes "BR") a labels addr n w h in
      record {
        insn = br c (t -ℤ addr);
        fits = (cc_codes-lt (upper x) c f, lo, hi);
        same_mnemonic = refl;
        operands = (x, y, t, shape, f, p, refl);
        same_word = word ∙ ap (λ k. encode_b k c (t -ℤ addr)) (known 11 g);
      }

  jmp-Case : Case (codes "JMP")
  unfolding encode_op get text_eq encode
  jmp-Case g h =
      let (x, t, shape, p, lt, word) = encode_jump-ok op (codes "JMP") a labels n w h in
      record {
        insn = jmp t;
        fits = lt;
        same_mnemonic = refl;
        operands = (x, shape, p);
        same_word = word ∙ ap (λ k. encode_j k (pos t)) (known 12 g);
      }

  call-Case : Case (codes "CALL")
  unfolding encode_op get text_eq encode
  call-Case g h =
      let (x, t, shape, p, lt, word) = encode_jump-ok op (codes "CALL") a labels n w h in
      record {
        insn = call t;
        fits = lt;
        same_mnemonic = refl;
        operands = (x, shape, p);
        same_word = word ∙ ap (λ k. encode_j k (pos t)) (known 13 g);
      }

  -- A mnemonic that is none of these is refused.
  no_case :
      (m : Text)
      → is m (codes "ADD") ≡ false
      → is m (codes "SUB") ≡ false
      → is m (codes "AND") ≡ false
      → is m (codes "OR") ≡ false
      → is m (codes "XOR") ≡ false
      → is m (codes "CMP") ≡ false
      → is m (codes "SHF") ≡ false
      → is m (codes "LDI") ≡ false
      → is m (codes "LD") ≡ false
      → is m (codes "ST") ≡ false
      → is m (codes "BR") ≡ false
      → is m (codes "JMP") ≡ false
      → is m (codes "CALL") ≡ false
      → encode_op op m a labels addr n ≡ err (unhandled_mnemonic m n)
  unfolding encode_op
  no_case m a₁ a₂ a₃ a₄ a₅ b₁ b₂ c₁ c₂ c₃ d₁ d₂ d₃ =
      rw (a₁, a₂, a₃, a₄, a₅, b₁, b₂, c₁, c₂, c₃, d₁, d₂, d₃) refl

  -- Either the mnemonic is the name, or the search goes on.
  try : (m name : Text) → Case name → (is m name ≡ false → Case m) → Case m
  try m name here later = elim (Bool-cases (is m name)) [
    | inl e ↦ subst Case (sym (text_eq→eq m name e)) here
    | inr ne ↦ later ne
  ]

  pub encode_op-Encodes : (m : Text) → Case m
  encode_op-Encodes m = try m (codes "ADD") (alu-Case add) λ a₁.
      try m (codes "SUB") (alu-Case sub) λ a₂. try m (codes "AND") (alu-Case and) λ a₃.
        try m (codes "OR") (alu-Case or) λ a₄. try m (codes "XOR") (alu-Case xor) λ a₅.
          try m (codes "CMP") cmp-Case λ b₁. try m (codes "SHF") shf-Case λ b₂.
            try m (codes "LDI") ldi-Case λ c₁. try m (codes "LD") ld-Case λ c₂.
              try m (codes "ST") st-Case λ c₃. try m (codes "BR") br-Case λ d₁.
                try m (codes "JMP") jmp-Case λ d₂.
                  try m (codes "CALL") call-Case
                    λ d₃ g h. absurd (cc (no_case m a₁ a₂ a₃ a₄ a₅ b₁ b₂ c₁ c₂ c₃ d₁ d₂ d₃))
