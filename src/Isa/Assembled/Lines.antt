-- ===== src/Isa/Assembled/Lines.antt =====
-- A line that `_second_pass` encodes is `.WORD`, or says an instruction whose word it gets; and the
-- simulator, at that word, performs the instruction.
use risc_v_so_c.Base.{
  ℕ, ◌<◌, ◌^◌, ◌≡◌, refl, sym, ap, ◌∙◌, arith, Option, some, List, [], ◌∷◌, Bool, false, ◌||◌, ◌+◌,
  ◌≢◌, get_elem?, if◌then◌else◌, low, Bool-cases, Option-cases, inl, inr, ◌⊎◌,
}
use mathlib.Core.Path.{subst}
use risc_v_so_c.Base.Options.{some-injective}
use risc_v_so_c.Base.Int.{ℤ, pos, wrap, ◌-ℤ◌, ◌+ℤ◌, ◌≤ℤ◌, negsuc, ltb_ℤ}
use risc_v_so_c.Base.Text.{Text, codes, upper, text_eq, text_eq→eq}
use risc_v_so_c.Base.Dict.{get, text_key}
use risc_v_so_c.Base.Results.{Result, ok, ◌>>=◌, >>=-eq-ok, ok-injective, or_raise-ok}
use risc_v_so_c.C8asm.Syntax.{Line, AsmError, unknown_mnemonic}
use risc_v_so_c.C8asm.Encode.{opcodes, cc_codes}
use risc_v_so_c.C8asm.Operand.{parse_int, resolve}
use risc_v_so_c.C8asm.Passes.{
  Labels, is, named, first_arg, encode_br, encode_op, encode_mnem, encode_line,
}
use risc_v_so_c.Isa.{Insn, Fits, encode, nop, ret, hlt, br}
use risc_v_so_c.Isa.Assembled.{branch_inside}
use risc_v_so_c.Isa.Assembled.Says.{Encodes, Operands, mnemonic}
use risc_v_so_c.Isa.Assembled.Cases.{encode_op-Encodes, cc_codes-lt}
use risc_v_so_c.Cpu8.Machine.{Sim, branch_taken}
use risc_v_so_c.Cpu8.Exec.{step, execute, advance}
use risc_v_so_c.Cpu8.Valid.{IsValid}
use risc_v_so_c.Cpu8.Valid.Step.{step_running}
use risc_v_so_c.Isa.Execute.{execute-encode}
use risc_v_so_c.Isa.{perform}
use risc_v_so_c.Base.Bits.{wrap-lt}

-- A `.WORD` line, or an instruction.
abbrev pub Assembled : Line → Labels → ℕ → Type 0
Assembled ln labels w =
    (ln.mnem ≡ some (codes ".WORD")) × (w < 2 ^ 16)
    ⊎ (m : Text) × (ln.mnem ≡ some m) × Encodes m ln.args labels ln.addr ln.line_no w

module _ (labels : Labels) (a : List Text) (addr : ℤ) (n w : ℕ) where
  constant_Encodes :
      (m : Text) (i : Insn)
      → Fits i
      → m ≡ mnemonic i
      → Operands i a labels addr n
      → ◌≡◌ {A = Result AsmError (Option ℕ)} (ok (some (encode i))) (ok (some w))
      → Encodes m a labels addr n w
  constant_Encodes m i f e o h = record {
    insn = i;
    fits = f;
    same_mnemonic = e;
    operands = o;
    same_word = cc;
  }

-- What `encode_mnem` may give under a mnemonic.
abbrev Outcome : Text → List Text → Labels → ℤ → ℕ → ℕ → Type 0
Outcome m a labels addr n w = (m ≡ codes ".WORD") × (w < 2 ^ 16) ⊎ Encodes m a labels addr n w

module _ (m : Text) (a : List Text) (labels : Labels) (addr : ℤ) (n w : ℕ) where
  -- A line whose word is computed from its operands.
  operand_word :
      (do
        op ← named opcodes m (unknown_mnemonic m n)
        v ← encode_op op m a labels addr n
        ok (some v))
        ≡ ok (some w)
      → Encodes m a labels addr n w
  operand_word h =
      let (op, g, h₁) = >>=-eq-ok (named opcodes m _) _ h in
      let (v, e, h₂) = >>=-eq-ok (encode_op op m a labels addr n) _ h₁ in
      encode_op-Encodes a labels addr n op w m (or_raise-ok (get opcodes m) _ g)
        (e ∙ ap ok (some-injective (ok-injective h₂)))

  word_value :
      (do t ← first_arg a; v ← parse_int t n; ok (some (wrap 16 v))) ≡ ok (some w) → w < 2 ^ 16
  word_value h =
      let (t, _, h₁) = >>=-eq-ok (first_arg a) _ h in
      let (v, _, h₂) = >>=-eq-ok (parse_int t n) _ h₁ in
      subst (λ k. k < 2 ^ 16) (some-injective (ok-injective h₂)) (wrap-lt 16 v)

  encode_mnem-Outcome : encode_mnem m a labels addr n ≡ ok (some w) → Outcome m a labels addr n w
  unfolding encode_mnem encode
  encode_mnem-Outcome h = elim (Bool-cases (is m (codes ".ORG"))) [
    | inl e ↦ absurd (cc (rw e at h))
    | inr n₁ ↦ elim (Bool-cases (is m (codes ".WORD"))) [
      | inl e ↦ inl (text_eq→eq m _ e, word_value (rw (n₁, e) at h))
      | inr n₂ ↦ elim (Bool-cases (is m (codes "NOP"))) [
        | inl e ↦ inr (
            constant_Encodes labels a addr n w m nop tt (text_eq→eq m _ e) tt (rw (n₁, n₂, e) at h))
        | inr n₃ ↦ elim (Bool-cases (is m (codes "HLT"))) [
          | inl e ↦ inr (
              constant_Encodes labels a addr n w m hlt tt (text_eq→eq m _ e) tt
                (rw (n₁, n₂, n₃, e) at h))
          | inr n₄ ↦ elim (Bool-cases (is m (codes "RET"))) [
            | inl e ↦ inr (
                constant_Encodes labels a addr n w m ret tt (text_eq→eq m _ e) tt
                  (rw (n₁, n₂, n₃, n₄, e) at h))
            | inr n₅ ↦ inr (operand_word (rw (n₁, n₂, n₃, n₄, n₅) at h))
          ]
        ]
      ]
    ]
  ]

encode_line-some :
    (ln : Line) (m : Text) (labels : Labels)
    → ln.mnem ≡ some m
    → encode_mnem m ln.args labels ln.addr ln.line_no ≡ encode_line ln labels
unfolding encode_line
encode_line-some ln m labels e = rw (e, encode_line) refl

-- A word that the assembler gives a line is below 2 ^ 16 if the line is `.WORD`. Otherwise it is
-- the word of an instruction that the line says, with every operand in the range of its field.
pub encode_line-Assembled :
    (ln : Line) (labels : Labels) (w : ℕ)
    → encode_line ln labels ≡ ok (some w)
    → Assembled ln labels w
unfolding encode_line
encode_line-Assembled ln labels w h = elim (Option-cases ln.mnem) [
  | inl e ↦ absurd (cc (rw (e, encode_line) at h))
  | inr (m, e) ↦
      elim (encode_mnem-Outcome m ln.args labels ln.addr ln.line_no w
        (encode_line-some ln m labels e ∙ h)) [
          | inl (p, lt) ↦ inl (e ∙ ap some p, lt)
          | inr v ↦ inr (m, e, v)
        ]
]

-- At the word that the assembler gives a line other than `.WORD`, a step of a well-formed running
-- simulator performs an instruction that the line says.
pub step-assembled :
    (ln : Line) (labels : Labels) (w : ℕ) (s : Sim)
    → encode_line ln labels ≡ ok (some w)
    → ln.mnem ≢ some (codes ".WORD")
    → IsValid s
    → s.halted ≡ false
    → get_elem? s.imem s.pc ≡ some w
    → (i : Insn) × Fits i
      × (ln.mnem ≡ some (mnemonic i))
      × Operands i ln.args labels ln.addr ln.line_no
      × (step s ≡ perform i s)
step-assembled ln labels w s h ne v running fetch = elim (encode_line-Assembled ln labels w h) [
  | inl (p, _) ↦ absurd (ne p)
  | inr (m, e, c) ↦ (
    c.insn,
    c.fits,
    e ∙ ap some c.same_mnemonic,
    c.operands,
    step_running s w running fetch
        ∙ ap (λ k. execute k s) c.same_word
        ∙ execute-encode c.insn s c.fits v,
  )
]

-- The word of a BR line whose operands have a value.
encode_br-word :
    (x y : Text) (labels : Labels) (n w c : ℕ) (t addr : ℤ)
    → encode_mnem (codes "BR") (x ∷ y ∷ []) labels addr n ≡ ok (some w)
    → get cc_codes (upper x) ≡ some c
    → resolve y labels n ≡ ok t
    → (w ≡ encode (br c (t -ℤ addr))) × (negsuc 255 ≤ℤ t -ℤ addr) × (t -ℤ addr ≤ℤ pos 255)
unfolding encode_mnem encode_op text_eq encode_br get encode
encode_br-word x y labels n w c t addr h f r =
    let h₁ = rw (f, r) at h in
    let test = ltb_ℤ (t -ℤ addr) (negsuc 255) || ltb_ℤ (pos 255) (t -ℤ addr) in
    elim (Bool-cases test) [
      | inl out ↦ absurd (cc (rw out at h₁))
      | inr inside ↦
          let (low_end, high_end) = branch_inside (t -ℤ addr) inside in
          (some-injective (ok-injective (sym (rw inside at h₁))), low_end, high_end)
    ]

back_and_forth : (a t : ℕ) → t < 256 → wrap 8 (pos a +ℤ (pos t -ℤ pos a)) ≡ t
back_and_forth a t h = ground arith

-- A taken branch goes to its label: at the word of a BR line whose second operand means the address
-- `t` below 256, placed where the assembler put it, the next program counter is `t` if the flags
-- meet the condition, and the next address if not.
pub step-branch :
    (x y : Text) (labels : Labels) (n w c t : ℕ) (taken : Bool) (s : Sim)
    → encode_mnem (codes "BR") (x ∷ y ∷ []) labels (pos s.pc) n ≡ ok (some w)
    → get cc_codes (upper x) ≡ some c
    → resolve y labels n ≡ ok (pos t)
    → t < 256
    → IsValid s
    → s.halted ≡ false
    → get_elem? s.imem s.pc ≡ some w
    → branch_taken s.flags c ≡ some taken
    → step s ≡ some (advance (if taken then t else low 8 (s.pc + 1)) s)
step-branch x y labels n w c t taken s h f r lt v running fetch b =
    let (e, lo, hi) = encode_br-word x y labels n w c (pos t) (pos s.pc) h f r in
    let fits : Fits (br c (pos t -ℤ pos s.pc)) = (cc_codes-lt (upper x) c f, lo, hi) in
    step_running s w running fetch
    ∙ ap (λ k. execute k s) e
    ∙ execute-encode (br c (pos t -ℤ pos s.pc)) s fits v
    ∙ unfold perform in rw (b, back_and_forth s.pc t lt) refl
