-- ===== src/Socgen/Rv32/Branches.antt =====
-- socgen/asm.py, `assemble`: a branch in the words that it returns goes to its label.
use mathlib.Core.Path.{subst}
use risc_v_so_c.Base.{
  ℕ, zero, suc, ◌+◌, ◌*◌, ◌/◌, ◌%◌, ◌^◌, ◌<◌, ◌≡◌, sym, ap, ◌∙◌, arith, true, Option-cases, inl,
  inr, some, List, [], ◌∷◌, length, get_elem?, low,
}
use risc_v_so_c.Base.Int.{ℤ, pos, ◌+ℤ◌, ◌-ℤ◌}
use risc_v_so_c.Base.Options.{some-injective}
use risc_v_so_c.Base.Text.{Text}
use risc_v_so_c.Base.Dict.{Dict, get, get-All, text_key}
use risc_v_so_c.Base.Results.{ok, >>=-eq-ok, ok-injective}
use risc_v_so_c.Socgen.Asm.{
  Register, Kind, Entry, word, branch, Assembler, assembler, reg, check_imm, emit, b_type, b_word,
}
use risc_v_so_c.Socgen.Asm.Output.{
  branch_funct, first_word, resolve_entry, resolve_entries, assemble,
}
use risc_v_so_c.Socgen.Asm.Placed.{PlacedFrom, IsAddress}
use risc_v_so_c.Socgen.Asm.Calls.{Calls, words-IsPlaced}
use risc_v_so_c.Socgen.Rv32.{opcode, funct3, rs1_field, rs2_field, b_field, signed}
use risc_v_so_c.Socgen.Rv32.Formats.{b_word-BFields}
use risc_v_so_c.Socgen.Rv32.Li.{reg-lt}

-- The word `w` at index `i` is a branch of the kind on the two registers, to `address`.
pub record GoesTo (kind : Kind) (s1 s2 i address w : ℕ) : Type 0 where
  pub opcode_bits : opcode w ≡ 0x63
  pub funct3_bits : funct3 w ≡ branch_funct kind
  pub rs1_bits : rs1_field w ≡ s1
  pub rs2_bits : rs2_field w ≡ s2
  pub lands : pos (i * 4) +ℤ signed 13 (b_field w) ≡ pos address

funct-lt : (kind : Kind) → branch_funct kind < 8
funct-lt Kind.on_equal = omega arith
funct-lt Kind.on_different = omega arith

check_imm_branch :
    (offset : ℤ) (v : ℕ) → check_imm offset 13 true ≡ ok v → (v < 8192) × (signed 13 v ≡ offset)
unfolding check_imm
check_imm_branch offset v h = ground arith

even_offset :
    (v address at_pc : ℕ)
    → address % 4 ≡ 0
    → at_pc % 4 ≡ 0
    → v < 8192
    → signed 13 v ≡ pos address -ℤ pos at_pc
    → pos at_pc +ℤ signed 13 (v / 2 * 2) ≡ pos address
even_offset v address at_pc a b lt e = ground arith

b_word-GoesTo :
    (kind : Kind) (v s1 s2 i address : ℕ)
    → address % 4 ≡ 0
    → s1 < 32
    → s2 < 32
    → check_imm (pos address -ℤ pos (i * 4)) 13 true ≡ ok v
    → GoesTo kind s1 s2 i address (low 32 (b_word v s2 s1 (branch_funct kind)))
b_word-GoesTo kind v s1 s2 i address a p q c =
    let (size, same) = check_imm_branch (pos address -ℤ pos (i * 4)) v c in
    let f = b_word-BFields v s2 s1 (branch_funct kind) size q p (funct-lt kind) in
    let whole : b_word v s2 s1 (branch_funct kind) % 2 ^ 32 ≡ b_word v s2 s1 (branch_funct kind) =
      omega (arith, f.word_size) in
    rw whole (record {
      opcode_bits = f.opcode_bits;
      funct3_bits = f.funct3_bits;
      rs1_bits = f.rs1_bits;
      rs2_bits = f.rs2_bits;
      lands = rw f.immediate_bits (even_offset v address (i * 4) a (omega arith) size same);
    })

b_type-GoesTo :
    (kind : Kind) (rs1 rs2 : Register) (i address : ℕ) (labels : Dict Text ℕ) (out : Assembler)
    → address % 4 ≡ 0
    → b_type
        (pos address -ℤ pos (i * 4))
        rs2
        rs1
        (branch_funct kind)
        (record { words = []; labels = labels })
      ≡ ok out
    → (s1 : ℕ) × (s2 : ℕ) × (reg rs1 ≡ ok s1)
      × (reg rs2 ≡ ok s2)
      × GoesTo kind s1 s2 i address (first_word out.words)
unfolding b_type emit first_word
b_type-GoesTo kind rs1 rs2 i address labels out a h =
    let (v, c, h₂) = >>=-eq-ok (check_imm (pos address -ℤ pos (i * 4)) 13 true) _ h in
    let (s2, p, h₃) = >>=-eq-ok (reg rs2) _ h₂ in
    let (s1, q, h₄) = >>=-eq-ok (reg rs1) _ h₃ in
    (
      s1,
      s2,
      q,
      p,
      subst (λ (x : Assembler). GoesTo kind s1 s2 i address (first_word x.words)) (ok-injective h₄)
          (b_word-GoesTo kind v s1 s2 i address a (reg-lt rs1 s1 q) (reg-lt rs2 s2 p) c),
    )

resolve_entry-GoesTo :
    (labels : Dict Text ℕ) (kind : Kind) (rs1 rs2 : Register) (target : Text) (i w address : ℕ)
    → get labels target ≡ some address
    → address % 4 ≡ 0
    → resolve_entry labels (branch kind rs1 rs2 target (i * 4)) ≡ ok w
    → (s1 : ℕ) × (s2 : ℕ) × (reg rs1 ≡ ok s1) × (reg rs2 ≡ ok s2) × GoesTo kind s1 s2 i address w
unfolding resolve_entry
resolve_entry-GoesTo labels kind rs1 rs2 target i w address found a h =
    let (out, e, h₁) =
      >>=-eq-ok
        (b_type (pos address -ℤ pos (i * 4)) rs2 rs1 (branch_funct kind)
          (record { words = []; labels = labels }))
        _ (rw (found, resolve_entry) at h) in
    let (s1, s2, q, p, goes) = b_type-GoesTo kind rs1 rs2 i address labels out a e in
    (s1, s2, q, p, subst (λ x. GoesTo kind s1 s2 i address x) (ok-injective h₁) goes)

resolve_entries-at :
    (labels : Dict Text ℕ) (es : List Entry) (ws : List ℕ) (i : ℕ) (e : Entry)
    → resolve_entries labels es ≡ ok ws
    → get_elem? es i ≡ some e
    → (w : ℕ) × (get_elem? ws i ≡ some w) × (resolve_entry labels e ≡ ok w)
unfolding resolve_entries
resolve_entries-at labels [] ws i e h k = cc
resolve_entries-at labels (d ∷ es) ws zero e h k =
    let (v, p, h₁) = >>=-eq-ok (resolve_entry labels d) _ h in
    let (vs, q, h₂) = >>=-eq-ok (resolve_entries labels es) _ h₁ in
    (
      v,
      ap (λ xs. get_elem? xs 0) (sym (ok-injective h₂)),
      subst (λ x. resolve_entry labels x ≡ ok v) (some-injective k) p,
    )
resolve_entries-at labels (d ∷ es) ws (suc i) e h k =
    let (v, p, h₁) = >>=-eq-ok (resolve_entry labels d) _ h in
    let (vs, q, h₂) = >>=-eq-ok (resolve_entries labels es) _ h₁ in
    let (w, found, result) = resolve_entries-at labels es vs i e q k in
    (w, ap (λ xs. get_elem? xs (suc i)) (sym (ok-injective h₂)) ∙ found, result)

placed-at :
    (n i : ℕ) (es : List Entry) (kind : Kind) (rs1 rs2 : Register) (target : Text) (at_pc : ℕ)
    → PlacedFrom n es
    → get_elem? es i ≡ some (branch kind rs1 rs2 target at_pc)
    → at_pc ≡ (n + i) * 4
placed-at n i [] kind rs1 rs2 target at_pc p h = cc
placed-at n zero (word w ∷ es) kind rs1 rs2 target at_pc p h = cc
placed-at n zero (branch k x y t here ∷ es) kind rs1 rs2 target at_pc (p, ps) h =
    let same : here ≡ at_pc = cc in omega (arith, p, same)
placed-at n (suc i) (word w ∷ es) kind rs1 rs2 target at_pc (p, ps) h =
    omega (arith, placed-at (suc n) i es kind rs1 rs2 target at_pc ps h)
placed-at n (suc i) (branch k x y t here ∷ es) kind rs1 rs2 target at_pc (p, ps) h =
    omega (arith, placed-at (suc n) i es kind rs1 rs2 target at_pc ps h)

-- The label of a branch that is resolved.
resolve_entry-label :
    (labels : Dict Text ℕ) (kind : Kind) (rs1 rs2 : Register) (target : Text) (at_pc w : ℕ)
    → resolve_entry labels (branch kind rs1 rs2 target at_pc) ≡ ok w
    → (address : ℕ) × (get labels target ≡ some address)
unfolding resolve_entry
resolve_entry-label labels kind rs1 rs2 target at_pc w h = elim (Option-cases (get labels target)) [
  | inl missing ↦ absurd (cc (rw (missing, resolve_entry) at h))
  | inr found ↦ found
]

-- After any calls on a new `Assembler` that have returned, a branch at index `i` of the entries is, at
-- the same index of the words that `assemble` returns, the branch of its kind on its registers, to its label: four
-- times `i` and the offset in the word make the label's address.
pub assemble-GoesTo :
    (a : Assembler) (ws : List ℕ) (i : ℕ) (kind : Kind) (rs1 rs2 : Register) (target : Text)
    (at_pc : ℕ)
    → Calls assembler a
    → assemble a ≡ ok ws
    → get_elem? a.words i ≡ some (branch kind rs1 rs2 target at_pc)
    → (w : ℕ) × (address : ℕ) × (s1 : ℕ) × (s2 : ℕ) × (get_elem? ws i ≡ some w)
      × (get a.labels target ≡ some address)
      × (reg rs1 ≡ ok s1)
      × (reg rs2 ≡ ok s2)
      × GoesTo kind s1 s2 i address w
unfolding assemble
assemble-GoesTo a ws i kind rs1 rs2 target at_pc calls h k =
    let p = words-IsPlaced a calls in
    let (w, found, result) =
      resolve_entries-at a.labels a.words ws i (branch kind rs1 rs2 target at_pc) h k in
    let here = placed-at 0 i a.words kind rs1 rs2 target at_pc p.placed k in
    let resolved =
      subst (λ x. resolve_entry a.labels (branch kind rs1 rs2 target x) ≡ ok w) (here ∙ omega arith)
        result in
    let (address, e) = resolve_entry-label a.labels kind rs1 rs2 target (i * 4) w resolved in
    let (whole, _) = get-All (IsAddress (length a.words)) a.labels target address p.targets e in
    let (s1, s2, q, r, goes) =
      resolve_entry-GoesTo a.labels kind rs1 rs2 target i w address e whole resolved in
    (w, address, s1, s2, found, e, q, r, goes)
