-- ===== src/Socgen/Asm/Calls.antt =====
-- socgen/asm.py: the methods of `Assembler` as steps, and what every sequence of them keeps.
use mathlib.Core.Path.{subst}
use risc_v_so_c.Base.{
  ℕ, ◌≡◌, sym, List, true, false, ◌==◌, if◌then◌else◌, Bool-cases, inl, inr, bit_and,
}
use risc_v_so_c.Base.Int.{ℤ, pos, eqb_ℤ}
use risc_v_so_c.Base.Text.{Text}
use risc_v_so_c.Base.Results.{ok, >>=-eq-ok, >>-eq-ok, ok-injective}
use risc_v_so_c.Socgen.Asm.{
  Register, Assembler, assembler, label, emit, r_type, i_type, s_type, lui, addi, add, andi, sw, lw,
  beq, bne, nop, x0, system, csrrw, csrrs, csrrc, csrrwi, csrrsi, csrrci, ecall, ebreak, mret, csrw,
  csrr, csrs, csrc, li_parts, li, reg, check_imm, csr_source, on_equal, on_different, outside,
}
use risc_v_so_c.Socgen.Asm.Output.{assemble, after_assemble}
use risc_v_so_c.Socgen.Asm.Left.{LeavesOrEmpties, assemble-LeavesOrEmpties, assemble-after}
use risc_v_so_c.Socgen.Asm.Placed.{IsPlaced, emit-IsPlaced, branch-IsPlaced, label-IsPlaced}

-- A call that returns, of each method that may change the object. A call that raises leaves the object
-- as it was, but for `assemble`.
pub data Call : Assembler → Assembler → Type 0 where
  call_label : {a a' : Assembler} (name : Text) → label name a ≡ ok a' → Call a a'
  call_lui : {a a' : Assembler} (rd : Register) (imm20 : ℤ) → lui rd imm20 a ≡ ok a' → Call a a'
  call_addi :
      {a a' : Assembler} (rd rs1 : Register) (imm : ℤ) → addi rd rs1 imm a ≡ ok a' → Call a a'
  call_add : {a a' : Assembler} (rd rs1 rs2 : Register) → add rd rs1 rs2 a ≡ ok a' → Call a a'
  call_andi :
      {a a' : Assembler} (rd rs1 : Register) (imm : ℤ) → andi rd rs1 imm a ≡ ok a' → Call a a'
  call_sw :
      {a a' : Assembler} (rs2 rs1 : Register) (offset : ℤ) → sw rs2 rs1 offset a ≡ ok a' → Call a a'
  call_lw :
      {a a' : Assembler} (rd rs1 : Register) (offset : ℤ) → lw rd rs1 offset a ≡ ok a' → Call a a'
  call_beq :
      {a a' : Assembler} (rs1 rs2 : Register) (target : Text)
      → beq rs1 rs2 target a ≡ a'
      → Call a a'
  call_bne :
      {a a' : Assembler} (rs1 rs2 : Register) (target : Text)
      → bne rs1 rs2 target a ≡ a'
      → Call a a'
  call_nop : {a a' : Assembler} → nop a ≡ ok a' → Call a a'
  call_csrrw :
      {a a' : Assembler} (rd : Register) (csr : ℤ) (rs1 : Register)
      → csrrw rd csr rs1 a ≡ ok a'
      → Call a a'
  call_csrrs :
      {a a' : Assembler} (rd : Register) (csr : ℤ) (rs1 : Register)
      → csrrs rd csr rs1 a ≡ ok a'
      → Call a a'
  call_csrrc :
      {a a' : Assembler} (rd : Register) (csr : ℤ) (rs1 : Register)
      → csrrc rd csr rs1 a ≡ ok a'
      → Call a a'
  call_csrrwi :
      {a a' : Assembler} (rd : Register) (csr uimm : ℤ) → csrrwi rd csr uimm a ≡ ok a' → Call a a'
  call_csrrsi :
      {a a' : Assembler} (rd : Register) (csr uimm : ℤ) → csrrsi rd csr uimm a ≡ ok a' → Call a a'
  call_csrrci :
      {a a' : Assembler} (rd : Register) (csr uimm : ℤ) → csrrci rd csr uimm a ≡ ok a' → Call a a'
  call_csrw : {a a' : Assembler} (csr : ℤ) (rs1 : Register) → csrw csr rs1 a ≡ ok a' → Call a a'
  call_csrr : {a a' : Assembler} (rd : Register) (csr : ℤ) → csrr rd csr a ≡ ok a' → Call a a'
  call_csrs : {a a' : Assembler} (csr : ℤ) (rs1 : Register) → csrs csr rs1 a ≡ ok a' → Call a a'
  call_csrc : {a a' : Assembler} (csr : ℤ) (rs1 : Register) → csrc csr rs1 a ≡ ok a' → Call a a'
  call_ecall : {a a' : Assembler} → ecall a ≡ a' → Call a a'
  call_ebreak : {a a' : Assembler} → ebreak a ≡ a' → Call a a'
  call_mret : {a a' : Assembler} → mret a ≡ a' → Call a a'
  call_li : {a a' : Assembler} (rd : Register) (value : ℤ) → li rd value a ≡ ok a' → Call a a'
  call_assemble :
      {a a' : Assembler} (ws : List ℕ) → assemble a ≡ ok ws → after_assemble a ≡ a' → Call a a'

-- Any number of calls, the last one first.
pub data Calls : Assembler → Assembler → Type 0 where
  no_calls : {a : Assembler} → Calls a a
  then_call : {a b c : Assembler} → Call b c → Calls a b → Calls a c

-- A call emits one word.
abbrev Emits : Assembler → Assembler → Type 0
Emits a a' = (w : ℕ) × (emit w a ≡ a')

Emits-IsPlaced : (a a' : Assembler) → IsPlaced a → Emits a a' → IsPlaced a'
Emits-IsPlaced a a' p (w, e) = subst IsPlaced e (emit-IsPlaced w a p)

i_type-Emits :
    (imm : ℤ) (rs1 : Register) (f : ℕ) (rd : Register) (op : ℕ) (a a' : Assembler)
    → i_type imm rs1 f rd op a ≡ ok a'
    → Emits a a'
unfolding i_type
i_type-Emits imm rs1 f rd op a a' h =
    let (v, _, h₁) = >>=-eq-ok (check_imm imm 12 true) _ h in
    let (s1, _, h₂) = >>=-eq-ok (reg rs1) _ h₁ in
    let (d, _, h₃) = >>=-eq-ok (reg rd) _ h₂ in (_, ok-injective h₃)

s_type-Emits :
    (imm : ℤ) (rs2 rs1 : Register) (f op : ℕ) (a a' : Assembler)
    → s_type imm rs2 rs1 f op a ≡ ok a'
    → Emits a a'
unfolding s_type
s_type-Emits imm rs2 rs1 f op a a' h =
    let (v, _, h₁) = >>=-eq-ok (check_imm imm 12 true) _ h in
    let (s2, _, h₂) = >>=-eq-ok (reg rs2) _ h₁ in
    let (s1, _, h₃) = >>=-eq-ok (reg rs1) _ h₂ in (_, ok-injective h₃)

r_type-Emits :
    (f7 : ℕ) (rs2 rs1 : Register) (f : ℕ) (rd : Register) (op : ℕ) (a a' : Assembler)
    → r_type f7 rs2 rs1 f rd op a ≡ ok a'
    → Emits a a'
unfolding r_type
r_type-Emits f7 rs2 rs1 f rd op a a' h =
    let (s2, _, h₁) = >>=-eq-ok (reg rs2) _ h in
    let (s1, _, h₂) = >>=-eq-ok (reg rs1) _ h₁ in
    let (d, _, h₃) = >>=-eq-ok (reg rd) _ h₂ in (_, ok-injective h₃)

lui-Emits : (rd : Register) (imm : ℤ) (a a' : Assembler) → lui rd imm a ≡ ok a' → Emits a a'
unfolding lui
lui-Emits rd imm a a' h = let (d, _, h₁) = >>=-eq-ok (reg rd) _ h in (_, ok-injective h₁)

system-Emits :
    (csr : ℤ) (src : Register) (f : ℕ) (rd : Register) (a a' : Assembler)
    → system csr src f rd a ≡ ok a'
    → Emits a a'
unfolding system
system-Emits csr src f rd a a' h =
    let (_, h₁) = >>-eq-ok (outside (pos 0) (pos 0xfff) csr) _ _ h in
    let (s, _, h₂) = >>=-eq-ok (csr_source src f) _ h₁ in
    let (_, h₃) =
      >>-eq-ok (if bit_and f 4 == 0 then false else outside (pos 0) (pos 31) s) _ _ h₂ in
    let (d, _, h₄) = >>=-eq-ok (reg rd) _ h₃ in (_, ok-injective h₄)

li-IsPlaced :
    (rd : Register) (value : ℤ) (a a' : Assembler)
    → IsPlaced a
    → li rd value a ≡ ok a'
    → IsPlaced a'
unfolding li addi
li-IsPlaced rd value a a' p h = elim (Bool-cases ((li_parts value).0 == 0)) [
  | inl none_up ↦ Emits-IsPlaced a a' p (i_type-Emits _ _ 0 rd _ a a' (rw none_up at h))
  | inr up ↦
      let (b, lu, h₁) = >>=-eq-ok (lui rd (pos (li_parts value).0) a) _ (rw up at h) in
      let q = Emits-IsPlaced a b p (lui-Emits rd _ a b lu) in
      elim (Bool-cases (eqb_ℤ (li_parts value).1 (pos 0))) [
        | inl none_low ↦ subst IsPlaced (ok-injective (rw none_low at h₁)) q
        | inr low' ↦ Emits-IsPlaced b a' q (i_type-Emits _ rd 0 rd _ b a' (rw low' at h₁))
      ]
]

-- Every call that returns keeps the words at their addresses.
pub Call-IsPlaced : {a a' : Assembler} → Call a a' → IsPlaced a → IsPlaced a'
unfolding addi add andi sw lw beq bne nop csrrw csrrs csrrc csrrwi csrrsi csrrci ecall ebreak mret
    csrw csrr csrs csrc
Call-IsPlaced (call_label n h) p = label-IsPlaced n _ _ p h
Call-IsPlaced (call_lui rd v h) p = Emits-IsPlaced _ _ p (lui-Emits rd v _ _ h)
Call-IsPlaced (call_addi rd rs1 v h) p = Emits-IsPlaced _ _ p (i_type-Emits v rs1 0 rd 0x13 _ _ h)
Call-IsPlaced (call_add rd rs1 rs2 h) p =
    Emits-IsPlaced _ _ p (r_type-Emits 0 rs2 rs1 0 rd 0x33 _ _ h)
Call-IsPlaced (call_andi rd rs1 v h) p = Emits-IsPlaced _ _ p (i_type-Emits v rs1 7 rd 0x13 _ _ h)
Call-IsPlaced (call_sw rs2 rs1 v h) p = Emits-IsPlaced _ _ p (s_type-Emits v rs2 rs1 2 0x23 _ _ h)
Call-IsPlaced (call_lw rd rs1 v h) p = Emits-IsPlaced _ _ p (i_type-Emits v rs1 2 rd 0x03 _ _ h)
Call-IsPlaced (call_beq x y t h) p = subst IsPlaced h (branch-IsPlaced on_equal x y t _ p)
Call-IsPlaced (call_bne x y t h) p = subst IsPlaced h (branch-IsPlaced on_different x y t _ p)
Call-IsPlaced (call_nop h) p = Emits-IsPlaced _ _ p (i_type-Emits (pos 0) x0 0 x0 0x13 _ _ h)
Call-IsPlaced (call_csrrw rd c r h) p = Emits-IsPlaced _ _ p (system-Emits c r 1 rd _ _ h)
Call-IsPlaced (call_csrrs rd c r h) p = Emits-IsPlaced _ _ p (system-Emits c r 2 rd _ _ h)
Call-IsPlaced (call_csrrc rd c r h) p = Emits-IsPlaced _ _ p (system-Emits c r 3 rd _ _ h)
Call-IsPlaced (call_csrrwi rd c u h) p = Emits-IsPlaced _ _ p (system-Emits c _ 5 rd _ _ h)
Call-IsPlaced (call_csrrsi rd c u h) p = Emits-IsPlaced _ _ p (system-Emits c _ 6 rd _ _ h)
Call-IsPlaced (call_csrrci rd c u h) p = Emits-IsPlaced _ _ p (system-Emits c _ 7 rd _ _ h)
Call-IsPlaced (call_csrw c r h) p = Emits-IsPlaced _ _ p (system-Emits c r 1 x0 _ _ h)
Call-IsPlaced (call_csrr rd c h) p = Emits-IsPlaced _ _ p (system-Emits c x0 2 rd _ _ h)
Call-IsPlaced (call_csrs c r h) p = Emits-IsPlaced _ _ p (system-Emits c r 2 x0 _ _ h)
Call-IsPlaced (call_csrc c r h) p = Emits-IsPlaced _ _ p (system-Emits c r 3 x0 _ _ h)
Call-IsPlaced (call_ecall h) p = Emits-IsPlaced _ _ p (_, h)
Call-IsPlaced (call_ebreak h) p = Emits-IsPlaced _ _ p (_, h)
Call-IsPlaced (call_mret h) p = Emits-IsPlaced _ _ p (_, h)
Call-IsPlaced (call_li rd v h) p = li-IsPlaced rd v _ _ p h
Call-IsPlaced (call_assemble ws h e) p =
    subst IsPlaced e (subst IsPlaced (sym (assemble-after _ ws h)) p)

-- What the calls that return keep.
pub words-IsPlaced : (a : Assembler) → Calls assembler a → IsPlaced a
words-IsPlaced a no_calls = record { placed = tt; targets = tt }
words-IsPlaced a (then_call {b = b} c cs) = Call-IsPlaced c (words-IsPlaced b cs)

-- After any calls on a new `Assembler` that have returned, those of `assemble` among them, each word has
-- 32 bits, each branch holds four times its own index, and each label is a multiple of four at most the
-- end of the words. A further call of `assemble` leaves the object as it was, or it raises and leaves the
-- labels with no words.
pub Calls-IsPlaced : (a : Assembler) → Calls assembler a → IsPlaced a × LeavesOrEmpties a
Calls-IsPlaced a calls = (words-IsPlaced a calls, assemble-LeavesOrEmpties a)
