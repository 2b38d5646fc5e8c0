-- ===== src/Isa/Assembled.antt =====
-- What `_second_pass` of the assembler makes of the operands of a line: the word of an instruction
-- with the operands that the line says, in range.
pub mod Says
pub mod Cases
pub mod Lines
pub mod Files
pub mod Program
use mathlib.Core.Path.{subst}
use risc_v_so_c.Base.{
  ℕ, ◌+◌, ◌-◌, ◌<◌, ◌≡◌, refl, sym, ap, ◌∙◌, arith, Option, some, none, List, [], ◌∷◌, Bool, true,
  false, ◌&&◌, ◌||◌, leb, ◌==◌, if◌then◌else◌, Bool-cases, inl, inr, Option-cases,
}
use risc_v_so_c.Base.Int.{ℤ, pos, negsuc, wrap, ◌≤ℤ◌, ◌-ℤ◌, ltb_ℤ}
use risc_v_so_c.Base.Text.{Text, codes, upper, strip}
use risc_v_so_c.Base.Dict.{Dict, get, text_key}
use risc_v_so_c.Base.Results.{
  Result, ok, err, ◌>>=◌, >>=-eq-ok, >>-eq-ok, ok-injective, or_raise, or_raise-ok,
}
use risc_v_so_c.C8asm.Encode.{encode_r, encode_i, encode_j, encode_b, encode_mem, shf_fn, cc_codes}
use risc_v_so_c.C8asm.Operand.{register, parse_reg, memory_parts, offset_of, parse_mem, resolve}
use risc_v_so_c.C8asm.Passes.{
  Labels, named, encode_alu, encode_cmp, encode_shf, encode_ldi, encode_ld, encode_st, encode_br,
  encode_jump,
}
use risc_v_so_c.C8asm.Syntax.{AsmError}

register-lt : (t : Text) (r : ℕ) → register t ≡ some r → r < 8
unfolding register
register-lt [] r h = cc
register-lt (a ∷ []) r h = cc
register-lt (a ∷ b ∷ []) r h = ground arith
register-lt (a ∷ b ∷ c ∷ cs) r h = cc

-- A register operand is one of the eight registers.
pub parse_reg-lt : (t : Text) (n r : ℕ) → parse_reg t n ≡ ok r → r < 8
unfolding parse_reg
parse_reg-lt t n r h = register-lt (strip t) r (or_raise-ok (register (strip t)) _ h)

abbrev pub IsOffset : ℤ → Type 0
IsOffset off = (negsuc 31 ≤ℤ off) × (off ≤ℤ pos 31)

IsOffset-inside : (off : ℤ) → (ltb_ℤ off (negsuc 31) || ltb_ℤ (pos 31) off) ≡ false → IsOffset off
IsOffset-inside off h = ground arith

-- A memory operand names a register and an offset that fits six bits.
pub parse_mem-range :
    (t : Text) (n r : ℕ) (off : ℤ) → parse_mem t n ≡ ok (r, off) → (r < 8) × IsOffset off
unfolding parse_mem
parse_mem-range t n r off h =
    let (parts, _, h₁) = >>=-eq-ok (or_raise (memory_parts (strip t)) _) _ h in
    let (reg, p, h₂) = >>=-eq-ok (parse_reg parts.0 n) _ h₁ in
    let (off', _, h₃) = >>=-eq-ok (offset_of (strip t) n parts.1) _ h₂ in
    let (inside, h₄) = >>-eq-ok (ltb_ℤ off' (negsuc 31) || ltb_ℤ (pos 31) off') _ _ h₃ in
    let same = ok-injective h₄ in
    let small = parse_reg-lt parts.0 n reg p in
    (
      rw (← ap (λ (q : ℕ × ℤ). q.0) same) small,
      subst IsOffset (ap (λ (q : ℕ × ℤ). q.1) same) (IsOffset-inside off' inside),
    )

pub encode_alu-ok :
    (op : ℕ) (m : Text) (a : List Text) (n w : ℕ)
    → encode_alu op m a n ≡ ok w
    → (x : Text) × (y : Text) × (z : Text) × (rd : ℕ) × (rs1 : ℕ) × (rs2 : ℕ) × (a ≡ x ∷ y ∷ z ∷ [])
      × (parse_reg x n ≡ ok rd)
      × (parse_reg y n ≡ ok rs1)
      × (parse_reg z n ≡ ok rs2)
      × (w ≡ encode_r op rd rs1 rs2 0)
unfolding encode_alu
encode_alu-ok op m [] n w h = cc
encode_alu-ok op m (x ∷ []) n w h = cc
encode_alu-ok op m (x ∷ y ∷ []) n w h = cc
encode_alu-ok op m (x ∷ y ∷ z ∷ []) n w h =
    let (rd, p, h₁) = >>=-eq-ok (parse_reg x n) _ h in
    let (rs1, q, h₂) = >>=-eq-ok (parse_reg y n) _ h₁ in
    let (rs2, r, h₃) = >>=-eq-ok (parse_reg z n) _ h₂ in
    (x, y, z, rd, rs1, rs2, refl, p, q, r, sym (ok-injective h₃))
encode_alu-ok op m (x ∷ y ∷ z ∷ t ∷ ts) n w h = absurd (ground arith)

pub encode_cmp-ok :
    (op : ℕ) (m : Text) (a : List Text) (n w : ℕ)
    → encode_cmp op m a n ≡ ok w
    → (x : Text) × (y : Text) × (rs1 : ℕ) × (rs2 : ℕ) × (a ≡ x ∷ y ∷ [])
      × (parse_reg x n ≡ ok rs1)
      × (parse_reg y n ≡ ok rs2)
      × (w ≡ encode_r op 0 rs1 rs2 0)
unfolding encode_cmp
encode_cmp-ok op m [] n w h = cc
encode_cmp-ok op m (x ∷ []) n w h = cc
encode_cmp-ok op m (x ∷ y ∷ []) n w h =
    let (rs1, p, h₁) = >>=-eq-ok (parse_reg x n) _ h in
    let (rs2, q, h₂) = >>=-eq-ok (parse_reg y n) _ h₁ in
    (x, y, rs1, rs2, refl, p, q, sym (ok-injective h₂))
encode_cmp-ok op m (x ∷ y ∷ z ∷ zs) n w h = absurd (ground arith)

named-ok :
    (table : Dict Text ℕ) (name : Text) (e : AsmError) (v : ℕ)
    → named table name e ≡ ok v
    → get table name ≡ some v
named-ok table name e v h = or_raise-ok (get table name) e h

pub encode_shf-ok :
    (op : ℕ) (m : Text) (a : List Text) (n w : ℕ)
    → encode_shf op m a n ≡ ok w
    → (x : Text) × (y : Text) × (z : Text) × (rd : ℕ) × (rs1 : ℕ) × (fn : ℕ) × (a ≡ x ∷ y ∷ z ∷ [])
      × (parse_reg x n ≡ ok rd)
      × (parse_reg y n ≡ ok rs1)
      × (get shf_fn (upper z) ≡ some fn)
      × (w ≡ encode_r op rd rs1 0 fn)
unfolding encode_shf
encode_shf-ok op m [] n w h = cc
encode_shf-ok op m (x ∷ []) n w h = cc
encode_shf-ok op m (x ∷ y ∷ []) n w h = cc
encode_shf-ok op m (x ∷ y ∷ z ∷ []) n w h =
    let (fn, f, h₁) = >>=-eq-ok (named shf_fn (upper z) _) _ h in
    let (rd, p, h₂) = >>=-eq-ok (parse_reg x n) _ h₁ in
    let (rs1, q, h₃) = >>=-eq-ok (parse_reg y n) _ h₂ in
    (x, y, z, rd, rs1, fn, refl, p, q, named-ok shf_fn (upper z) _ fn f, sym (ok-injective h₃))
encode_shf-ok op m (x ∷ y ∷ z ∷ t ∷ ts) n w h = absurd (ground arith)

byte_inside :
    (z : ℤ) → (ltb_ℤ z (pos 0) || ltb_ℤ (pos 255) z) ≡ false → (b : ℕ) × (z ≡ pos b) × (b < 256)
byte_inside (pos b) h = (b, refl, ground arith)
byte_inside (negsuc b) h = absurd (ground arith)

pub encode_ldi-ok :
    (op : ℕ) (m : Text) (a : List Text) (labels : Labels) (n w : ℕ)
    → encode_ldi op m a labels n ≡ ok w
    → (x : Text) × (y : Text) × (rd : ℕ) × (imm : ℕ) × (a ≡ x ∷ y ∷ [])
      × (parse_reg x n ≡ ok rd)
      × (resolve y labels n ≡ ok (pos imm))
      × (imm < 256)
      × (w ≡ encode_i op rd (pos imm))
unfolding encode_ldi
encode_ldi-ok op m [] labels n w h = cc
encode_ldi-ok op m (x ∷ []) labels n w h = cc
encode_ldi-ok op m (x ∷ y ∷ []) labels n w h =
    let (rd, p, h₁) = >>=-eq-ok (parse_reg x n) _ h in
    let (z, q, h₂) = >>=-eq-ok (resolve y labels n) _ h₁ in
    let (inside, h₃) = >>-eq-ok (ltb_ℤ z (pos 0) || ltb_ℤ (pos 255) z) _ _ h₂ in
    let (imm, e, lt) = byte_inside z inside in
    (x, y, rd, imm, refl, p, q ∙ ap ok e, lt, sym (ok-injective h₃) ∙ ap (encode_i op rd) e)
encode_ldi-ok op m (x ∷ y ∷ z ∷ zs) labels n w h = absurd (ground arith)

pub encode_ld-ok :
    (op : ℕ) (m : Text) (a : List Text) (n w : ℕ)
    → encode_ld op m a n ≡ ok w
    → (x : Text) × (y : Text) × (rd : ℕ) × (rs1 : ℕ) × (off : ℤ) × (a ≡ x ∷ y ∷ [])
      × (parse_reg x n ≡ ok rd)
      × (parse_mem y n ≡ ok (rs1, off))
      × (w ≡ encode_mem op rd rs1 off)
unfolding encode_ld
encode_ld-ok op m [] n w h = cc
encode_ld-ok op m (x ∷ []) n w h = cc
encode_ld-ok op m (x ∷ y ∷ []) n w h =
    let (rd, p, h₁) = >>=-eq-ok (parse_reg x n) _ h in
    let (r, q, h₂) = >>=-eq-ok (parse_mem y n) _ h₁ in
    (x, y, rd, r.0, r.1, refl, p, q, sym (ok-injective h₂))
encode_ld-ok op m (x ∷ y ∷ z ∷ zs) n w h = absurd (ground arith)

pub encode_st-ok :
    (op : ℕ) (m : Text) (a : List Text) (n w : ℕ)
    → encode_st op m a n ≡ ok w
    → (x : Text) × (y : Text) × (rs1 : ℕ) × (off : ℤ) × (rs2 : ℕ) × (a ≡ x ∷ y ∷ [])
      × (parse_mem x n ≡ ok (rs1, off))
      × (parse_reg y n ≡ ok rs2)
      × (w ≡ encode_mem op rs2 rs1 off)
unfolding encode_st
encode_st-ok op m [] n w h = cc
encode_st-ok op m (x ∷ []) n w h = cc
encode_st-ok op m (x ∷ y ∷ []) n w h =
    let (r, p, h₁) = >>=-eq-ok (parse_mem x n) _ h in
    let (rs2, q, h₂) = >>=-eq-ok (parse_reg y n) _ h₁ in
    (x, y, r.0, r.1, rs2, refl, p, q, sym (ok-injective h₂))
encode_st-ok op m (x ∷ y ∷ z ∷ zs) n w h = absurd (ground arith)

pub branch_inside :
    (off : ℤ)
    → (ltb_ℤ off (negsuc 255) || ltb_ℤ (pos 255) off) ≡ false
    → (negsuc 255 ≤ℤ off) × (off ≤ℤ pos 255)
branch_inside off h = ground arith

pub encode_br-ok :
    (op : ℕ) (m : Text) (a : List Text) (labels : Labels) (addr : ℤ) (n w : ℕ)
    → encode_br op m a labels addr n ≡ ok w
    → (x : Text) × (y : Text) × (c : ℕ) × (target : ℤ) × (a ≡ x ∷ y ∷ [])
      × (get cc_codes (upper x) ≡ some c)
      × (resolve y labels n ≡ ok target)
      × (negsuc 255 ≤ℤ target -ℤ addr)
      × (target -ℤ addr ≤ℤ pos 255)
      × (w ≡ encode_b op c (target -ℤ addr))
unfolding encode_br
encode_br-ok op m [] labels addr n w h = cc
encode_br-ok op m (x ∷ []) labels addr n w h = cc
encode_br-ok op m (x ∷ y ∷ []) labels addr n w h =
    let (c, f, h₁) = >>=-eq-ok (named cc_codes (upper x) _) _ h in
    let (t, p, h₂) = >>=-eq-ok (resolve y labels n) _ h₁ in
    let (ok_range, h₃) =
      >>-eq-ok (ltb_ℤ (t -ℤ addr) (negsuc 255) || ltb_ℤ (pos 255) (t -ℤ addr)) _ _ h₂ in
    let inside = branch_inside (t -ℤ addr) ok_range in
    (
      x,
      y,
      c,
      t,
      refl,
      named-ok cc_codes (upper x) _ c f,
      p,
      inside.0,
      inside.1,
      sym (ok-injective h₃),
    )
encode_br-ok op m (x ∷ y ∷ z ∷ zs) labels addr n w h = absurd (ground arith)

pub encode_jump-ok :
    (op : ℕ) (m : Text) (a : List Text) (labels : Labels) (n w : ℕ)
    → encode_jump op m a labels n ≡ ok w
    → (x : Text) × (target : ℕ) × (a ≡ x ∷ [])
      × (resolve x labels n ≡ ok (pos target))
      × (target < 256)
      × (w ≡ encode_j op (pos target))
unfolding encode_jump
encode_jump-ok op m [] labels n w h = cc
encode_jump-ok op m (x ∷ []) labels n w h =
    let (z, q, h₁) = >>=-eq-ok (resolve x labels n) _ h in
    let (inside, h₂) = >>-eq-ok (ltb_ℤ z (pos 0) || ltb_ℤ (pos 255) z) _ _ h₁ in
    let (t, e, lt) = byte_inside z inside in
    (x, t, refl, q ∙ ap ok e, lt, sym (ok-injective h₂) ∙ ap (encode_j op) e)
encode_jump-ok op m (x ∷ y ∷ ys) labels n w h = absurd (ground arith)
