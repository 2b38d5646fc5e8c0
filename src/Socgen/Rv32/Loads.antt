-- ===== src/Socgen/Rv32/Loads.antt =====
-- socgen/asm.py, `li`: the words that it emits load the constant.
use risc_v_so_c.Base.{
  ℕ, ◌*◌, ◌%◌, ◌^◌, ◌<◌, ◌≡◌, ◌≢◌, refl, ◌∙◌, ap, arith, true, false, ◌==◌, if◌then◌else◌,
  Bool-cases, inl, inr, Option, some, List, [], ◌∷◌, ◌++◌, map, bit_or,
}
use risc_v_so_c.Base.Int.{ℤ, pos, negsuc, ◌+ℤ◌, ◌≤ℤ◌, eqb_ℤ, wrap}
use mathlib.Core.Path.{subst}
use risc_v_so_c.Base.{append_twice}
use risc_v_so_c.Base.Dict.{eqb_ℤ→eq}
use risc_v_so_c.Base.Results.{ok}
use risc_v_so_c.Socgen.Asm.{
  Register, Assembler, word, reg, append, emit, i_word, i_type, lui, addi, x0, li_parts, li,
}
use risc_v_so_c.Socgen.Rv32.{Registers, read, update, run_word, run_words, signed}
use risc_v_so_c.Socgen.Rv32.Formats.{i_word-IFields, u_word-UFields}
use risc_v_so_c.Socgen.Rv32.Li.{
  reg-lt, reg-x0, check_imm_inside, run-addi, run-lui, Parts, li_parts-Parts,
}

-- Register `d` reads as `v` in `r'`, unless it is register 0, and the others read as in `r`.
pub record Loads (d v : ℕ) (r r' : Registers) : Type 0 where
  pub loaded : read r' d ≡ (if d == 0 then 0 else v)
  pub others : (j : ℕ) → j ≢ d → read r' j ≡ read r j

update-Loads : (d v x : ℕ) (r : Registers) → (d ≢ 0 → x ≡ v) → Loads d v r (update r d x)
update-Loads d v x r same = record {
  loaded = elim (Bool-cases (d == 0)) [
    | inl zero_reg ↦ rw zero_reg refl
    | inr other ↦ ground (arith, same (ground arith))
  ];
  others = λ j ne. ground arith;
}

update_twice-Loads :
    (d v x y : ℕ) (r : Registers) → (d ≢ 0 → x ≡ v) → Loads d v r (update (update r d y) d x)
update_twice-Loads d v x y r same = record {
  loaded = elim (Bool-cases (d == 0)) [
    | inl zero_reg ↦ rw zero_reg refl
    | inr other ↦ ground (arith, same (ground arith))
  ];
  others = λ j ne. ground arith;
}

==→eq : {n : ℕ} → (n == 0) ≡ true → n ≡ 0
==→eq h = ground arith

read_updated : (r : Registers) (d x : ℕ) → d ≢ 0 → read (update r d x) d ≡ x
read_updated r d x ne = ground arith

pub emit_word : (w : ℕ) (a : Assembler) → w < 2 ^ 32 → emit w a ≡ append (word w) a
unfolding emit
emit_word w a h = let same : w % 2 ^ 32 ≡ w = omega arith in ap (λ x. append (word x) a) same

lui-word :
    (rd : Register) (d high : ℕ) (a : Assembler)
    → reg rd ≡ ok d
    → high < 1048576
    → lui rd (pos high) a ≡ ok (append (word (bit_or (bit_or (high * 4096) (d * 128)) 0x37)) a)
unfolding lui
lui-word rd d high a e h =
    let f = u_word-UFields high d h (reg-lt rd d e) in
    let fits : high % 2 ^ 20 ≡ high = omega arith in
    rw (e, fits) (ap ok (emit_word _ a f.word_size))

addi-word :
    (rd rs1 : Register) (d s1 : ℕ) (imm : ℤ) (a : Assembler)
    → reg rd ≡ ok d
    → reg rs1 ≡ ok s1
    → negsuc 2047 ≤ℤ imm
    → imm ≤ℤ pos 2047
    → (v : ℕ) × (v < 4096)
      × (signed 12 v ≡ imm)
      × (addi rd rs1 imm a ≡ ok (append (word (i_word v s1 0 d 0x13)) a))
unfolding addi i_type
addi-word rd rs1 d s1 imm a e e₁ lo hi =
    let (fits, size, same) = check_imm_inside imm lo hi in
    let f =
      i_word-IFields (wrap 12 imm) s1 0 d 0x13 size (reg-lt rs1 s1 e₁) (omega arith) (reg-lt rd d e)
        (omega arith) in
    (wrap 12 imm, size, same, rw (fits, e₁, e) (ap ok (emit_word _ a f.word_size)))

run_words-cons :
    (w : ℕ) (ws : List ℕ) (r r' : Registers) {t : Option Registers}
    → run_word w r ≡ some r'
    → run_words ws r' ≡ t
    → run_words (w ∷ ws) r ≡ t
unfolding run_words
run_words-cons w ws r r' h k = rw (h, run_words) k

run-none : (r : Registers) → run_words [] r ≡ some r
unfolding run_words
run-none r = refl

-- What `li-Loads` says.
abbrev pub Emitted : Register → ℕ → ℤ → Assembler → Registers → Type 0
Emitted rd d value a r =
    (ws : List ℕ) × (r' : Registers) × (li rd value a
      ≡ ok (record a { words = a.words ++ map word ws }))
    × (run_words ws r ≡ some r')
    × Loads d (wrap 32 value) r r'

module _ (rd : Register) (d : ℕ) (value : ℤ) (a : Assembler) (r : Registers) (e : reg rd ≡ ok d)
    (high : ℕ) (low' : ℤ) (shape : li_parts value ≡ (high, low'))
    (p : Parts (wrap 32 value) high low') where
  li-addi : (high == 0) ≡ true → Emitted rd d value a r
  unfolding li run_words
  li-addi none_up =
      let (v, size, same, emits) = addi-word rd x0 d 0 low' a e reg-x0 p.low_least p.low_greatest in
      let sum : wrap 32 (pos 0 +ℤ signed 12 v) ≡ wrap 32 value = rw same (
        subst (λ h. wrap 32 (pos (h * 4096) +ℤ low') ≡ wrap 32 value) (==→eq none_up) p.together) in
      (
        i_word v 0 0 d 0x13 ∷ [],
        update r d (wrap 32 (pos 0 +ℤ signed 12 v)),
        rw (shape, none_up) emits,
        run_words-cons (i_word v 0 0 d 0x13) [] r _
            (run-addi r v 0 d size (omega arith) (reg-lt rd d e)) (run-none _),
        update-Loads d (wrap 32 value) (wrap 32 (pos 0 +ℤ signed 12 v)) r (λ ne. sum),
      )

  li-lui : (high == 0) ≡ false → eqb_ℤ low' (pos 0) ≡ true → Emitted rd d value a r
  unfolding li run_words
  li-lui up none_low =
      let sum : high * 4096 ≡ wrap 32 value =
        ground (arith, p.high_size, p.together, eqb_ℤ→eq low' (pos 0) none_low) in
      (
        bit_or (bit_or (high * 4096) (d * 128)) 0x37 ∷ [],
        update r d (high * 4096),
        rw (shape, up, lui-word rd d high a e p.high_size, none_low) refl,
        run_words-cons (bit_or (bit_or (high * 4096) (d * 128)) 0x37) [] r _
            (run-lui r high d p.high_size (reg-lt rd d e)) (run-none _),
        update-Loads d (wrap 32 value) (high * 4096) r (λ ne. sum),
      )

  li-both : (high == 0) ≡ false → eqb_ℤ low' (pos 0) ≡ false → Emitted rd d value a r
  unfolding li run_words
  li-both up some_low =
      let u = bit_or (bit_or (high * 4096) (d * 128)) 0x37 in
      let (v, size, same, emits) =
        addi-word rd rd d d low' (append (word u) a) e e p.low_least p.low_greatest in
      let upper = update r d (high * 4096) in
      let sum = wrap 32 (pos (read upper d) +ℤ signed 12 v) in
      (
        u ∷ i_word v d 0 d 0x13 ∷ [],
        update upper d sum,
        rw (shape, up, lui-word rd d high a e p.high_size, some_low)
            (emits
              ∙ ap (λ ws. ok (record a { words = ws }))
                  (append_twice a.words (word u) (word (i_word v d 0 d 0x13)))),
        run_words-cons u (i_word v d 0 d 0x13 ∷ []) r upper
            (run-lui r high d p.high_size (reg-lt rd d e))
            (run_words-cons (i_word v d 0 d 0x13) [] upper _
              (run-addi upper v d d size (reg-lt rd d e) (reg-lt rd d e)) (run-none _)),
        update_twice-Loads d (wrap 32 value) sum (high * 4096) r
            (λ ne. rw (same, read_updated r d (high * 4096) ne) p.together),
      )

  li-cases : Emitted rd d value a r
  li-cases = elim (Bool-cases (high == 0)) [
    | inl none_up ↦ li-addi none_up
    | inr up ↦ elim (Bool-cases (eqb_ℤ low' (pos 0))) [
      | inl none_low ↦ li-lui up none_low
      | inr some_low ↦ li-both up some_low
    ]
  ]

-- `li` into a known register raises nothing. The words that it appends, run by the manual's LUI and
-- ADDI from any registers, leave the constant modulo 2 ^ 32 in that register, unless it is register
-- 0, and every other register as it was.
pub li-Loads :
    (rd : Register) (d : ℕ) (value : ℤ) (a : Assembler) (r : Registers)
    → reg rd ≡ ok d
    → (ws : List ℕ) × (r' : Registers) × (li rd value a
        ≡ ok (record a { words = a.words ++ map word ws }))
      × (run_words ws r ≡ some r')
      × Loads d (wrap 32 value) r r'
li-Loads rd d value a r e =
    li-cases rd d value a r e (li_parts value).0 (li_parts value).1 refl (li_parts-Parts value)
