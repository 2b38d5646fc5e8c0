-- ===== src/C8asm/Hex.antt =====
-- modules/cpu8/asm/c8asm.py, `to_hex`, and the loop of sim.py's `main` that reads such a file.
use mathlib.Core.Path.{ap₂}
use risc_v_so_c.Base.{
  ℕ, zero, suc, ◌+◌, ◌-◌, ◌*◌, ◌/◌, ◌%◌, ◌≤◌, ◌<◌, ◌≡◌, refl, ap, ◌∙◌, arith, Bool, true, false,
  ltb, ◌==◌, ◌&&◌, Bool-cases, inl, inr, none, some, List, [], ◌∷◌, ◌++◌, length, replicate, map,
  Option-cases,
}
use risc_v_so_c.Base.Int.{ℤ, pos}
use risc_v_so_c.Base.Options.{some-injective}
use risc_v_so_c.Base.Text.{Text}
use risc_v_so_c.Cpu8.Machine.{words_from}
use risc_v_so_c.Base.Dict.{Dict, get, int_eq}
use risc_v_so_c.Base.Hex.{hex_digit, hex_from, hex_padded}
use risc_v_so_c.C8asm.Operand.{digit, digits_value}

hex_digit-digit : (d : ℕ) → d < 16 → digit 16 (hex_digit b'A' d) ≡ some d
unfolding digit
hex_digit-digit d h = ground arith

hex_digit-plain : (d : ℕ) → d < 16 → (hex_digit b'A' d == b'_') ≡ false
hex_digit-plain d h = ground arith

take_digit :
    (b : Bool) (acc c d : ℕ) (cs : Text)
    → (c == b'_') ≡ false
    → digit 16 c ≡ some d
    → digits_value 16 b acc (c ∷ cs) ≡ digits_value 16 true (acc * 16 + d) cs
unfolding digits_value
take_digit b acc c d cs plain e = rw (plain, e, digits_value) refl

take_hex :
    (b : Bool) (acc d : ℕ) (cs : Text)
    → d < 16
    → digits_value 16 b acc (hex_digit b'A' d ∷ cs) ≡ digits_value 16 true (acc * 16 + d) cs
take_hex b acc d cs h =
    take_digit b acc (hex_digit b'A' d) d cs (hex_digit-plain d h) (hex_digit-digit d h)

digits_end : (acc : ℕ) → digits_value 16 true acc [] ≡ some acc
unfolding digits_value
digits_end acc = refl

one_more :
    (b : Bool) (acc v d : ℕ) (xs : Text)
    → d < 16
    → digits_value 16 b acc xs ≡ some v
    → digits_value 16 b acc (xs ++ hex_digit b'A' d ∷ []) ≡ some (v * 16 + d)
unfolding digits_value
one_more true acc v d [] h e =
    take_hex true acc d [] h ∙ ap (λ x. some (x * 16 + d)) (some-injective e)
one_more false acc v d [] h e = absurd cc
one_more b acc v d (x ∷ xs) h e = elim (Bool-cases (x == b'_' && b)) [
  | inl skip ↦ rw (skip, digits_value) (one_more false acc v d xs h (rw (skip, digits_value) at e))
  | inr plain ↦ elim (Option-cases (digit 16 x)) [
    | inl wrong ↦ absurd (cc (rw (plain, wrong, digits_value) at e))
    | inr (t, good) ↦
        rw (plain, good, digits_value)
          (one_more true (acc * 16 + t) v d xs h (rw (plain, good, digits_value) at e))
  ]
]

one_hex : (b : Bool) (n : ℕ) → n < 16 → digits_value 16 b 0 (hex_digit b'A' n ∷ []) ≡ some n
one_hex b n h = take_hex b 0 n [] h ∙ digits_end (0 * 16 + n) ∙ ap some (omega arith)

-- The digits read back, whatever stands in front.
hex_from-digits_value :
    (b : Bool) (fuel n : ℕ) → n ≤ fuel → digits_value 16 b 0 (hex_from b'A' fuel n) ≡ some n
unfolding hex_from
hex_from-digits_value b zero n h = one_hex b n (omega arith)
hex_from-digits_value b (suc fuel) n h = elim (Bool-cases (ltb n 16)) [
  | inl small ↦ rw (small, hex_from) (one_hex b n (ground arith))
  | inr large ↦
      let whole : n / 16 * 16 + n % 16 ≡ n = omega arith in
      rw (large, hex_from)
        (one_more b 0 (n / 16) (n % 16) (hex_from b'A' fuel (n / 16)) (omega arith)
            (hex_from-digits_value b fuel (n / 16) (ground arith))
          ∙ ap some whole)
]

zeros-digits_value :
    (b : Bool) (k v : ℕ) (xs : Text)
    → ((c : Bool) → digits_value 16 c 0 xs ≡ some v)
    → digits_value 16 b 0 (replicate k b'0' ++ xs) ≡ some v
zeros-digits_value b zero v xs h = h b
zeros-digits_value b (suc k) v xs h =
    take_hex b 0 0 (replicate k b'0' ++ xs) (omega arith) ∙ zeros-digits_value true k v xs h

pub hex_padded-digits_value :
    (width n : ℕ) → digits_value 16 false 0 (hex_padded b'A' width n) ≡ some n
unfolding hex_padded
hex_padded-digits_value width n =
    zeros-digits_value false (width - length (hex_from b'A' n n)) n (hex_from b'A' n n)
      (λ c. hex_from-digits_value c n n (omega arith))

-- `words.get(address, fill)`.
abbrev pub word_or : Dict ℤ ℕ → ℕ → ℕ → ℕ
word_or words fill address = elim (get words (pos address)) [ none ↦ fill | some w ↦ w ]

-- The lines of `to_hex` from `address` on, `n` of them.
unfoldable pub hex_lines : Dict ℤ ℕ → ℕ → ℕ → ℕ → List Text
unfolding hex_padded get
hex_lines words fill address zero = []
hex_lines words fill address (suc n) =
    hex_padded b'A' 4 (word_or words fill address) ∷ hex_lines words fill (address + 1) n

-- `"\n".join(lines) + "\n"`: a line feed ends every line.
unfoldable pub join_lines : List Text → Text
join_lines [] = []
join_lines (l ∷ ls) = l ++ 10 ∷ join_lines ls

unfoldable pub to_hex : Dict ℤ ℕ → ℕ → Text
unfolding hex_lines join_lines
to_hex words fill = join_lines (hex_lines words fill 0 256)

-- The lines of `to_hex` are the program as the simulator loads it: each reads, in base 16, as the
-- word at its address, or 0 where there is none.
pub hex_lines-words_from :
    (words : Dict ℤ ℕ) (address n : ℕ)
    → map (digits_value 16 false 0) (hex_lines words 0 address n)
      ≡ map some (words_from words address n)
unfolding hex_lines words_from
hex_lines-words_from words address zero = refl
hex_lines-words_from words address (suc n) =
    ap₂ (λ x xs. x ∷ xs) (hex_padded-digits_value 4 (word_or words 0 address))
      (hex_lines-words_from words (address + 1) n)
