-- ===== src/Base/Hex.antt =====
-- Text of naturals: hexadecimal with leading zeros, as Python's formats `04X`, `08X` and `08x` print
-- them, and decimal.
use risc_v_so_c.Base.{
  ℕ, zero, suc, ◌+◌, ◌-◌, ◌/◌, ◌%◌, ltb, true, false, if◌then◌else◌, [], ◌∷◌, ◌++◌, length,
  replicate,
}
use risc_v_so_c.Base.Text.{Text}

-- The digit of a value below 16; `ten` is the letter for 10.
abbrev pub hex_digit : ℕ → ℕ → ℕ
hex_digit ten d = if ltb d 10 then b'0' + d else ten + (d - 10)

-- The digits of `n`, with as much fuel as `n` is enough.
unfoldable pub hex_from : ℕ → ℕ → ℕ → Text
hex_from ten zero n = hex_digit ten n ∷ []
hex_from ten (suc fuel) n = elim (ltb n 16) [
  | true ↦ hex_digit ten n ∷ []
  | false ↦ hex_from ten fuel (n / 16) ++ hex_digit ten (n % 16) ∷ []
]

unfoldable pub hex_padded : ℕ → ℕ → ℕ → Text
unfolding hex_from
hex_padded ten width n =
    let digits = hex_from ten n n in replicate (width - length digits) b'0' ++ digits

-- `str(n)`, by the same recursion in base 10.
unfoldable pub decimal_from : ℕ → ℕ → Text
decimal_from zero n = (b'0' + n) ∷ []
decimal_from (suc fuel) n = elim (ltb n 10) [
  | true ↦ (b'0' + n) ∷ []
  | false ↦ decimal_from fuel (n / 10) ++ (b'0' + n % 10) ∷ []
]

abbrev pub decimal_text : ℕ → Text
decimal_text n = decimal_from n n
