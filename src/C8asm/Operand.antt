-- ===== src/C8asm/Operand.antt =====
-- modules/cpu8/asm/c8asm.py: `parse_int`, `parse_reg`, `_parse_mem` and `_resolve`, with Python's
-- `int` on ASCII text. Integers have no limit on their digits here.
use risc_v_so_c.Base.{
  ℕ, ◌+◌, ◌-◌, ◌*◌, Bool, true, false, not, leb, ltb, ◌==◌, ◌&&◌, ◌||◌, if◌then◌else◌, Option, none,
  some, [], ◌∷◌,
}
use risc_v_so_c.Base.Int.{ℤ, pos, negsuc, ltb_ℤ, ◌-ℤ◌}
use risc_v_so_c.Base.Text.{Text, strip}
use risc_v_so_c.Base.Dict.{Dict, get, text_key}
use risc_v_so_c.Base.Results.{Result, ok, err, ◌>>=◌, ◌>>◌, raise_if, or_raise}
use risc_v_so_c.C8asm.Syntax.{
  AsmError, invalid_integer, expected_register, invalid_memory, offset_range, value_error,
}

-- The value of a digit in the base.
unfoldable pub digit : ℕ → ℕ → Option ℕ
digit base c =
    let v =
      if leb b'0' c && leb c b'9'
      then c - b'0'
      else if leb b'a' c && leb c b'z'
      then c - b'a' + 10
      else if leb b'A' c && leb c b'Z'
      then c - b'A' + 10
      else base in
    if ltb v base then some v else none

-- Digits with single underscores between them; `after_digit` says whether one may stand here.
unfoldable pub digits_value : ℕ → Bool → ℕ → Text → Option ℕ
unfolding digit
digits_value base after_digit acc [] = if after_digit then some acc else none
digits_value base after_digit acc (c ∷ cs) = elim (c == b'_' && after_digit) [
  | true ↦ digits_value base false acc cs
  | false ↦ elim (digit base c) [
    | none ↦ none
    | some d ↦ digits_value base true (acc * base + d) cs
  ]
]

-- `-n`.
abbrev pub negate : ℕ → ℤ
negate n = pos 0 -ℤ pos n

-- `int(tok)` of a stripped token.
unfoldable pub decimal : Text → Option ℤ
unfolding digits_value
decimal [] = none
decimal (c ∷ cs) =
    if c == b'-'
    then (elim (digits_value 10 false 0 cs) [ none ↦ none | some n ↦ some (negate n) ])
    else if c == b'+'
    then (elim (digits_value 10 false 0 cs) [ none ↦ none | some n ↦ some (pos n) ])
    else (elim (digits_value 10 false 0 (c ∷ cs)) [ none ↦ none | some n ↦ some (pos n) ])

-- `int(tok, base)` behind the two characters of its prefix.
unfoldable pub prefixed : ℕ → Text → Option ℤ
unfolding digits_value
prefixed base [] = none
prefixed base (c ∷ cs) = elim (digits_value base true 0 (c ∷ cs)) [
  | none ↦ none
  | some n ↦ some (pos n)
]

-- `int` in the base that the token's prefix names.
unfoldable pub int_of : Text → Option ℤ
unfolding decimal prefixed
int_of (a ∷ b ∷ cs) =
    if a == b'0' && (b == b'x' || b == b'X')
    then prefixed 16 cs
    else if a == b'0' && (b == b'b' || b == b'B')
    then prefixed 2 cs
    else decimal (a ∷ b ∷ cs)
int_of tok = decimal tok

unfoldable pub parse_int : Text → ℕ → Result AsmError ℤ
unfolding int_of strip
parse_int tok n = or_raise (int_of (strip tok)) (invalid_integer (strip tok) n)

-- `REG_RE`: R or r and one digit from 0 to 7.
unfoldable pub register : Text → Option ℕ
register (r ∷ d ∷ []) =
    if (r == b'R' || r == b'r') && (leb b'0' d && leb d b'7') then some (d - b'0') else none
register _ = none

unfoldable pub parse_reg : Text → ℕ → Result AsmError ℕ
unfolding register strip
parse_reg tok n = or_raise (register (strip tok)) (expected_register tok n)

unfoldable pub resolve : Text → Dict Text ℤ → ℕ → Result AsmError ℤ
unfolding parse_int get
resolve tok labels n = elim (get labels (strip tok)) [
  | some a ↦ ok a
  | none ↦ parse_int (strip tok) n
]

-- All characters are digits of the base, and there is one.
unfoldable pub all_digits : ℕ → Text → Bool
unfolding digit
all_digits base [] = true
all_digits base (c ∷ cs) = elim (digit base c) [ none ↦ false | some d ↦ all_digits base cs ]

abbrev pub nonempty : Text → Bool
nonempty [] = false
nonempty (c ∷ cs) = true

-- `int(sign + body, 0)` where the body is all decimal digits: a leading zero is a ValueError unless
-- all the digits are zeros.
unfoldable pub plain_offset : Text → Result AsmError ℕ
unfolding digits_value
plain_offset body = elim (digits_value 10 false 0 body) [
  | none ↦ err value_error
  | some v ↦ elim body [
    | [] ↦ err value_error
    | c ∷ cs ↦ if c == b'0' && (nonempty cs && not (v == 0)) then err value_error else ok v
  ]
]

-- The signed part of a memory operand, up to the bracket: `[+-]\d+` or `[+-]0x[0-9a-fA-F]+`.
unfoldable pub offset_body : Text → ℕ → Text → Result AsmError ℕ
unfolding all_digits plain_offset prefixed
offset_body arg n (z ∷ x ∷ h ∷ hs) =
    if z == b'0' && (x == b'x' && all_digits 16 (h ∷ hs))
    then (elim (digits_value 16 false 0 (h ∷ hs)) [ none ↦ err value_error | some v ↦ ok v ])
    else if all_digits 10 (z ∷ x ∷ h ∷ hs)
    then plain_offset (z ∷ x ∷ h ∷ hs)
    else err (invalid_memory arg n)
offset_body arg n body =
    if nonempty body && all_digits 10 body then plain_offset body else err (invalid_memory arg n)

unfoldable pub offset_of : Text → ℕ → Text → Result AsmError ℤ
unfolding offset_body
offset_of arg n [] = ok (pos 0)
offset_of arg n (s ∷ body) =
    if s == b'+'
    then (offset_body arg n body >>= λ v. ok (pos v))
    else if s == b'-'
    then (offset_body arg n body >>= λ v. ok (negate v))
    else err (invalid_memory arg n)

-- The text in front of a closing bracket that ends it.
unfoldable pub drop_bracket : Text → Option Text
drop_bracket [] = none
drop_bracket (c ∷ []) = if c == b']' then some [] else none
drop_bracket (c ∷ d ∷ cs) = elim (drop_bracket (d ∷ cs)) [ none ↦ none | some t ↦ some (c ∷ t) ]

-- The register and the signed text of `[Rx…]`.
unfoldable pub memory_parts : Text → Option (Text × Text)
unfolding register drop_bracket
memory_parts (b ∷ r ∷ d ∷ cs) =
    if b == b'['
    then (elim (register (r ∷ d ∷ [])) [
      | none ↦ none
      | some i ↦ elim (drop_bracket cs) [ none ↦ none | some t ↦ some (r ∷ d ∷ [], t) ]
    ])
    else none
memory_parts _ = none

unfoldable pub parse_mem : Text → ℕ → Result AsmError (ℕ × ℤ)
unfolding memory_parts parse_reg offset_of
parse_mem arg n = do
  (r, t) ← or_raise (memory_parts (strip arg)) (invalid_memory (strip arg) n)
  reg ← parse_reg r n
  off ← offset_of (strip arg) n t
  raise_if (ltb_ℤ off (negsuc 31) || ltb_ℤ (pos 31) off) (offset_range off n)
  ok (reg, off)
