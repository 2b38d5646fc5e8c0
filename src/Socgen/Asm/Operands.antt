-- ===== src/Socgen/Asm/Operands.antt =====
-- socgen/asm.py: `AsmError`, `REGISTERS` with `_reg`, and `_check_imm`.
use risc_v_so_c.Base.{ℕ, ◌-◌, Bool, true, false, ◌||◌, if◌then◌else◌, [], ◌∷◌, low, ◌<<<◌}
use risc_v_so_c.Base.Int.{ℤ, pos, pos_part, ◌-ℤ◌, ltb_ℤ, wrap}
use risc_v_so_c.Base.Text.{Text, codes}
use risc_v_so_c.Base.Dict.{Dict, get, text_key}
use risc_v_so_c.Base.Results.{Result, ok, err, or_raise}

-- One constructor for each `raise`.
pub data AsmError : Type 0 where
  register_range : ℤ → AsmError
  unknown_register : Text → AsmError
  immediate_fit : ℤ → ℕ → AsmError
  label_twice : Text → AsmError
  undefined_label : Text → AsmError
  csr_fit : ℤ → AsmError
  csr_immediate_fit : ℤ → AsmError

-- `str | int`.
pub data Register : Type 0 where
  named : Text → Register
  numbered : ℤ → Register

abbrev pub registers : Dict Text ℕ
registers =
    (codes "x0", 0)
    ∷ (codes "x1", 1)
    ∷ (codes "x2", 2)
    ∷ (codes "x3", 3)
    ∷ (codes "x4", 4)
    ∷ (codes "x5", 5)
    ∷ (codes "x6", 6)
    ∷ (codes "x7", 7)
    ∷ (codes "x8", 8)
    ∷ (codes "x9", 9)
    ∷ (codes "x10", 10)
    ∷ (codes "x11", 11)
    ∷ (codes "x12", 12)
    ∷ (codes "x13", 13)
    ∷ (codes "x14", 14)
    ∷ (codes "x15", 15)
    ∷ (codes "x16", 16)
    ∷ (codes "x17", 17)
    ∷ (codes "x18", 18)
    ∷ (codes "x19", 19)
    ∷ (codes "x20", 20)
    ∷ (codes "x21", 21)
    ∷ (codes "x22", 22)
    ∷ (codes "x23", 23)
    ∷ (codes "x24", 24)
    ∷ (codes "x25", 25)
    ∷ (codes "x26", 26)
    ∷ (codes "x27", 27)
    ∷ (codes "x28", 28)
    ∷ (codes "x29", 29)
    ∷ (codes "x30", 30)
    ∷ (codes "x31", 31)
    ∷ (codes "zero", 0)
    ∷ (codes "ra", 1)
    ∷ (codes "sp", 2)
    ∷ (codes "gp", 3)
    ∷ (codes "tp", 4)
    ∷ []

-- `not low <= value <= high`.
abbrev pub outside : ℤ → ℤ → ℤ → Bool
outside low high value = ltb_ℤ value low || ltb_ℤ high value

unfoldable pub reg : Register → Result AsmError ℕ
unfolding get
reg (numbered n) = if outside (pos 0) (pos 31) n then err (register_range n) else ok (pos_part n)
reg (named name) = or_raise (get registers name) (unknown_register name)

-- The least and the greatest value that `bits` bits hold.
abbrev pub imm_bounds : ℕ → Bool → ℤ × ℤ
imm_bounds bits true = (pos 0 -ℤ pos (1 <<< (bits - 1)), pos (1 <<< (bits - 1)) -ℤ pos 1)
imm_bounds bits false = (pos 0, pos (1 <<< bits) -ℤ pos 1)

unfoldable pub check_imm : ℤ → ℕ → Bool → Result AsmError ℕ
check_imm value bits signed =
    let bounds = imm_bounds bits signed in
    if outside bounds.0 bounds.1 value then err (immediate_fit value bits) else ok (wrap bits value)
