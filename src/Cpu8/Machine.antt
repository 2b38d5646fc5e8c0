-- ===== src/Cpu8/Machine.antt =====
-- modules/cpu8/sim/sim.py: the state of `Sim`, the register file, the flags and the branch test.
-- `none` is Python's IndexError.
use risc_v_so_c.Base.{
  ℕ, ◌+◌, Bool, true, false, not, ◌==◌, ltb, if◌then◌else◌, Option, none, some, List, [], ◌∷◌,
  get_elem?, set, length, replicate, low, bit,
}
use risc_v_so_c.Base.Int.{ℤ, pos, ◌-ℤ◌, wrap}
use risc_v_so_c.Base.Options.{◌>>=◌}
use risc_v_so_c.Base.Dict.{Dict, get, int_eq}

-- `_s8`, `_s9`, `_s6`.
unfoldable pub s8 : ℕ → ℤ
s8 v = let v' = low 8 v in if ltb v' 128 then pos v' else pos v' -ℤ pos 256

unfoldable pub s9 : ℕ → ℤ
s9 v = let v' = low 9 v in if ltb v' 256 then pos v' else pos v' -ℤ pos 512

unfoldable pub s6 : ℕ → ℤ
s6 v = let v' = low 6 v in if ltb v' 32 then pos v' else pos v' -ℤ pos 64

pub record Flags : Type 0 where
  pub z : ℕ
  pub n : ℕ
  pub c : ℕ
  pub v : ℕ

pub record Sim : Type 0 where
  pub imem : List ℕ
  pub dmem : List ℕ
  pub regs : List ℕ
  pub pc : ℕ
  pub sp : ℕ
  pub flags : Flags
  pub halted : Bool
  pub cycles : ℕ

abbrev pub no_flags : Flags
no_flags = record { z = 0; n = 0; c = 0; v = 0 }

-- `[words.get(i, 0) for i in range(256)]`, `n` words from address `i`.
unfoldable pub words_from : Dict ℤ ℕ → ℕ → ℕ → List ℕ
words_from words i ℕ.zero = []
words_from words i (ℕ.suc n) =
    (elim (get words (pos i)) [ none ↦ 0 | some w ↦ w ]) ∷ words_from words (i + 1) n

-- `Sim(words)`; an empty dictionary is false, and gives zeros as well.
unfoldable pub init : Dict ℤ ℕ → Sim
unfolding words_from
init words = record {
  imem = elim words [ [] ↦ replicate 256 0 | w ∷ ws ↦ words_from (w ∷ ws) 0 256 ];
  dmem = replicate 256 0;
  regs = replicate 8 0;
  pc = 0;
  sp = 0xff;
  flags = no_flags;
  halted = false;
  cycles = 0;
}

unfoldable pub reset : Sim → Sim
reset s = record s { pc = 0; sp = 0xff; flags = no_flags; halted = false; cycles = 0 }

unfoldable pub load : Dict ℤ ℕ → Sim → Sim
unfolding words_from
load words s = record s { imem = words_from words 0 256 }

unfoldable pub reg_read : Sim → ℕ → Option ℕ
reg_read s idx = if idx == 0 then some 0 else (get_elem? s.regs idx >>= λ v. some (low 8 v))

unfoldable pub reg_write : ℕ → ℕ → Sim → Option Sim
reg_write idx val s =
    if idx == 0
    then some s
    else if ltb idx (length s.regs)
    then some (record s { regs = set s.regs idx (low 8 val) })
    else none

-- `carry` and `overflow` may be negative before the mask.
unfoldable pub set_flags : ℕ → ℤ → ℤ → Sim → Sim
set_flags result carry overflow s =
    let r = low 8 result in
    record s {
      flags = record {
        z = if r == 0 then 1 else 0;
        n = bit 7 r;
        c = wrap 1 carry;
        v = wrap 1 overflow;
      };
    }

abbrev pub nonzero : ℕ → Bool
nonzero n = not (n == 0)

-- EQ, NE, LT, GE, CS, CC, ALW and NEV.
abbrev pub conditions : Flags → List Bool
conditions f =
    nonzero f.z
    ∷ not (nonzero f.z)
    ∷ nonzero f.n
    ∷ not (nonzero f.n)
    ∷ nonzero f.c
    ∷ not (nonzero f.c)
    ∷ true
    ∷ false
    ∷ []

unfoldable pub branch_taken : Flags → ℕ → Option Bool
branch_taken f cc_code = get_elem? (conditions f) cc_code
