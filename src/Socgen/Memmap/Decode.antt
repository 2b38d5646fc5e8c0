-- ===== src/Socgen/Memmap/Decode.antt =====
-- socgen/memmap.py: on a map without overlaps, `decode` finds the one region of an address.
use mathlib.Core.Path.{subst}
use risc_v_so_c.Base.{
  ℕ, zero, suc, ◌+◌, ◌%◌, ◌<◌, ◌≡◌, refl, sym, ap, ◌≤◌, ◌↔◌, arith, true, false, Bool-cases, inl,
  inr, some, List, [], ◌∷◌, ◌++◌, get_elem?, All, All-at,
}
use risc_v_so_c.Base.Int.{ℤ, pos}
use risc_v_so_c.Base.Options.{some-injective}
use risc_v_so_c.Base.Text.{Text}
use risc_v_so_c.Socgen.Memmap.{
  Region, contains, memory_map, decode_in, decode, collide, overlaps_with, overlaps_in, overlaps,
}

append-nil : {A : Type 0} (xs ys : List A) → xs ++ ys ≡ [] → (xs ≡ []) × (ys ≡ [])
append-nil [] ys h = (refl, h)
append-nil (x ∷ xs) ys h = cc

-- Two regions that hold an address collide.
collide-contains :
    (p q : Region) (address : ℤ)
    → contains p address ≡ true
    → contains q address ≡ true
    → collide p q ≡ true
unfolding contains collide
collide-contains p q address h k = ground arith

overlaps_with-apart :
    (first : Region) (rest : List Region) (i : ℕ) (r : Region)
    → overlaps_with first rest ≡ []
    → get_elem? rest i ≡ some r
    → collide first r ≡ false
unfolding overlaps_with
overlaps_with-apart first [] i r h k = cc
overlaps_with-apart first (second ∷ rest) zero r h k = elim (Bool-cases (collide first second)) [
  | inl both ↦ absurd (cc (rw both at h))
  | inr apart ↦ subst (λ q. collide first q ≡ false) (some-injective k) apart
]
overlaps_with-apart first (second ∷ rest) (suc i) r h k = elim (Bool-cases (collide first second)) [
  | inl both ↦ absurd (cc (rw both at h))
  | inr apart ↦ overlaps_with-apart first rest i r (rw apart at h) k
]

-- On a map whose regions do not overlap, an address that the region at index `i` contains is decoded
-- to that region.
pub decode_in-contains :
    (regions : List Region) (i : ℕ) (r : Region) (address : ℤ)
    → overlaps_in regions ≡ []
    → get_elem? regions i ≡ some r
    → contains r address ≡ true
    → decode_in regions address ≡ some r
unfolding decode_in overlaps_in
decode_in-contains [] i r address none_found at_i inside = cc
decode_in-contains (first ∷ rest) zero r address none_found at_i inside =
    let same = some-injective at_i in
    rw (subst (λ q. contains q address ≡ true) (sym same) inside) at_i
decode_in-contains (first ∷ rest) (suc i) r address none_found at_i inside =
    let (apart, others) = append-nil (overlaps_with first rest) (overlaps_in rest) none_found in
    let no_collision = overlaps_with-apart first rest i r apart at_i in
    elim (Bool-cases (contains first address)) [
      | inl here ↦ absurd (cc (no_collision, collide-contains first r address here inside))
      | inr elsewhere ↦ rw elsewhere (decode_in-contains rest i r address others at_i inside)
    ]

-- What `decode` finds stands in the map and contains the address.
decode_in-found :
    (regions : List Region) (address : ℤ) (r : Region)
    → decode_in regions address ≡ some r
    → (i : ℕ) × (get_elem? regions i ≡ some r) × (contains r address ≡ true)
unfolding decode_in
decode_in-found [] address r h = cc
decode_in-found (first ∷ rest) address r h = elim (Bool-cases (contains first address)) [
  | inl here ↦
      let same = some-injective (rw here at h) in
      (0, ap some same, subst (λ q. contains q address ≡ true) same here)
  | inr elsewhere ↦
      let (i, at_i, inside) = decode_in-found rest address r (rw elsewhere at h) in
      (suc i, at_i, inside)
]

-- The regions of the map do not overlap.
pub overlaps_none : overlaps ≡ []
unfolding overlaps overlaps_in overlaps_with collide
overlaps_none = refl

-- `decode` gives a region of the map exactly for the addresses that the region contains.
pub decode-contains :
    (i : ℕ) (r : Region) (address : ℤ)
    → get_elem? memory_map i ≡ some r
    → (decode address ≡ some r) ↔ (contains r address ≡ true)
unfolding decode overlaps
decode-contains i r address at_i = (
  λ h. let (_, _, inside) = decode_in-found memory_map address r h in inside,
  λ inside. decode_in-contains memory_map i r address overlaps_none at_i inside,
)

-- The offset of a register is a whole word inside its region.
abbrev pub IsInside : Region → Text × ℕ × Text → Type 0
IsInside r register = (register.1 + 4 ≤ r.size) × (register.1 % 4 ≡ 0)

registers-IsInside : All (λ r. All (IsInside r) r.registers) memory_map
registers-IsInside = omega arith

contains-offset :
    (r : Region) (offset : ℕ) → offset < r.size → contains r (pos (r.base + offset)) ≡ true
unfolding contains
contains-offset r offset h = ground arith

-- Each register of each region of the map stands at a multiple of four from its base, and all four
-- of its bytes are decoded to its region.
pub decode-register :
    (i j : ℕ) (r : Region) (name meaning : Text) (offset k : ℕ)
    → get_elem? memory_map i ≡ some r
    → get_elem? r.registers j ≡ some (name, offset, meaning)
    → k < 4
    → (offset % 4 ≡ 0) × (decode (pos (r.base + (offset + k))) ≡ some r)
decode-register i j r name meaning offset k at_i at_j lt =
    let inside =
      All-at (λ r. All (IsInside r) r.registers) memory_map i r registers-IsInside at_i in
    let (fits, whole) = All-at (IsInside r) r.registers j (name, offset, meaning) inside at_j in
    (
      whole,
      (decode-contains i r (pos (r.base + (offset + k))) at_i).1
          (contains-offset r (offset + k) (omega arith)),
    )
