-- ===== src/Aes/Sbox.antt =====
-- The table of SubBytes, of modules/aes/bench/aes_benchmark.py, against its description in FIPS 197:
-- the inverse in the field, then an affine map. `inv_sbox` is the table of the inverse in FIPS 197.
use risc_v_so_c.Base.{
  ℕ, zero, suc, ◌+◌, ◌-◌, ◌*◌, ◌/◌, ◌%◌, ◌^◌, ◌<◌, ◌≡◌, refl, ap, ◌⊎◌, arith, Option, none, some,
  List, [], ◌∷◌, length, get_elem?, All, bit_xor, low, Bool, Bool-cases, inl, inr, true, false,
  ◌&&◌, ◌||◌, ltb, if◌then◌else◌, ◌==◌,
}
use risc_v_so_c.Base.Options.{◌>>=◌}
use risc_v_so_c.Aes.{sbox, xtime, sub_bytes}

abbrev inv_sbox : List ℕ
inv_sbox =
    0x52 ∷ 0x09 ∷ 0x6a ∷ 0xd5 ∷ 0x30 ∷ 0x36 ∷ 0xa5 ∷ 0x38 ∷ 0xbf ∷ 0x40 ∷ 0xa3 ∷ 0x9e ∷ 0x81 ∷ 0xf3
    ∷ 0xd7 ∷ 0xfb ∷ 0x7c ∷ 0xe3 ∷ 0x39 ∷ 0x82 ∷ 0x9b ∷ 0x2f ∷ 0xff ∷ 0x87 ∷ 0x34 ∷ 0x8e ∷ 0x43
    ∷ 0x44 ∷ 0xc4 ∷ 0xde ∷ 0xe9 ∷ 0xcb ∷ 0x54 ∷ 0x7b ∷ 0x94 ∷ 0x32 ∷ 0xa6 ∷ 0xc2 ∷ 0x23 ∷ 0x3d
    ∷ 0xee ∷ 0x4c ∷ 0x95 ∷ 0x0b ∷ 0x42 ∷ 0xfa ∷ 0xc3 ∷ 0x4e ∷ 0x08 ∷ 0x2e ∷ 0xa1 ∷ 0x66 ∷ 0x28
    ∷ 0xd9 ∷ 0x24 ∷ 0xb2 ∷ 0x76 ∷ 0x5b ∷ 0xa2 ∷ 0x49 ∷ 0x6d ∷ 0x8b ∷ 0xd1 ∷ 0x25 ∷ 0x72 ∷ 0xf8
    ∷ 0xf6 ∷ 0x64 ∷ 0x86 ∷ 0x68 ∷ 0x98 ∷ 0x16 ∷ 0xd4 ∷ 0xa4 ∷ 0x5c ∷ 0xcc ∷ 0x5d ∷ 0x65 ∷ 0xb6
    ∷ 0x92 ∷ 0x6c ∷ 0x70 ∷ 0x48 ∷ 0x50 ∷ 0xfd ∷ 0xed ∷ 0xb9 ∷ 0xda ∷ 0x5e ∷ 0x15 ∷ 0x46 ∷ 0x57
    ∷ 0xa7 ∷ 0x8d ∷ 0x9d ∷ 0x84 ∷ 0x90 ∷ 0xd8 ∷ 0xab ∷ 0x00 ∷ 0x8c ∷ 0xbc ∷ 0xd3 ∷ 0x0a ∷ 0xf7
    ∷ 0xe4 ∷ 0x58 ∷ 0x05 ∷ 0xb8 ∷ 0xb3 ∷ 0x45 ∷ 0x06 ∷ 0xd0 ∷ 0x2c ∷ 0x1e ∷ 0x8f ∷ 0xca ∷ 0x3f
    ∷ 0x0f ∷ 0x02 ∷ 0xc1 ∷ 0xaf ∷ 0xbd ∷ 0x03 ∷ 0x01 ∷ 0x13 ∷ 0x8a ∷ 0x6b ∷ 0x3a ∷ 0x91 ∷ 0x11
    ∷ 0x41 ∷ 0x4f ∷ 0x67 ∷ 0xdc ∷ 0xea ∷ 0x97 ∷ 0xf2 ∷ 0xcf ∷ 0xce ∷ 0xf0 ∷ 0xb4 ∷ 0xe6 ∷ 0x73
    ∷ 0x96 ∷ 0xac ∷ 0x74 ∷ 0x22 ∷ 0xe7 ∷ 0xad ∷ 0x35 ∷ 0x85 ∷ 0xe2 ∷ 0xf9 ∷ 0x37 ∷ 0xe8 ∷ 0x1c
    ∷ 0x75 ∷ 0xdf ∷ 0x6e ∷ 0x47 ∷ 0xf1 ∷ 0x1a ∷ 0x71 ∷ 0x1d ∷ 0x29 ∷ 0xc5 ∷ 0x89 ∷ 0x6f ∷ 0xb7
    ∷ 0x62 ∷ 0x0e ∷ 0xaa ∷ 0x18 ∷ 0xbe ∷ 0x1b ∷ 0xfc ∷ 0x56 ∷ 0x3e ∷ 0x4b ∷ 0xc6 ∷ 0xd2 ∷ 0x79
    ∷ 0x20 ∷ 0x9a ∷ 0xdb ∷ 0xc0 ∷ 0xfe ∷ 0x78 ∷ 0xcd ∷ 0x5a ∷ 0xf4 ∷ 0x1f ∷ 0xdd ∷ 0xa8 ∷ 0x33
    ∷ 0x88 ∷ 0x07 ∷ 0xc7 ∷ 0x31 ∷ 0xb1 ∷ 0x12 ∷ 0x10 ∷ 0x59 ∷ 0x27 ∷ 0x80 ∷ 0xec ∷ 0x5f ∷ 0x60
    ∷ 0x51 ∷ 0x7f ∷ 0xa9 ∷ 0x19 ∷ 0xb5 ∷ 0x4a ∷ 0x0d ∷ 0x2d ∷ 0xe5 ∷ 0x7a ∷ 0x9f ∷ 0x93 ∷ 0xc9
    ∷ 0x9c ∷ 0xef ∷ 0xa0 ∷ 0xe0 ∷ 0x3b ∷ 0x4d ∷ 0xae ∷ 0x2a ∷ 0xf5 ∷ 0xb0 ∷ 0xc8 ∷ 0xeb ∷ 0xbb
    ∷ 0x3c ∷ 0x83 ∷ 0x53 ∷ 0x99 ∷ 0x61 ∷ 0x17 ∷ 0x2b ∷ 0x04 ∷ 0x7e ∷ 0xba ∷ 0x77 ∷ 0xd6 ∷ 0x26
    ∷ 0xe1 ∷ 0x69 ∷ 0x14 ∷ 0x63 ∷ 0x55 ∷ 0x21 ∷ 0x0c ∷ 0x7d ∷ []

-- The product of field elements: `left` bits of the second factor from position `k` on.
unfoldable pub product : ℕ → ℕ → ℕ → ℕ
unfolding xtime
product zero a b = 0
product (suc left) a b = bit_xor (if b % 2 == 1 then a else 0) (product left (xtime a) (b / 2))

-- The product of the squares a ^ 2, a ^ 4 and on, `n` of them.
unfoldable pub squares : ℕ → ℕ → ℕ
unfolding product
squares zero a = 1
squares (suc n) a = let square = product 8 a a in product 8 square (squares n square)

unfoldable pub rotated : ℕ → ℕ → ℕ
rotated n b = low 8 (b * 2 ^ n + b / 2 ^ (8 - n))

-- Five rotations and a constant are added.
unfoldable pub affine : ℕ → ℕ
unfolding rotated
affine b =
    bit_xor
      (bit_xor (bit_xor (bit_xor (bit_xor b (rotated 1 b)) (rotated 2 b)) (rotated 3 b))
        (rotated 4 b))
      0x63

-- Every number below the second argument passes the test.
pass_below : (ℕ → Bool) → ℕ → Bool
pass_below test zero = true
pass_below test (suc top) = if test top then pass_below test top else false

pass_below→test :
    (test : ℕ → Bool) (top b : ℕ) → b < top → pass_below test top ≡ true → test b ≡ true
unfolding pass_below
pass_below→test test zero b below passed = absurd (omega arith)
pass_below→test test (suc top) b below passed = elim (Bool-cases (test top)) [
  | inl good ↦ ground (arith, pass_below→test test top b, good)
  | inr bad ↦ absurd (cc (rw bad at passed))
]

reads : List ℕ → ℕ → ℕ → Bool
reads table b v = elim (get_elem? table b) [ none ↦ false | some s ↦ s == v ]

reads→get_elem? : (table : List ℕ) (b v : ℕ) → reads table b v ≡ true → get_elem? table b ≡ some v
unfolding reads
reads→get_elem? table b v h = ground arith

inverse_at : ℕ → Bool
inverse_at b = b == 0 || product 8 b (squares 7 b) == 1

sbox_table : pass_below (λ b. reads sbox b (affine (squares 7 b))) 256 ≡ true
unfolding pass_below reads affine squares
sbox_table = refl

inverse_table : pass_below inverse_at 256 ≡ true
unfolding pass_below inverse_at squares
inverse_table = refl

inverse_at_sound : (b : ℕ) → inverse_at b ≡ true → (b ≡ 0) ⊎ (product 8 b (squares 7 b) ≡ 1)
unfolding inverse_at
inverse_at_sound b h = ground arith

-- The entry of the table for a byte is the affine map at the byte's power 254, the product of its
-- squares from the second power to the 128th. That is its inverse in the field, unless it is 0.
pub sbox-affine :
    (b : ℕ)
    → b < 256
    → (get_elem? sbox b ≡ some (affine (squares 7 b))) × ((b ≡ 0) ⊎ (product 8 b (squares 7 b) ≡ 1))
sbox-affine b h = (
  reads→get_elem? sbox b _ (pass_below→test _ 256 b h sbox_table),
  inverse_at_sound b (pass_below→test _ 256 b h inverse_table),
)

read_back : Option ℕ → ℕ → Bool
unfolding reads
read_back none b = false
read_back (some s) b = ltb s 256 && reads inv_sbox s b

back_table : pass_below (λ b. read_back (get_elem? sbox b) b) 256 ≡ true
unfolding pass_below read_back
back_table = refl

read_back_sound :
    (o : Option ℕ) (b : ℕ)
    → read_back o b ≡ true
    → (s : ℕ) × (o ≡ some s) × (s < 256) × (get_elem? inv_sbox s ≡ some b)
unfolding read_back
read_back_sound none b h = cc
read_back_sound (some s) b h = (s, refl, ground arith, reads→get_elem? inv_sbox s b (ground arith))

unfoldable pub inv_sub_bytes : List ℕ → Option (List ℕ)
inv_sub_bytes [] = some []
inv_sub_bytes (s ∷ ss) = do b ← get_elem? inv_sbox s; rest ← inv_sub_bytes ss; some (b ∷ rest)

pub sub_bytes_lem :
    (state : List ℕ)
    → All (λ b. b < 256) state
    → (s : List ℕ) × (sub_bytes state ≡ some s)
      × (length s ≡ length state)
      × All (λ b. b < 256) s
      × (inv_sub_bytes s ≡ some state)
unfolding sub_bytes inv_sub_bytes
sub_bytes_lem [] h = ([], refl, refl, tt, refl)
sub_bytes_lem (b ∷ bs) (h, hs) =
    let (s, read, below, back) =
      read_back_sound (get_elem? sbox b) b (pass_below→test _ 256 b h back_table) in
    let (ss, reads, long, within, backs) = sub_bytes_lem bs hs in
    (s ∷ ss, rw (read, reads) refl, ap suc long, (below, within), rw (back, backs) refl)
