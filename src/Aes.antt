-- ===== src/Aes.antt =====
-- modules/aes/bench/aes_benchmark.py: AES-128 in Python. A state is the list of its sixteen bytes,
-- column by column; a block of another length stops at the assertion. `none` stands for Python's
-- AssertionError, IndexError and struct.error.
pub mod Field
pub mod Columns
pub mod Sbox
pub mod Schedule
pub mod Inverse
pub mod Cipher
pub mod Vectors
pub mod Benchmark
use risc_v_so_c.Base.{
  ℕ, zero, suc, ◌+◌, ◌-◌, ◌*◌, ◌/◌, ◌%◌, ◌==◌, ◌&&◌, if◌then◌else◌, Option, none, some, List, [],
  ◌∷◌, ◌++◌, length, get_elem?, low, ◌<<<◌, ◌>>>◌, bit_and, bit_or, bit_xor,
}
use risc_v_so_c.Base.Options.{◌>>=◌}

abbrev pub sbox : List ℕ
sbox =
    0x63 ∷ 0x7c ∷ 0x77 ∷ 0x7b ∷ 0xf2 ∷ 0x6b ∷ 0x6f ∷ 0xc5 ∷ 0x30 ∷ 0x01 ∷ 0x67 ∷ 0x2b ∷ 0xfe ∷ 0xd7
    ∷ 0xab ∷ 0x76 ∷ 0xca ∷ 0x82 ∷ 0xc9 ∷ 0x7d ∷ 0xfa ∷ 0x59 ∷ 0x47 ∷ 0xf0 ∷ 0xad ∷ 0xd4 ∷ 0xa2
    ∷ 0xaf ∷ 0x9c ∷ 0xa4 ∷ 0x72 ∷ 0xc0 ∷ 0xb7 ∷ 0xfd ∷ 0x93 ∷ 0x26 ∷ 0x36 ∷ 0x3f ∷ 0xf7 ∷ 0xcc
    ∷ 0x34 ∷ 0xa5 ∷ 0xe5 ∷ 0xf1 ∷ 0x71 ∷ 0xd8 ∷ 0x31 ∷ 0x15 ∷ 0x04 ∷ 0xc7 ∷ 0x23 ∷ 0xc3 ∷ 0x18
    ∷ 0x96 ∷ 0x05 ∷ 0x9a ∷ 0x07 ∷ 0x12 ∷ 0x80 ∷ 0xe2 ∷ 0xeb ∷ 0x27 ∷ 0xb2 ∷ 0x75 ∷ 0x09 ∷ 0x83
    ∷ 0x2c ∷ 0x1a ∷ 0x1b ∷ 0x6e ∷ 0x5a ∷ 0xa0 ∷ 0x52 ∷ 0x3b ∷ 0xd6 ∷ 0xb3 ∷ 0x29 ∷ 0xe3 ∷ 0x2f
    ∷ 0x84 ∷ 0x53 ∷ 0xd1 ∷ 0x00 ∷ 0xed ∷ 0x20 ∷ 0xfc ∷ 0xb1 ∷ 0x5b ∷ 0x6a ∷ 0xcb ∷ 0xbe ∷ 0x39
    ∷ 0x4a ∷ 0x4c ∷ 0x58 ∷ 0xcf ∷ 0xd0 ∷ 0xef ∷ 0xaa ∷ 0xfb ∷ 0x43 ∷ 0x4d ∷ 0x33 ∷ 0x85 ∷ 0x45
    ∷ 0xf9 ∷ 0x02 ∷ 0x7f ∷ 0x50 ∷ 0x3c ∷ 0x9f ∷ 0xa8 ∷ 0x51 ∷ 0xa3 ∷ 0x40 ∷ 0x8f ∷ 0x92 ∷ 0x9d
    ∷ 0x38 ∷ 0xf5 ∷ 0xbc ∷ 0xb6 ∷ 0xda ∷ 0x21 ∷ 0x10 ∷ 0xff ∷ 0xf3 ∷ 0xd2 ∷ 0xcd ∷ 0x0c ∷ 0x13
    ∷ 0xec ∷ 0x5f ∷ 0x97 ∷ 0x44 ∷ 0x17 ∷ 0xc4 ∷ 0xa7 ∷ 0x7e ∷ 0x3d ∷ 0x64 ∷ 0x5d ∷ 0x19 ∷ 0x73
    ∷ 0x60 ∷ 0x81 ∷ 0x4f ∷ 0xdc ∷ 0x22 ∷ 0x2a ∷ 0x90 ∷ 0x88 ∷ 0x46 ∷ 0xee ∷ 0xb8 ∷ 0x14 ∷ 0xde
    ∷ 0x5e ∷ 0x0b ∷ 0xdb ∷ 0xe0 ∷ 0x32 ∷ 0x3a ∷ 0x0a ∷ 0x49 ∷ 0x06 ∷ 0x24 ∷ 0x5c ∷ 0xc2 ∷ 0xd3
    ∷ 0xac ∷ 0x62 ∷ 0x91 ∷ 0x95 ∷ 0xe4 ∷ 0x79 ∷ 0xe7 ∷ 0xc8 ∷ 0x37 ∷ 0x6d ∷ 0x8d ∷ 0xd5 ∷ 0x4e
    ∷ 0xa9 ∷ 0x6c ∷ 0x56 ∷ 0xf4 ∷ 0xea ∷ 0x65 ∷ 0x7a ∷ 0xae ∷ 0x08 ∷ 0xba ∷ 0x78 ∷ 0x25 ∷ 0x2e
    ∷ 0x1c ∷ 0xa6 ∷ 0xb4 ∷ 0xc6 ∷ 0xe8 ∷ 0xdd ∷ 0x74 ∷ 0x1f ∷ 0x4b ∷ 0xbd ∷ 0x8b ∷ 0x8a ∷ 0x70
    ∷ 0x3e ∷ 0xb5 ∷ 0x66 ∷ 0x48 ∷ 0x03 ∷ 0xf6 ∷ 0x0e ∷ 0x61 ∷ 0x35 ∷ 0x57 ∷ 0xb9 ∷ 0x86 ∷ 0xc1
    ∷ 0x1d ∷ 0x9e ∷ 0xe1 ∷ 0xf8 ∷ 0x98 ∷ 0x11 ∷ 0x69 ∷ 0xd9 ∷ 0x8e ∷ 0x94 ∷ 0x9b ∷ 0x1e ∷ 0x87
    ∷ 0xe9 ∷ 0xce ∷ 0x55 ∷ 0x28 ∷ 0xdf ∷ 0x8c ∷ 0xa1 ∷ 0x89 ∷ 0x0d ∷ 0xbf ∷ 0xe6 ∷ 0x42 ∷ 0x68
    ∷ 0x41 ∷ 0x99 ∷ 0x2d ∷ 0x0f ∷ 0xb0 ∷ 0x54 ∷ 0xbb ∷ 0x16 ∷ []

abbrev pub rcon : List ℕ
rcon = 0x00 ∷ 0x01 ∷ 0x02 ∷ 0x04 ∷ 0x08 ∷ 0x10 ∷ 0x20 ∷ 0x40 ∷ 0x80 ∷ 0x1b ∷ 0x36 ∷ []

unfoldable pub xtime : ℕ → ℕ
xtime b = if bit_and b 0x80 == 0 then low 8 (b <<< 1) else low 8 (bit_xor (b <<< 1) 0x1b)

-- `struct.unpack(">4I", key)`: big-endian words, of a key of sixteen bytes.
unfoldable pub unpack : List ℕ → List ℕ
unpack (a ∷ b ∷ c ∷ d ∷ rest) =
    bit_or (bit_or (bit_or (a <<< 24) (b <<< 16)) (c <<< 8)) d ∷ unpack rest
unpack _ = []

-- The word before, rotated, substituted and with the round constant, in front of each round key.
unfoldable pub key_core : ℕ → ℕ → Option ℕ
key_core i t = do
  a ← get_elem? sbox (low 8 (t >>> 16))
  b ← get_elem? sbox (low 8 (t >>> 8))
  c ← get_elem? sbox (low 8 t)
  d ← get_elem? sbox (low 8 (t >>> 24))
  r ← get_elem? rcon (i / 4)
  some (bit_xor (bit_or (bit_or (bit_or (a <<< 24) (b <<< 16)) (c <<< 8)) d) (r <<< 24))

-- `left` rounds of the loop from index `i` on.
unfoldable pub expand : ℕ → ℕ → List ℕ → Option (List ℕ)
unfolding key_core
expand zero i w = some w
expand (suc left) i w = do
  last ← get_elem? w (i - 1)
  t ← if i % 4 == 0 then key_core i last else some last
  first ← get_elem? w (i - 4)
  expand left (i + 1) (w ++ bit_xor first t ∷ [])

-- `[w[i*4:(i+1)*4] for i in range(n)]`.
unfoldable pub quarters : ℕ → List ℕ → List (List ℕ)
quarters zero w = []
quarters (suc n) (a ∷ b ∷ c ∷ d ∷ rest) = (a ∷ b ∷ c ∷ d ∷ []) ∷ quarters n rest
quarters (suc n) w = w ∷ quarters n []

unfoldable pub key_expand : List ℕ → Option (List (List ℕ))
unfolding unpack expand quarters
key_expand key =
    if length key == 16 then (expand 40 4 (unpack key) >>= λ w. some (quarters 11 w)) else none

-- The bytes of the words of a round key, the high byte first.
unfoldable pub key_bytes : List ℕ → List ℕ
key_bytes [] = []
key_bytes (w ∷ ws) = low 8 (w >>> 24) ∷ low 8 (w >>> 16) ∷ low 8 (w >>> 8) ∷ low 8 w ∷ key_bytes ws

unfoldable pub xor_lists : List ℕ → List ℕ → List ℕ
xor_lists (a ∷ as') (b ∷ bs) = bit_xor a b ∷ xor_lists as' bs
xor_lists _ _ = []

unfoldable pub add_round_key : List ℕ → List ℕ → List ℕ
unfolding key_bytes xor_lists
add_round_key state rk = xor_lists state (key_bytes rk)

unfoldable pub sub_bytes : List ℕ → Option (List ℕ)
sub_bytes [] = some []
sub_bytes (b ∷ bs) = do s ← get_elem? sbox b; rest ← sub_bytes bs; some (s ∷ rest)

-- Row r, at the places r, 4 + r, 8 + r and 12 + r, moves r columns to the left.
unfoldable pub shift_rows : List ℕ → List ℕ
shift_rows (a0 ∷ a1 ∷ a2 ∷ a3 ∷ b0 ∷ b1 ∷ b2 ∷ b3 ∷ c0 ∷ c1 ∷ c2 ∷ c3 ∷ d0 ∷ d1 ∷ d2 ∷ d3 ∷ rest) =
    a0 ∷ b1 ∷ c2 ∷ d3 ∷ b0 ∷ c1 ∷ d2 ∷ a3 ∷ c0 ∷ d1 ∷ a2 ∷ b3 ∷ d0 ∷ a1 ∷ b2 ∷ c3 ∷ rest
shift_rows state = state

-- One row of a column of `mix_columns`: `b ^ t ^ xtime(b ^ next)`.
unfoldable pub mix : ℕ → ℕ → ℕ → ℕ
unfolding xtime
mix t b next = bit_xor (bit_xor b t) (xtime (bit_xor b next))

unfoldable pub mix_columns : List ℕ → List ℕ
unfolding mix
mix_columns (b0 ∷ b1 ∷ b2 ∷ b3 ∷ rest) =
    let t = bit_xor (bit_xor (bit_xor b0 b1) b2) b3 in
    mix t b0 b1 ∷ mix t b1 b2 ∷ mix t b2 b3 ∷ mix t b3 b0 ∷ mix_columns rest
mix_columns _ = []

-- The body of the loop over the rounds.
unfoldable pub full_round : List ℕ → List ℕ → Option (List ℕ)
unfolding sub_bytes shift_rows mix_columns add_round_key
full_round rk state = do
  substituted ← sub_bytes state
  some (add_round_key (mix_columns (shift_rows substituted)) rk)

-- `left` rounds from number `i` on.
unfoldable pub rounds : ℕ → ℕ → List (List ℕ) → List ℕ → Option (List ℕ)
unfolding full_round
rounds zero i keys state = some state
rounds (suc left) i keys state = do
  rk ← get_elem? keys i
  next ← full_round rk state
  rounds left (i + 1) keys next

unfoldable pub final_round : List ℕ → List ℕ → Option (List ℕ)
unfolding sub_bytes shift_rows add_round_key
final_round rk state = do
  substituted ← sub_bytes state
  some (add_round_key (shift_rows substituted) rk)

-- The four columns of row `r` of the output, and all rows.
unfoldable pub output_row : ℕ → List ℕ → Option (List ℕ)
output_row r cm = do
  a ← get_elem? cm (r * 4 + 0)
  b ← get_elem? cm (r * 4 + 1)
  c ← get_elem? cm (r * 4 + 2)
  d ← get_elem? cm (r * 4 + 3)
  some (a ∷ b ∷ c ∷ d ∷ [])

unfoldable pub output : List ℕ → Option (List ℕ)
unfolding output_row
output cm = do
  a ← output_row 0 cm
  b ← output_row 1 cm
  c ← output_row 2 cm
  d ← output_row 3 cm
  some (a ++ (b ++ (c ++ d)))

unfoldable pub aes128_encrypt : List ℕ → List ℕ → Option (List ℕ)
aes128_encrypt plaintext key =
    if length plaintext == 16 && length key == 16
    then (do
      keys ← key_expand key
      first ← get_elem? keys 0
      state ← rounds 9 1 keys (add_round_key plaintext first)
      last ← get_elem? keys 10
      cm ← final_round last state
      output cm)
    else none
