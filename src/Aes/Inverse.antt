-- ===== src/Aes/Inverse.antt =====
-- The decryption of FIPS 197, which modules/aes/bench/aes_benchmark.py does not have, and its steps against
-- those of `aes128_encrypt`.
use risc_v_so_c.Base.{
  ℕ, zero, suc, ◌*◌, ◌<◌, ◌≡◌, refl, ap, arith, Option, some, List, [], ◌∷◌, length, get_elem?, All,
}
use risc_v_so_c.Base.Options.{◌>>=◌}
use risc_v_so_c.Base.Bits.{xor-lt}
use risc_v_so_c.Base.Xor.{xor_twice}
use risc_v_so_c.Aes.{
  key_bytes, xor_lists, add_round_key, shift_rows, mix_columns, full_round, key_expand,
}
use risc_v_so_c.Aes.Columns.{
  inv_mix_columns, inv_mix_columns-mix_columns, length-mix_columns, mix_columns-All,
}
use risc_v_so_c.Aes.Sbox.{inv_sub_bytes, sub_bytes_lem}

-- A state: sixteen bytes.
pub record IsBlock (state : List ℕ) : Type 0 where
  pub long : length state ≡ 16
  pub bytes : All (λ b. b < 256) state

abbrev pub Words : List ℕ → Type 0
Words rk = length rk ≡ 4

unfoldable pub inv_shift_rows : List ℕ → List ℕ
inv_shift_rows
      (a0 ∷ a1 ∷ a2 ∷ a3 ∷ b0 ∷ b1 ∷ b2 ∷ b3 ∷ c0 ∷ c1 ∷ c2 ∷ c3 ∷ d0 ∷ d1 ∷ d2 ∷ d3 ∷ rest) =
    a0 ∷ d1 ∷ c2 ∷ b3 ∷ b0 ∷ a1 ∷ d2 ∷ c3 ∷ c0 ∷ b1 ∷ a2 ∷ d3 ∷ d0 ∷ c1 ∷ b2 ∷ a3 ∷ rest
inv_shift_rows state = state

unfoldable pub inv_round : List ℕ → List ℕ → Option (List ℕ)
unfolding add_round_key inv_mix_columns inv_shift_rows inv_sub_bytes
inv_round rk state = inv_sub_bytes (inv_shift_rows (inv_mix_columns (add_round_key state rk)))

-- The rounds `left`, `left - 1` and on to 1.
unfoldable pub inv_rounds : ℕ → List (List ℕ) → List ℕ → Option (List ℕ)
unfolding inv_round
inv_rounds zero keys state = some state
inv_rounds (suc left) keys state = do
  rk ← get_elem? keys (suc left)
  before ← inv_round rk state
  inv_rounds left keys before

unfoldable pub decrypt : List ℕ → List ℕ → Option (List ℕ)
decrypt ciphertext key = do
  keys ← key_expand key
  last ← get_elem? keys 10
  state ← inv_sub_bytes (inv_shift_rows (add_round_key ciphertext last))
  before ← inv_rounds 9 keys state
  first ← get_elem? keys 0
  some (add_round_key before first)

pub inv_shift_rows-shift_rows : (state : List ℕ) → inv_shift_rows (shift_rows state) ≡ state
unfolding inv_shift_rows shift_rows
inv_shift_rows-shift_rows
      (a0 ∷ a1 ∷ a2 ∷ a3 ∷ b0 ∷ b1 ∷ b2 ∷ b3 ∷ c0 ∷ c1 ∷ c2 ∷ c3 ∷ d0 ∷ d1 ∷ d2 ∷ d3 ∷ rest) =
    refl
inv_shift_rows-shift_rows _ = refl

pub shift_rows-IsBlock : (state : List ℕ) → IsBlock state → IsBlock (shift_rows state)
unfolding shift_rows
shift_rows-IsBlock
      (a0 ∷ a1 ∷ a2 ∷ a3 ∷ b0 ∷ b1 ∷ b2 ∷ b3 ∷ c0 ∷ c1 ∷ c2 ∷ c3 ∷ d0 ∷ d1 ∷ d2 ∷ d3 ∷ rest) h =
    record { long = h.long; bytes = ground (arith, h.bytes) }
shift_rows-IsBlock _ h = h

pub length-key_bytes : (rk : List ℕ) → length (key_bytes rk) ≡ length rk * 4
unfolding key_bytes
length-key_bytes [] = refl
length-key_bytes (w ∷ ws) = omega (arith, length-key_bytes ws)

pub key_bytes-All : (rk : List ℕ) → All (λ b. b < 256) (key_bytes rk)
unfolding key_bytes
key_bytes-All [] = tt
key_bytes-All (w ∷ ws) =
    (omega arith, (omega arith, (omega arith, (omega arith, key_bytes-All ws))))

pub xor_lists_lem :
    (s k : List ℕ)
    → length s ≡ length k
    → All (λ b. b < 256) s
    → All (λ b. b < 256) k
    → (length (xor_lists s k) ≡ length s)
      × All (λ b. b < 256) (xor_lists s k)
      × (xor_lists (xor_lists s k) k ≡ s)
unfolding xor_lists
xor_lists_lem [] [] h p q = (refl, tt, refl)
xor_lists_lem [] (k ∷ ks) h p q = absurd (omega (arith, h))
xor_lists_lem (s ∷ ss) [] h p q = absurd (omega (arith, h))
xor_lists_lem (s ∷ ss) (k ∷ ks) h (p, ps) (q, qs) =
    let (long, within, back) = xor_lists_lem ss ks (omega (arith, h)) ps qs in
    (ap suc long, (xor-lt 8 s k p q, within), rw (xor_twice s k, back) refl)

pub add_round_key_lem :
    (state rk : List ℕ)
    → IsBlock state
    → Words rk
    → IsBlock (add_round_key state rk) × (add_round_key (add_round_key state rk) rk ≡ state)
unfolding add_round_key
add_round_key_lem state rk h w =
    let (long, within, back) =
      xor_lists_lem state (key_bytes rk) (omega (arith, h.long, w, length-key_bytes rk)) h.bytes
        (key_bytes-All rk) in
    (record { long = omega (arith, long, h.long); bytes = within }, back)

pub full_round_lem :
    (rk state : List ℕ)
    → Words rk
    → IsBlock state
    → (next : List ℕ) × (full_round rk state ≡ some next)
      × IsBlock next
      × (inv_round rk next ≡ some state)
unfolding full_round inv_round
full_round_lem rk state w h =
    let (s, subs, long, within, back) = sub_bytes_lem state h.bytes in
    let shifted =
      shift_rows-IsBlock s (record { long = omega (arith, long, h.long); bytes = within }) in
    let mixed : IsBlock (mix_columns (shift_rows s)) = record {
      long = length-mix_columns 4 (shift_rows s) shifted.long;
      bytes = mix_columns-All (shift_rows s) shifted.bytes;
    } in
    let (block, undone) = add_round_key_lem (mix_columns (shift_rows s)) rk mixed w in
    (
      add_round_key (mix_columns (shift_rows s)) rk,
      rw subs refl,
      block,
      rw
          (
            undone,
            inv_mix_columns-mix_columns 4 (shift_rows s) shifted.long,
            inv_shift_rows-shift_rows s,
          )
          back,
    )
