-- ===== src/Tests/Aes.antt =====
-- The test vectors of modules/aes/bench/aes_benchmark.py.
use risc_v_so_c.Base.{ℕ, ◌≡◌, ◌⊎◌, refl, arith, some, List, [], ◌∷◌, replicate, get_elem?}
use risc_v_so_c.Aes.{
  sbox, aes128_encrypt, key_expand, expand, key_core, unpack, quarters, add_round_key, key_bytes,
  xor_lists, rounds, full_round, sub_bytes, shift_rows, mix_columns, mix, xtime, final_round,
  output, output_row,
}
use risc_v_so_c.Aes.Columns.{circulant, by_2, by_3, mix_columns-circulant}
use risc_v_so_c.Aes.Sbox.{affine, squares, product, sbox-affine}
use risc_v_so_c.Aes.Inverse.{IsBlock, decrypt}
use risc_v_so_c.Aes.Cipher.{decrypt-aes128_encrypt}
use risc_v_so_c.Aes.Vectors.{vectors, run_vectors}

run_vectors_passes : run_vectors vectors ≡ some 0
unfolding run_vectors aes128_encrypt key_expand expand key_core unpack quarters add_round_key
    key_bytes xor_lists rounds full_round sub_bytes shift_rows mix_columns mix xtime final_round
    output output_row
run_vectors_passes = refl

abbrev zeros : List ℕ
zeros = replicate 16 0

zeros-IsBlock : IsBlock zeros
zeros-IsBlock = record { long = refl; bytes = omega arith }

decrypt-aes128_encrypt_example :
    (c : List ℕ) × (aes128_encrypt zeros zeros ≡ some c)
    × IsBlock c
    × (decrypt c zeros ≡ some zeros)
decrypt-aes128_encrypt_example = decrypt-aes128_encrypt zeros zeros zeros-IsBlock zeros-IsBlock

sbox-affine_example :
    (get_elem? sbox 0x53 ≡ some (affine (squares 7 0x53)))
    × ((◌≡◌ {A = ℕ} 0x53 0) ⊎ (product 8 0x53 (squares 7 0x53) ≡ 1))
sbox-affine_example = sbox-affine 0x53 (omega arith)

mix_columns-circulant_example :
    mix_columns (0xdb ∷ 0x13 ∷ 0x53 ∷ 0x45 ∷ [])
    ≡ circulant by_2 by_3 (λ b. b) (λ b. b) (0xdb ∷ 0x13 ∷ 0x53 ∷ 0x45 ∷ [])
mix_columns-circulant_example = mix_columns-circulant (0xdb ∷ 0x13 ∷ 0x53 ∷ 0x45 ∷ [])
