-- ===== src/Aes/Cipher.antt =====
-- `aes128_encrypt` of modules/aes/bench/aes_benchmark.py against the decryption: the rounds from the last to
-- the first, each step by its inverse.
use risc_v_so_c.Base.{
  ℕ, zero, suc, true, false, ◌+◌, ◌<◌, ◌≡◌, ◌≢◌, ◌↔◌, ◌⊎◌, refl, arith, none, some, List, [], ◌∷◌,
  length, get_elem?, get_elem?-All, All, ◌==◌, ◌&&◌, Bool-cases, inl, inr,
}
use risc_v_so_c.Base.Options.{>>=-eq-some, bind_some, some-injective}
use risc_v_so_c.Aes.{
  add_round_key, shift_rows, full_round, rounds, final_round, output, key_expand, aes128_encrypt,
}
use risc_v_so_c.Aes.Sbox.{inv_sub_bytes, sub_bytes_lem}
use risc_v_so_c.Aes.Schedule.{key_expand_lem}
use risc_v_so_c.Aes.Inverse.{
  IsBlock, Words, inv_shift_rows, inv_rounds, decrypt, inv_shift_rows-shift_rows,
  shift_rows-IsBlock, add_round_key_lem, full_round_lem,
}

-- The round after `left` rounds.
rounds_last :
    (left i : ℕ) (keys : List (List ℕ)) (state : List ℕ) {middle rk : List ℕ}
    → rounds left i keys state ≡ some middle
    → get_elem? keys (i + left) ≡ some rk
    → rounds (suc left) i keys state ≡ full_round rk middle
unfolding rounds
rounds_last zero i keys state {middle = middle} {rk = rk} h e =
    let same : i + 0 ≡ i = omega arith in
    let read = rw same at e in rw (read, some-injective h) (bind_some (full_round rk middle))
rounds_last (suc left) i keys state {middle = middle} {rk = rk} h e =
    let (rk', p, rest) = >>=-eq-some (get_elem? keys i) _ h in
    let (next, q, last) = >>=-eq-some (full_round rk' state) _ rest in
    let place : i + suc left ≡ i + 1 + left = omega arith in
    rw (p, q) (rounds_last left (i + 1) keys next last (rw place at e))

rounds_lem :
    (left : ℕ) (keys : List (List ℕ)) (state : List ℕ)
    → left < length keys
    → All Words keys
    → IsBlock state
    → (last : List ℕ) × (rounds left 1 keys state ≡ some last)
      × IsBlock last
      × (inv_rounds left keys last ≡ some state)
unfolding inv_rounds
rounds_lem zero keys state p w h = (state, unfold rounds in refl, h, refl)
rounds_lem (suc left) keys state p w h =
    let (middle, ends, block, undone) = rounds_lem left keys state (omega arith) w h in
    let (rk, read, fours) = get_elem?-All Words keys (suc left) w p in
    let (next, more, within, back) = full_round_lem rk middle fours block in
    let place : 1 + left ≡ suc left = omega arith in
    (
      next,
      rw (rounds_last left 1 keys state {middle = middle} {rk = rk} ends (rw place read)) more,
      within,
      rw (read, back) undone,
    )

final_round_lem :
    (rk state : List ℕ)
    → Words rk
    → IsBlock state
    → (next : List ℕ) × (final_round rk state ≡ some next)
      × IsBlock next
      × (inv_sub_bytes (inv_shift_rows (add_round_key next rk)) ≡ some state)
unfolding final_round
final_round_lem rk state w h =
    let (s, subs, long, within, back) = sub_bytes_lem state h.bytes in
    let shifted =
      shift_rows-IsBlock s (record { long = omega (arith, long, h.long); bytes = within }) in
    let (block, undone) = add_round_key_lem (shift_rows s) rk shifted w in
    (
      add_round_key (shift_rows s) rk,
      rw subs refl,
      block,
      rw (undone, inv_shift_rows-shift_rows s) back,
    )

output_lem : (cm : List ℕ) → length cm ≡ 16 → output cm ≡ some cm
unfolding output
output_lem (a0 ∷ a1 ∷ a2 ∷ a3 ∷ b0 ∷ b1 ∷ b2 ∷ b3 ∷ c0 ∷ c1 ∷ c2 ∷ c3 ∷ d0 ∷ d1 ∷ d2 ∷ d3 ∷ []) h =
    refl
output_lem _ h = absurd (omega (arith, h))

-- The calls of one run in both directions.
module _ (plaintext key : List ℕ) (keys : List (List ℕ)) (first last state cm : List ℕ)
    (expanded : key_expand key ≡ some keys) (p : get_elem? keys 0 ≡ some first)
    (q : get_elem? keys 10 ≡ some last) where
  encrypted :
      length plaintext ≡ 16
      → length key ≡ 16
      → rounds 9 1 keys (add_round_key plaintext first) ≡ some state
      → final_round last state ≡ some cm
      → length cm ≡ 16
      → aes128_encrypt plaintext key ≡ some cm
  unfolding aes128_encrypt
  encrypted h k ends final good = rw (h, k, expanded, p, ends, q, final) (output_lem cm good)

  decrypted :
      inv_sub_bytes (inv_shift_rows (add_round_key cm last)) ≡ some state
      → inv_rounds 9 keys state ≡ some (add_round_key plaintext first)
      → add_round_key (add_round_key plaintext first) first ≡ plaintext
      → decrypt cm key ≡ some plaintext
  unfolding decrypt
  decrypted inverse back undone = rw (expanded, q, inverse, back, p, undone) refl

-- A block of sixteen bytes under a key of sixteen bytes is encrypted to sixteen bytes, with no
-- exception, and the decryption of FIPS 197 with the same key gives the block back.
pub decrypt-aes128_encrypt :
    (plaintext key : List ℕ)
    → IsBlock plaintext
    → IsBlock key
    → (c : List ℕ) × (aes128_encrypt plaintext key ≡ some c)
      × IsBlock c
      × (decrypt c key ≡ some plaintext)
decrypt-aes128_encrypt plaintext key h k =
    let (keys, expanded, eleven, fours, _, _) = key_expand_lem key k.long k.bytes in
    let (first, p, w) = get_elem?-All Words keys 0 fours (omega (arith, eleven)) in
    let (last, q, v) = get_elem?-All Words keys 10 fours (omega (arith, eleven)) in
    let (block, undone) = add_round_key_lem plaintext first h w in
    let (state, ends, within, back) =
      rounds_lem 9 keys (add_round_key plaintext first) (omega (arith, eleven)) fours block in
    let (cm, final, good, inverse) = final_round_lem last state v within in
    (
      cm,
      encrypted plaintext key keys first last state cm expanded p q h.long k.long ends final
          good.long,
      good,
      decrypted plaintext key keys first last state cm expanded p q inverse back undone,
    )

fits : (m n : ℕ) → (m == 16 && n == 16) ≡ true → (m ≡ 16) × (n ≡ 16)
fits m n h = ground arith

unfit : (m n : ℕ) → (m == 16 && n == 16) ≡ false → (m ≢ 16) ⊎ (n ≢ 16)
unfit m n h = ground arith

misfit : (m n : ℕ) → (m ≢ 16) ⊎ (n ≢ 16) → (m == 16 && n == 16) ≡ false
misfit m n h = ground arith

-- Encryption raises an exception exactly on a block or a key that has not sixteen bytes.
aes128_encrypt-fails :
    (plaintext key : List ℕ)
    → All (λ b. b < 256) plaintext
    → All (λ b. b < 256) key
    → (aes128_encrypt plaintext key ≡ none) ↔ ((length plaintext ≢ 16) ⊎ (length key ≢ 16))
unfolding aes128_encrypt
aes128_encrypt-fails plaintext key h k =
    elim (Bool-cases (length plaintext == 16 && length key == 16)) [
      | inl both ↦
          let (p, q) = fits (length plaintext) (length key) both in
          let (c, done, _, _) =
            decrypt-aes128_encrypt plaintext key (record { long = p; bytes = h })
              (record { long = q; bytes = k }) in
          (λ failed. absurd (cc (failed, done)), λ wrong. absurd (cc (both, misfit _ _ wrong)))
      | inr other ↦ (λ _. unfit _ _ other, λ _. rw other refl)
    ]
