-- ===== src/Aes/Schedule.antt =====
-- The key schedule of modules/aes/bench/aes_benchmark.py: it raises no IndexError.
use risc_v_so_c.Base.{
  ℕ, zero, suc, ◌+◌, ◌-◌, ◌*◌, ◌/◌, ◌%◌, ◌^◌, ◌≤◌, ◌<◌, ◌≡◌, refl, ap, sym, arith, some, List, [],
  ◌∷◌, ◌++◌, length, get_elem?, get_elem?-All, All, All-any, low, ◌<<<◌, ◌>>>◌, bit_or, bit_xor,
  true, false, if◌then◌else◌, ◌==◌, length-append,
}
use mathlib.Core.List.{append-nil, append_assoc}
use risc_v_so_c.Base.Bits.{or_disjoint}
use risc_v_so_c.Aes.{sbox, rcon, key_core, unpack, expand, quarters, key_expand, key_bytes}

read_some {ℓ} :
    {A : Type ℓ} (xs : List A) (i : ℕ) → i < length xs → (a : A) × (get_elem? xs i ≡ some a)
read_some xs i h = let (a, e, _) = get_elem?-All (λ _. Unit {0}) xs i (All-any xs) h in (a, e)

key_core-some : (i t : ℕ) → i < 44 → (v : ℕ) × (key_core i t ≡ some v)
unfolding key_core
key_core-some i t h =
    let (a, p) = read_some sbox (low 8 (t >>> 16)) (omega arith) in
    let (b, q) = read_some sbox (low 8 (t >>> 8)) (omega arith) in
    let (c, r) = read_some sbox (low 8 t) (omega arith) in
    let (d, s) = read_some sbox (low 8 (t >>> 24)) (omega arith) in
    let (e, u) = read_some rcon (i / 4) (omega arith) in
    (
      bit_xor (bit_or (bit_or (bit_or (a <<< 24) (b <<< 16)) (c <<< 8)) d) (e <<< 24),
      rw (p, q, r, s, u) refl,
    )

round_word : (i t : ℕ) → i < 44 → (v : ℕ) × ((if i % 4 == 0 then key_core i t else some t) ≡ some v)
round_word i t h =
    elim (i % 4 == 0) as (λ z. (v : ℕ) × ((if z then key_core i t else some t) ≡ some v)) [
      | true ↦ key_core-some i t h
      | false ↦ (t, refl)
    ]

expand-some :
    (left i : ℕ) (w : List ℕ)
    → i + left ≤ 44
    → 4 ≤ i
    → length w ≡ i
    → (e : List ℕ) × (expand left i w ≡ some (w ++ e)) × (length e ≡ left)
unfolding expand
expand-some zero i w p q r = ([], ap some (sym (append-nil w)), refl)
expand-some (suc left) i w p q r =
    let (last, a) = read_some w (i - 1) (omega (arith, r)) in
    let (t, b) = round_word i last (omega arith) in
    let (first, c) = read_some w (i - 4) (omega (arith, r)) in
    let (e, more, long) =
      expand-some left (i + 1) (w ++ bit_xor first t ∷ []) (omega arith) (omega arith)
        (omega (arith, r, length-append w (bit_xor first t ∷ []))) in
    (
      bit_xor first t ∷ e,
      rw (a, b, c, more, append_assoc w (bit_xor first t ∷ []) e) refl,
      ap suc long,
    )

quarters_lem :
    (n : ℕ) (w : List ℕ)
    → length w ≡ n * 4
    → (length (quarters n w) ≡ n) × All (λ rk. length rk ≡ 4) (quarters n w)
unfolding quarters
quarters_lem zero w h = (refl, tt)
quarters_lem (suc n) (a ∷ b ∷ c ∷ d ∷ rest) h =
    let (long, fours) = quarters_lem n rest (omega (arith, h)) in (ap suc long, (refl, fours))
quarters_lem (suc n) [] h = absurd (omega (arith, h))
quarters_lem (suc n) (a ∷ []) h = absurd (omega (arith, h))
quarters_lem (suc n) (a ∷ b ∷ []) h = absurd (omega (arith, h))
quarters_lem (suc n) (a ∷ b ∷ c ∷ []) h = absurd (omega (arith, h))

-- A big-endian word and its bytes.
abbrev word : ℕ → ℕ → ℕ → ℕ → ℕ
word a b c d = bit_or (bit_or (bit_or (a <<< 24) (b <<< 16)) (c <<< 8)) d

word-sum :
    (a b c d : ℕ)
    → b < 256
    → c < 256
    → d < 256
    → word a b c d ≡ a * 2 ^ 24 + b * 2 ^ 16 + c * 2 ^ 8 + d
word-sum a b c d q r s =
    rw
      (
        or_disjoint 24 (a <<< 24) (b <<< 16) (omega arith) (omega arith),
        or_disjoint 16 (a <<< 24 + b <<< 16) (c <<< 8) (omega arith) (omega arith),
        or_disjoint 8 (a <<< 24 + b <<< 16 + c <<< 8) d (omega arith) (omega arith),
      )
      refl

key_bytes-word :
    (a b c d : ℕ) (rest : List ℕ)
    → a < 256
    → b < 256
    → c < 256
    → d < 256
    → key_bytes (word a b c d ∷ rest) ≡ a ∷ b ∷ c ∷ d ∷ key_bytes rest
unfolding key_bytes
key_bytes-word a b c d rest p q r s =
    let whole = word-sum a b c d q r s in
    let first : low 8 (word a b c d >>> 24) ≡ a = rw whole (omega arith) in
    let second : low 8 (word a b c d >>> 16) ≡ b = rw whole (omega arith) in
    let third : low 8 (word a b c d >>> 8) ≡ c = rw whole (omega arith) in
    let fourth : low 8 (word a b c d) ≡ d = rw whole (omega arith) in
    rw (first, second, third, fourth) refl

key_bytes-unpack :
    (n : ℕ) (key : List ℕ)
    → length key ≡ n * 4
    → All (λ b. b < 256) key
    → key_bytes (unpack key) ≡ key
unfolding unpack
key_bytes-unpack (suc n) (a ∷ b ∷ c ∷ d ∷ rest) h (p, (q, (r, (s, within)))) =
    rw
      (
        key_bytes-word a b c d (unpack rest) p q r s,
        key_bytes-unpack n rest (omega (arith, h)) within,
      )
      refl
key_bytes-unpack zero (a ∷ rest) h within = absurd (omega (arith, h))
key_bytes-unpack n [] h within = unfold key_bytes in refl
key_bytes-unpack (suc n) (a ∷ []) h within = absurd (omega (arith, h))
key_bytes-unpack (suc n) (a ∷ b ∷ []) h within = absurd (omega (arith, h))
key_bytes-unpack (suc n) (a ∷ b ∷ c ∷ []) h within = absurd (omega (arith, h))

length-unpack : (n : ℕ) (key : List ℕ) → length key ≡ n * 4 → length (unpack key) ≡ n
unfolding unpack
length-unpack (suc n) (a ∷ b ∷ c ∷ d ∷ rest) h = ap suc (length-unpack n rest (omega (arith, h)))
length-unpack n [] h = omega (arith, h)
length-unpack zero (a ∷ rest) h = absurd (omega (arith, h))
length-unpack (suc n) (a ∷ []) h = absurd (omega (arith, h))
length-unpack (suc n) (a ∷ b ∷ []) h = absurd (omega (arith, h))
length-unpack (suc n) (a ∷ b ∷ c ∷ []) h = absurd (omega (arith, h))

quarters-append :
    (n : ℕ) (w e : List ℕ) → length w ≡ 4 → get_elem? (quarters (suc n) (w ++ e)) 0 ≡ some w
unfolding quarters
quarters-append n (a ∷ b ∷ c ∷ d ∷ []) e h = refl
quarters-append n _ e h = absurd (omega (arith, h))

-- A key of sixteen bytes raises no exception. It gives eleven round keys of four words each, and the
-- bytes of the first are the key.
pub key_expand_lem :
    (key : List ℕ)
    → length key ≡ 16
    → All (λ b. b < 256) key
    → (keys : List (List ℕ)) × (key_expand key ≡ some keys)
      × (length keys ≡ 11)
      × All (λ rk. length rk ≡ 4) keys
      × (get_elem? keys 0 ≡ some (unpack key))
      × (key_bytes (unpack key) ≡ key)
unfolding key_expand
key_expand_lem key h within =
    let four = length-unpack 4 key h in
    let (e, ends, long) = expand-some 40 4 (unpack key) (omega arith) (omega arith) four in
    let (eleven, fours) =
      quarters_lem 11 (unpack key ++ e) (omega (arith, four, long, length-append (unpack key) e)) in
    (
      quarters 11 (unpack key ++ e),
      rw (h, ends) refl,
      eleven,
      fours,
      quarters-append 10 (unpack key) e four,
      key_bytes-unpack 4 key h within,
    )
