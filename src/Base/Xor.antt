-- ===== src/Base/Xor.antt =====
-- `^` of non-negative integers at variables: it cancels itself, and masks keep it.
use risc_v_so_c.Base.{
  ℕ, zero, suc, ◌+◌, ◌*◌, ◌/◌, ◌%◌, ◌^◌, ◌≤◌, ◌≡◌, refl, arith, bit_xor, bit, low,
}
use native.Mathlib.Nat.{pow-succ', div-div-eq-div-mul, div-add-mod'}
use risc_v_so_c.Base.Bits.{xor_digit, bit-suc, bit-xor}

bit_ext_fuel : (n a b : ℕ) → a ≤ n → b ≤ n → ((k : ℕ) → bit k a ≡ bit k b) → a ≡ b
bit_ext_fuel zero a b h k same = omega arith
bit_ext_fuel (suc n) a b h k same =
    let ih =
      bit_ext_fuel n (a / 2) (b / 2) (omega arith) (omega arith)
        (λ j. rw (← bit-suc j a, ← bit-suc j b) (same (suc j))) in
    omega (arith, ih, same 0)

-- Numbers with the same bits are equal.
pub bit_ext : (a b : ℕ) → ((k : ℕ) → bit k a ≡ bit k b) → a ≡ b
bit_ext a b same = bit_ext_fuel (a + b) a b (omega arith) (omega arith) same

zero_bit : (k : ℕ) → bit k 0 ≡ 0
zero_bit zero = refl
zero_bit (suc k) = rw bit-suc (zero_bit k)

pub xor_zero : (a : ℕ) → bit_xor a 0 ≡ a
xor_zero a = bit_ext _ _ (λ k. omega (arith, bit-xor k a 0, zero_bit k))

pub xor_self : (a : ℕ) → bit_xor a a ≡ 0
xor_self a = bit_ext _ _ (λ k. omega (arith, bit-xor k a a, zero_bit k))

pub xor_twice : (a b : ℕ) → bit_xor (bit_xor a b) b ≡ a
xor_twice a b = bit_ext _ _ (λ k. omega (arith, bit-xor k a b, bit-xor k (bit_xor a b) b))

pub xor_double : (a b : ℕ) → bit_xor a b * 2 ≡ bit_xor (a * 2) (b * 2)
xor_double a b =
    let first : a * 2 / 2 ≡ a = omega arith in
    let second : b * 2 / 2 ≡ b = omega arith in
    let digit = rw (first, second) at (xor_digit (a * 2) (b * 2)) in omega (arith, digit)

low-suc : (k x : ℕ) → low (suc k) x ≡ low k (x / 2) * 2 + x % 2
low-suc k x =
    let power : 2 ^ suc k ≡ 2 * 2 ^ k = pow-succ' 2 k in
    let nested : x / 2 / 2 ^ k ≡ x / 2 ^ suc k =
      rw (power, ← div-div-eq-div-mul x 2 (2 ^ k)) refl in
    let scaled : x / 2 ^ suc k * 2 ^ suc k ≡ x / 2 ^ suc k * 2 ^ k * 2 = rw power (grind arith) in
    let above = div-add-mod' x (2 ^ suc k) in
    let below = rw nested at (div-add-mod' (x / 2) (2 ^ k)) in omega (arith, scaled, above, below)

pub low-xor : (k a b : ℕ) → low k (bit_xor a b) ≡ bit_xor (low k a) (low k b)
low-xor zero a b =
    let first : low 0 a ≡ 0 = omega arith in
    let second : low 0 b ≡ 0 = omega arith in rw (first, second, xor_self 0) (omega arith)
low-xor (suc k) a b =
    let digits = xor_digit (low (suc k) a) (low (suc k) b) in
    let half : bit_xor a b / 2 ≡ bit_xor (a / 2) (b / 2) = omega (arith, xor_digit a b) in
    let below = low-suc k (bit_xor a b) in
    let ih = low-xor k (a / 2) (b / 2) in
    let first : low (suc k) a / 2 ≡ low k (a / 2) = omega (arith, low-suc k a) in
    let second : low (suc k) b / 2 ≡ low k (b / 2) = omega (arith, low-suc k b) in
    rw (below, digits, first, second, half, ih)
      (omega (arith, low-suc k a, low-suc k b, xor_digit a b))
