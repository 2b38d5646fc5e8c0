-- ===== src/Base/Bits.antt =====
-- `&`, `|` and `^` of non-negative integers at variables: a bit at a position is that of the
-- operands, and `|` of disjoint fields is their sum.
use Prim.Native.Nat.{digits, differ, bit_and-bitwise, bit_or-bitwise, bit_xor-bitwise}
use native.Mathlib.Nat.{pow-suc, pow-succ', div-div-eq-div-mul, div-add-mod', mod-lt, one-le-pow}
use risc_v_so_c.Base.{
  ℕ, zero, suc, ◌+◌, ◌-◌, ◌*◌, ◌/◌, ◌%◌, ◌^◌, ◌≤◌, ◌<◌, ◌≡◌, refl, arith, min, max, bit_and, bit_or,
  bit_xor, bit,
}
use risc_v_so_c.Base.Int.{ℤ, pos, negsuc, wrap, and_not}

-- The recursion on digits stops at the first number's end, however much fuel is left.
module _ (z : ℕ → ℕ) (f : ℕ → ℕ → ℕ) where
  digits_enough : (n m a b : ℕ) → a ≤ n → a ≤ m → digits z f n a b ≡ digits z f m a b
  digits_enough zero zero a b p q = refl
  digits_enough (suc n) zero zero b p q = refl
  digits_enough (suc n) zero (suc a) b p q = absurd (omega arith)
  digits_enough zero (suc m) zero b p q = refl
  digits_enough zero (suc m) (suc a) b p q = absurd (omega arith)
  digits_enough (suc n) (suc m) zero b p q = refl
  digits_enough (suc n) (suc m) (suc a) b p q =
      let ih = digits_enough n m (suc a / 2) (b / 2) (omega arith) (omega arith) in
      omega (arith, ih)

pub and_digit : (a b : ℕ) → bit_and a b ≡ bit_and (a / 2) (b / 2) * 2 + min (a % 2) (b % 2)
and_digit zero b = omega (arith, bit_and-bitwise 0 b, bit_and-bitwise 0 (b / 2))
and_digit (suc a) b = omega (
  arith,
  bit_and-bitwise (suc a) b,
  bit_and-bitwise (suc a / 2) (b / 2),
  digits_enough (λ _. 0) min a (suc a / 2) (suc a / 2) (b / 2) (omega arith) (omega arith),
)

pub or_digit : (a b : ℕ) → bit_or a b ≡ bit_or (a / 2) (b / 2) * 2 + max (a % 2) (b % 2)
or_digit zero b = omega (arith, bit_or-bitwise 0 b, bit_or-bitwise 0 (b / 2))
or_digit (suc a) b = omega (
  arith,
  bit_or-bitwise (suc a) b,
  bit_or-bitwise (suc a / 2) (b / 2),
  digits_enough (λ y. y) max a (suc a / 2) (suc a / 2) (b / 2) (omega arith) (omega arith),
)

differ_bits : (x y : ℕ) → x < 2 → y < 2 → differ x y ≡ (x + y) % 2
differ_bits zero y p q = omega arith
differ_bits (suc zero) zero p q = refl
differ_bits (suc zero) (suc zero) p q = refl
differ_bits (suc zero) (suc (suc y)) p q = absurd (omega arith)
differ_bits (suc (suc x)) y p q = absurd (omega arith)

pub xor_digit : (a b : ℕ) → bit_xor a b ≡ bit_xor (a / 2) (b / 2) * 2 + (a % 2 + b % 2) % 2
xor_digit zero b = omega (arith, bit_xor-bitwise 0 b, bit_xor-bitwise 0 (b / 2))
xor_digit (suc a) b = omega (
  arith,
  bit_xor-bitwise (suc a) b,
  bit_xor-bitwise (suc a / 2) (b / 2),
  differ_bits (suc a % 2) (b % 2) (omega arith) (omega arith),
  digits_enough (λ y. y) differ a (suc a / 2) (suc a / 2) (b / 2) (omega arith) (omega arith),
)

-- One digit further up.
pub bit-suc : (k x : ℕ) → bit (suc k) x ≡ bit k (x / 2)
bit-suc k x = rw (pow-succ' 2 k, ← div-div-eq-div-mul x 2 (2 ^ k)) refl

-- The bit of a combination at any position is the combination of the bits there.
pub bit-and : (k a b : ℕ) → bit k (bit_and a b) ≡ min (bit k a) (bit k b)
bit-and zero a b = omega (arith, and_digit a b)
bit-and (suc k) a b =
    let half : bit_and a b / 2 ≡ bit_and (a / 2) (b / 2) = omega (arith, and_digit a b) in
    rw (bit-suc, bit-suc, bit-suc, half) (bit-and k (a / 2) (b / 2))

pub bit-or : (k a b : ℕ) → bit k (bit_or a b) ≡ max (bit k a) (bit k b)
bit-or zero a b = omega (arith, or_digit a b)
bit-or (suc k) a b =
    let half : bit_or a b / 2 ≡ bit_or (a / 2) (b / 2) = omega (arith, or_digit a b) in
    rw (bit-suc, bit-suc, bit-suc, half) (bit-or k (a / 2) (b / 2))

pub bit-xor : (k a b : ℕ) → bit k (bit_xor a b) ≡ (bit k a + bit k b) % 2
bit-xor zero a b = omega (arith, xor_digit a b)
bit-xor (suc k) a b =
    let half : bit_xor a b / 2 ≡ bit_xor (a / 2) (b / 2) = omega (arith, xor_digit a b) in
    rw (bit-suc, bit-suc, bit-suc, half) (bit-xor k (a / 2) (b / 2))

pub bit-and_not : (k a b : ℕ) → bit k (and_not a b) ≡ bit k a - bit k b
bit-and_not k a b = omega (arith, bit-xor k a (bit_and a b), bit-and k a b)

-- A combination needs no more digits than its operands.
pub and-lt : (k a b : ℕ) → a < 2 ^ k → bit_and a b < 2 ^ k
and-lt zero zero b h = omega (arith, and_digit 0 b, bit_and-bitwise 0 (b / 2))
and-lt zero (suc a) b h = absurd (omega arith)
and-lt (suc k) a b h =
    omega (arith, pow-suc 2 k, and_digit a b, and-lt k (a / 2) (b / 2) (omega (arith, pow-suc 2 k)))

pub or-lt : (k a b : ℕ) → a < 2 ^ k → b < 2 ^ k → bit_or a b < 2 ^ k
or-lt zero zero zero h p = omega (arith, bit_or-bitwise 0 0)
or-lt zero zero (suc b) h p = absurd (omega arith)
or-lt zero (suc a) b h p = absurd (omega arith)
or-lt (suc k) a b h p =
    let ih = or-lt k (a / 2) (b / 2) (omega (arith, pow-suc 2 k)) (omega (arith, pow-suc 2 k)) in
    omega (arith, pow-suc 2 k, or_digit a b, ih)

pub xor-lt : (k a b : ℕ) → a < 2 ^ k → b < 2 ^ k → bit_xor a b < 2 ^ k
xor-lt zero zero zero h p = omega (arith, bit_xor-bitwise 0 0)
xor-lt zero zero (suc b) h p = absurd (omega arith)
xor-lt zero (suc a) b h p = absurd (omega arith)
xor-lt (suc k) a b h p =
    let ih = xor-lt k (a / 2) (b / 2) (omega (arith, pow-suc 2 k)) (omega (arith, pow-suc 2 k)) in
    omega (arith, pow-suc 2 k, xor_digit a b, ih)

or-zero_fuel : (n a : ℕ) → a ≤ n → bit_or a 0 ≡ a
or-zero_fuel n zero h = refl
or-zero_fuel zero (suc a) h = absurd (omega arith)
or-zero_fuel (suc n) (suc a) h =
    omega (arith, or_digit (suc a) 0, or-zero_fuel n (suc a / 2) (omega arith))

-- A field above position `k` and one below it: `|` is `+`.
or_fields : (k q r : ℕ) → r < 2 ^ k → bit_or (q * 2 ^ k) r ≡ q * 2 ^ k + r
or_fields zero q zero h = omega (arith, or-zero_fuel (q * 1) (q * 1) (omega arith))
or_fields zero q (suc r) h = absurd (omega arith)
or_fields (suc k) q r h =
    let twice : q * 2 ^ suc k ≡ q * 2 ^ k * 2 = rw pow-suc (omega arith) in
    let half : q * 2 ^ suc k / 2 ≡ q * 2 ^ k = omega (arith, twice) in
    let ih = or_fields k q (r / 2) (omega (arith, pow-suc 2 k)) in
    let digit = rw half at (or_digit (q * 2 ^ suc k) r) in omega (arith, twice, ih, digit)

pub or_disjoint : (k x y : ℕ) → x % 2 ^ k ≡ 0 → y < 2 ^ k → bit_or x y ≡ x + y
or_disjoint k x y e h =
    let whole : x ≡ x / 2 ^ k * 2 ^ k = omega (arith, div-add-mod' x (2 ^ k)) in
    rw whole (or_fields k (x / 2 ^ k) y h)

or_comm_fuel : (n a b : ℕ) → a ≤ n → b ≤ n → bit_or a b ≡ bit_or b a
or_comm_fuel zero zero zero h k = refl
or_comm_fuel zero zero (suc b) h k = absurd (omega arith)
or_comm_fuel zero (suc a) b h k = absurd (omega arith)
or_comm_fuel (suc n) a b h k =
    omega (
      arith,
      or_digit a b,
      or_digit b a,
      or_comm_fuel n (a / 2) (b / 2) (omega arith) (omega arith),
    )

pub or_comm : (a b : ℕ) → bit_or a b ≡ bit_or b a
or_comm a b = or_comm_fuel (a + b) a b (omega arith) (omega arith)

-- The low bits of an integer.
pub wrap-lt : (k : ℕ) (z : ℤ) → wrap k z < 2 ^ k
wrap-lt k (pos n) = mod-lt n (one-le-pow k 2 (omega arith))
wrap-lt k (negsuc n) = omega (arith, one-le-pow k 2 (omega arith))

and_zero_fuel : (n a : ℕ) → a ≤ n → bit_and a 0 ≡ 0
and_zero_fuel n zero h = refl
and_zero_fuel zero (suc a) h = absurd (omega arith)
and_zero_fuel (suc n) (suc a) h =
    omega (arith, and_digit (suc a) 0, and_zero_fuel n (suc a / 2) (omega arith))

-- A mask of one bit.
pub and_power : (k x : ℕ) → bit_and x (2 ^ k) ≡ bit k x * 2 ^ k
and_power zero x = omega (arith, and_digit x 1, and_zero_fuel (x / 2) (x / 2) (omega arith))
and_power (suc k) x =
    let power : 2 ^ suc k ≡ 2 ^ k * 2 = rw pow-suc (omega arith) in
    let half : 2 ^ suc k / 2 ≡ 2 ^ k = omega (arith, power) in
    let digit = rw half at (and_digit x (2 ^ suc k)) in
    let scaled : bit k (x / 2) * 2 ^ suc k ≡ bit k (x / 2) * 2 ^ k * 2 =
      rw pow-suc (ground arith) in
    let even : 2 ^ suc k % 2 ≡ 0 = omega (arith, power) in
    rw (bit-suc, digit, even, and_power k (x / 2), scaled) (omega arith)
