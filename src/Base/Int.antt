-- ===== src/Base/Int.antt =====
-- Python's unbounded integers, where the source lets them be negative: sums, comparisons,
-- `>>`, `~`, `&`, `|` and the masks `& (2 ** k - 1)`.
use risc_v_so_c.Base.{
  ℕ, suc, ◌+◌, ◌-◌, ◌/◌, ◌%◌, ◌^◌, ◌≤◌, Bool, false, ltb, leb, ◌==◌, if◌then◌else◌, bit_and, bit_or,
  bit_xor,
}

-- `negsuc n` is -(n + 1).
pub data ℤ : Type 0 where
  pos : ℕ → ℤ
  negsuc : ℕ → ℤ

abbrev pub pos_part : ℤ → ℕ
pos_part (pos n) = n
pos_part (negsuc n) = 0

abbrev pub neg_part : ℤ → ℕ
neg_part (pos n) = 0
neg_part (negsuc n) = suc n

-- a - b, as an integer.
abbrev pub sub_ℕ : ℕ → ℕ → ℤ
sub_ℕ a b = if leb b a then pos (a - b) else negsuc (b - a - 1)

infixl 65 ◌+ℤ◌ ◌-ℤ◌
infix 50 ◌≤ℤ◌
abbrev pub ◌+ℤ◌ : ℤ → ℤ → ℤ
a +ℤ b = sub_ℕ (pos_part a + pos_part b) (neg_part a + neg_part b)

abbrev pub ◌-ℤ◌ : ℤ → ℤ → ℤ
a -ℤ b = sub_ℕ (pos_part a + neg_part b) (neg_part a + pos_part b)

abbrev pub ◌≤ℤ◌ : ℤ → ℤ → Type 0
a ≤ℤ b = pos_part a + neg_part b ≤ pos_part b + neg_part a

abbrev pub ltb_ℤ : ℤ → ℤ → Bool
ltb_ℤ a b = ltb (pos_part a + neg_part b) (pos_part b + neg_part a)

abbrev pub eqb_ℤ : ℤ → ℤ → Bool
eqb_ℤ (pos a) (pos b) = a == b
eqb_ℤ (negsuc a) (negsuc b) = a == b
eqb_ℤ _ _ = false

-- `z & (2 ** k - 1)`.
abbrev pub wrap : ℕ → ℤ → ℕ
wrap k (pos n) = n % 2 ^ k
wrap k (negsuc n) = 2 ^ k - 1 - n % 2 ^ k

-- `z >> k` rounds down.
abbrev pub shr_ℤ : ℤ → ℕ → ℤ
shr_ℤ (pos n) k = pos (n / 2 ^ k)
shr_ℤ (negsuc n) k = negsuc (n / 2 ^ k)

-- `~z`.
abbrev pub not_ℤ : ℤ → ℤ
not_ℤ (pos n) = negsuc n
not_ℤ (negsuc n) = pos n

-- The bits of `a` that `b` lacks.
abbrev pub and_not : ℕ → ℕ → ℕ
and_not a b = bit_xor a (bit_and a b)

-- `a & b` and `a | b`: a negative number is the complement of one that is not.
abbrev pub and_ℤ : ℤ → ℤ → ℤ
and_ℤ (pos a) (pos b) = pos (bit_and a b)
and_ℤ (pos a) (negsuc b) = pos (and_not a b)
and_ℤ (negsuc a) (pos b) = pos (and_not b a)
and_ℤ (negsuc a) (negsuc b) = negsuc (bit_or a b)

abbrev pub or_ℤ : ℤ → ℤ → ℤ
or_ℤ (pos a) (pos b) = pos (bit_or a b)
or_ℤ (pos a) (negsuc b) = negsuc (and_not b a)
or_ℤ (negsuc a) (pos b) = negsuc (and_not a b)
or_ℤ (negsuc a) (negsuc b) = negsuc (bit_and a b)
