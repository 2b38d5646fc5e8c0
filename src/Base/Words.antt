-- ===== src/Base/Words.antt =====
-- Shifts and masks of non-negative Python integers, as arithmetic: `x & (2 ** k - 1)` is
-- `low k x`, and the masks with one bit of a position are read by `bit`.
use Prim.Native.Nat.{ℕ, ◌*◌, ◌/◌, ◌%◌, ◌^◌}

infixl 75 ◌<<<◌ ◌>>>◌
abbrev pub ◌<<<◌ : ℕ → ℕ → ℕ
x <<< k = x * 2 ^ k

abbrev pub ◌>>>◌ : ℕ → ℕ → ℕ
x >>> k = x / 2 ^ k

abbrev pub low : ℕ → ℕ → ℕ
low k x = x % 2 ^ k

-- The bit of `x` at position `k`, as `(x >> k) & 1`.
abbrev pub bit : ℕ → ℕ → ℕ
bit k x = x / 2 ^ k % 2
