-- ===== src/Nist.antt =====
-- modules/trng/tools/nist_sts.py: the statistical tests on random bits. What they count is here and in
-- Nist.Rank, on natural numbers; Nist.Gamma and Nist.Suite have the statistics, over any floating-point
-- numbers. Bits are a list of numbers.
pub mod Runs
pub mod Counts
pub mod Rank
pub mod Template
pub mod Gamma
pub mod Suite
pub mod Patterns
pub mod Report
pub mod Lengths
use risc_v_so_c.Base.{
  ℕ, zero, suc, ◌+◌, ◌-◌, ◌*◌, ◌/◌, ◌%◌, ◌^◌, min, max, ltb, leb, ◌==◌, Bool, true, false, not,
  ◌&&◌, if◌then◌else◌, Option, none, some, List, [], ◌∷◌, ◌++◌, map, length, get_elem?, set,
  replicate, take, drop, bit,
}
use risc_v_so_c.Base.Int.{ℤ, pos, negsuc, ◌+ℤ◌, ◌-ℤ◌, ltb_ℤ, pos_part, neg_part}
use risc_v_so_c.Base.Text.{text_eq}
use risc_v_so_c.Base.Dict.{Dict, get, put, text_key}
use risc_v_so_c.Base.Options.{◌>>=◌}

unfoldable pub byte_bits : ℕ → List ℕ
byte_bits byte =
    bit 7 byte
    ∷ bit 6 byte
    ∷ bit 5 byte
    ∷ bit 4 byte
    ∷ bit 3 byte
    ∷ bit 2 byte
    ∷ bit 1 byte
    ∷ bit 0 byte
    ∷ []

unfoldable pub bytes_to_bits : List ℕ → List ℕ
unfolding byte_bits
bytes_to_bits [] = []
bytes_to_bits (byte ∷ bytes) = byte_bits byte ++ bytes_to_bits bytes

abbrev pub sum : List ℕ → ℕ
sum [] = 0
sum (x ∷ xs) = x + sum xs

-- `bits[i*M:(i+1)*M]` for `count` values of i.
unfoldable pub blocks : ℕ → ℕ → List ℕ → List (List ℕ)
blocks zero M bits = []
blocks (suc count) M bits = take M bits ∷ blocks count M (drop M bits)

-- `1 if b else -1`, and the sum over all bits.
abbrev pub signed : ℕ → ℤ
signed b = if b == 0 then negsuc 0 else pos 1

unfoldable pub balance : List ℕ → ℤ
balance [] = pos 0
balance (b ∷ bs) = signed b +ℤ balance bs

-- The number of neighbours that differ.
unfoldable pub changes : List ℕ → ℕ
changes [] = 0
changes (a ∷ []) = 0
changes (a ∷ b ∷ bits) = (if a == b then 0 else 1) + changes (b ∷ bits)

-- The loop over a block, from a run and the longest so far.
unfoldable pub longest_run : ℕ → ℕ → List ℕ → ℕ
longest_run run max_run [] = max_run
longest_run run max_run (b ∷ bits) =
    let run' = if b == 1 then run + 1 else 0 in longest_run run' (max max_run run') bits

-- `M`, `N`, `v_lookup` and the number of entries of `pi_table`, by the number of bits.
pub record RunTable : Type 0 where
  pub size : ℕ
  pub count : ℕ
  pub first : ℕ
  pub rest : List ℕ
  pub probabilities : List ℕ

abbrev pub run_table : ℕ → RunTable
run_table n =
    if ltb n 6272
    then record {
      size = 8;
      count = 16;
      first = 1;
      rest = 2 ∷ 3 ∷ 4 ∷ [];
      probabilities = 2148 ∷ 3672 ∷ 2305 ∷ 1875 ∷ [];
    }
    else if ltb n 750000
    then record {
      size = 128;
      count = 49;
      first = 4;
      rest = 5 ∷ 6 ∷ 7 ∷ 8 ∷ 9 ∷ [];
      probabilities = 1174 ∷ 2430 ∷ 2493 ∷ 1752 ∷ 1027 ∷ 1124 ∷ [];
    }
    else record {
      size = 10000;
      count = 75;
      first = 10;
      rest = 11 ∷ 12 ∷ 13 ∷ 14 ∷ 15 ∷ 16 ∷ [];
      probabilities = 882 ∷ 2092 ∷ 2483 ∷ 1933 ∷ 1208 ∷ 675 ∷ 727 ∷ [];
    }

-- `v_lookup[-1]`.
unfoldable pub last_of : ℕ → List ℕ → ℕ
last_of first [] = first
last_of first (v ∷ vs) = last_of v vs

-- `v_lookup.index(v) if v in v_lookup else 0`, from the place `i` on.
unfoldable pub index_from : ℕ → ℕ → List ℕ → ℕ
index_from i v [] = 0
index_from i v (w ∷ ws) = if w == v then i else index_from (i + 1) v ws

unfoldable pub run_class : RunTable → List ℕ → ℕ
unfolding longest_run last_of index_from
run_class t block =
    let clamped = max t.first (min (last_of t.first t.rest) (longest_run 0 0 block)) in
    index_from 0 clamped (t.first ∷ t.rest)

-- `freqs[idx] += 1`; `none` is an IndexError.
unfoldable pub count_class : List ℕ → ℕ → Option (List ℕ)
count_class freqs idx = do f ← get_elem? freqs idx; some (set freqs idx (f + 1))

unfoldable pub run_freqs : RunTable → List ℕ → List (List ℕ) → Option (List ℕ)
unfolding run_class count_class
run_freqs t freqs [] = some freqs
run_freqs t freqs (block ∷ rest) = do
  freqs' ← count_class freqs (run_class t block)
  run_freqs t freqs' rest

-- `freqs` of `test_longest_run`.
unfoldable pub longest_run_freqs : List ℕ → Option (List ℕ)
unfolding run_freqs blocks
longest_run_freqs bits =
    let t = run_table (length bits) in
    run_freqs t (replicate (length t.probabilities + 1) 0) (blocks t.count t.size bits)

-- `tuple(ext[i:i+m])` for `left` values of i.
unfoldable pub windows : ℕ → ℕ → List ℕ → List (List ℕ)
windows zero m ext = []
windows (suc left) m ext = take m ext ∷ windows left m (drop 1 ext)

-- `counts.get(pat, 0)` is `or_zero` of `get`.
abbrev pub or_zero : Option ℕ → ℕ
or_zero none = 0
or_zero (some v) = v

-- The loop that counts patterns.
unfoldable pub tally : Dict (List ℕ) ℕ → List (List ℕ) → Dict (List ℕ) ℕ
unfolding get put text_eq
tally counts [] = counts
tally counts (pat ∷ pats) = tally (put counts pat (or_zero (get counts pat) + 1)) pats

-- `counts` of `_psi_sq` and `cnt` of `phi`, at a positive `m`.
unfoldable pub pattern_counts : ℕ → List ℕ → Dict (List ℕ) ℕ
unfolding tally windows
pattern_counts m bits = tally [] (windows (length bits) m (bits ++ take (m - 1) bits))

-- The number of ones and zeros that the walk of `test_cumulative_sums` is away from its start at most.
abbrev pub magnitude : ℤ → ℕ
magnitude z = pos_part z + neg_part z

unfoldable pub max_walk : ℤ → ℕ → List ℕ → ℕ
max_walk cs maxcs [] = maxcs
max_walk cs maxcs (b ∷ bits) =
    let cs' = cs +ℤ signed b in max_walk cs' (max maxcs (magnitude cs')) bits
