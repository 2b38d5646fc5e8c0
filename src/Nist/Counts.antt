-- ===== src/Nist/Counts.antt =====
-- modules/trng/tools/nist_sts.py: what the tests count adds up.
use risc_v_so_c.Base.{
  ℕ, zero, suc, ◌+◌, ◌≤◌, ◌<◌, ◌≡◌, ◌⊎◌, refl, ◌∙◌, ap, arith, Bool-cases, inl, inr, if◌then◌else◌,
  ltb, some, List, [], ◌∷◌, ◌++◌, length, max, min, take, drop, ◌-◌, get_elem?, set, replicate,
  length-set, length-replicate, get_elem?-All, All-any,
}
use risc_v_so_c.Base.Options.{some-injective}
use risc_v_so_c.Base.Text.{text_eq, text_eq→eq}
use risc_v_so_c.Base.Dict.{Dict, get, put, text_key, get-put_self, get-put_ne}
use risc_v_so_c.Nist.{
  sum, RunTable, run_table, run_class, index_from, count_class, run_freqs, blocks,
  longest_run_freqs, tally, windows, pattern_counts, or_zero, last_of, longest_run,
}

index_from-lt :
    (i v : ℕ) (ws : List ℕ) → (index_from i v ws ≡ 0) ⊎ (index_from i v ws < i + length ws)
unfolding index_from
index_from-lt i v [] = inl refl
index_from-lt i v (w ∷ ws) = ground (arith, index_from-lt (i + 1) v ws)

sum-set : (xs : List ℕ) (i x : ℕ) → get_elem? xs i ≡ some x → sum (set xs i (x + 1)) ≡ sum xs + 1
sum-set [] i x h = cc h
sum-set (y ∷ xs) zero x h = let same : y ≡ x = some-injective h in omega (arith, same)
sum-set (y ∷ xs) (suc i) x h = omega (arith, sum-set xs i x h)

sum-replicate : (n : ℕ) → sum (replicate n 0) ≡ 0
sum-replicate zero = refl
sum-replicate (suc n) = omega (arith, sum-replicate n)

pub length-blocks : (count M : ℕ) (bits : List ℕ) → length (blocks count M bits) ≡ count
unfolding blocks
length-blocks zero M bits = refl
length-blocks (suc count) M bits = ap suc (length-blocks count M _)

run_class-lt : (t : RunTable) (block : List ℕ) → run_class t block ≤ length t.rest
unfolding run_class
run_class-lt t block =
    let clamped = max t.first (min (last_of t.first t.rest) (longest_run 0 0 block)) in
    ground (arith, index_from-lt 0 clamped (t.first ∷ t.rest))

run_freqs-sum :
    (t : RunTable) (freqs : List ℕ) (bs : List (List ℕ))
    → length t.rest < length freqs
    → (fs : List ℕ) × (run_freqs t freqs bs ≡ some fs) × (sum fs ≡ sum freqs + length bs)
unfolding run_freqs count_class
run_freqs-sum t freqs [] h = (freqs, refl, omega arith)
run_freqs-sum t freqs (b ∷ bs) h =
    let idx = run_class t b in
    let (f, read, _) =
      get_elem?-All (λ _. Unit {0}) freqs idx (All-any freqs) (omega (arith, run_class-lt t b)) in
    let (fs, ends, total) =
      run_freqs-sum t (set freqs idx (f + 1)) bs (omega (arith, length-set freqs idx (f + 1))) in
    (fs, rw read ends, omega (arith, total, sum-set freqs idx f read))

run_table-probabilities :
    (n : ℕ) → length (run_table n).probabilities ≡ suc (length (run_table n).rest)
run_table-probabilities n = elim (Bool-cases (ltb n 6272)) [
  | inl few ↦ rw few refl
  | inr more ↦ elim (Bool-cases (ltb n 750000)) [
    | inl middle ↦ rw (more, middle) refl
    | inr many ↦ rw (more, many) refl
  ]
]

-- `test_longest_run` raises no IndexError while it counts, and counts each of its blocks once.
pub longest_run_freqs-sum :
    (bits : List ℕ)
    → (fs : List ℕ) × (longest_run_freqs bits ≡ some fs)
      × (sum fs ≡ (run_table (length bits)).count)
unfolding longest_run_freqs
longest_run_freqs-sum bits =
    let t = run_table (length bits) in
    let size = length t.probabilities + 1 in
    let (fs, ends, total) =
      run_freqs-sum t (replicate size 0) (blocks t.count t.size bits)
        (omega (arith, length-replicate {A = ℕ} size 0, run_table-probabilities (length bits))) in
    (fs, ends, omega (arith, total, sum-replicate size, length-blocks t.count t.size bits))

-- The number of times that a pattern stands in a list.
unfoldable pub occurrences : List ℕ → List (List ℕ) → ℕ
unfolding text_eq
occurrences pat [] = 0
occurrences pat (q ∷ qs) = (if text_eq q pat then 1 else 0) + occurrences pat qs

abbrev pub count_of : Dict (List ℕ) ℕ → List ℕ → ℕ
count_of counts pat = or_zero (get counts pat)

count_of-put :
    (counts : Dict (List ℕ) ℕ) (q pat : List ℕ)
    → count_of (put counts q (count_of counts q + 1)) pat
      ≡ count_of counts pat + (if text_eq q pat then 1 else 0)
count_of-put counts q pat = elim (Bool-cases (text_eq q pat)) [
  | inl same ↦
      let equal = text_eq→eq q pat same in
      let found = ap or_zero (get-put_self counts q (count_of counts q + 1)) in
      rw (same, ← equal) found
  | inr differs ↦
      let kept = ap or_zero (get-put_ne counts q pat (count_of counts q + 1) differs) in
      rw differs (omega (arith, kept))
]

tally-occurrences :
    (counts : Dict (List ℕ) ℕ) (pats : List (List ℕ)) (pat : List ℕ)
    → count_of (tally counts pats) pat ≡ count_of counts pat + occurrences pat pats
unfolding tally occurrences
tally-occurrences counts [] pat = omega arith
tally-occurrences counts (q ∷ qs) pat = omega (
  arith,
  tally-occurrences (put counts q (count_of counts q + 1)) qs pat,
  count_of-put counts q pat,
)

drop_one : (i : ℕ) (l : List ℕ) → drop i (drop 1 l) ≡ drop (suc i) l
drop_one zero [] = refl
drop_one (suc i) [] = refl
drop_one i (x ∷ l) = refl

count_of-nil : (pat : List ℕ) → count_of [] pat ≡ 0
unfolding get
count_of-nil pat = refl

windows-snoc :
    (n m : ℕ) (ext : List ℕ) → windows (suc n) m ext ≡ windows n m ext ++ take m (drop n ext) ∷ []
unfolding windows
windows-snoc zero m ext = refl
windows-snoc (suc n) m ext =
    ap (λ l. take m ext ∷ l) (windows-snoc n m (drop 1 ext))
    ∙ ap (λ l. take m ext ∷ windows n m (drop 1 ext) ++ take m l ∷ []) (drop_one n ext)

occurrences-snoc :
    (pat q : List ℕ) (qs : List (List ℕ))
    → occurrences pat (qs ++ q ∷ []) ≡ occurrences pat qs + (if text_eq q pat then 1 else 0)
unfolding occurrences
occurrences-snoc pat q [] = omega arith
occurrences-snoc pat q (r ∷ qs) = omega (arith, occurrences-snoc pat q qs)

-- The number of positions below `n` where a pattern of `m` bits stands.
unfoldable pub positions : List ℕ → ℕ → List ℕ → ℕ → ℕ
unfolding text_eq
positions pat m bits zero = 0
positions pat m bits (suc n) =
    positions pat m bits n + (if text_eq (take m (drop n bits)) pat then 1 else 0)

occurrences-windows :
    (pat : List ℕ) (m : ℕ) (ext : List ℕ) (n : ℕ)
    → occurrences pat (windows n m ext) ≡ positions pat m ext n
unfolding positions
occurrences-windows pat m ext zero = unfold windows occurrences in refl
occurrences-windows pat m ext (suc n) =
    ap (occurrences pat) (windows-snoc n m ext)
    ∙ (occurrences-snoc pat (take m (drop n ext)) (windows n m ext)
        ∙ ap (λ k. k + (if text_eq (take m (drop n ext)) pat then 1 else 0))
            (occurrences-windows pat m ext n))

-- `_psi_sq` and `phi` count, for every pattern, at how many of the positions of the bits it stands,
-- where the bits go on with their first ones.
pub pattern_counts-positions :
    (m : ℕ) (bits pat : List ℕ)
    → count_of (pattern_counts m bits) pat
      ≡ positions pat m (bits ++ take (m - 1) bits) (length bits)
unfolding pattern_counts
pattern_counts-positions m bits pat =
    let ext = bits ++ take (m - 1) bits in
    omega (
      arith,
      tally-occurrences [] (windows (length bits) m ext) pat,
      occurrences-windows pat m ext (length bits),
      count_of-nil pat,
    )
