-- ===== src/Cpu8/Main/Hex.antt =====
-- A file of modules/cpu8/asm/c8asm.py's `to_hex` as modules/cpu8/sim/sim.py reads it.
use risc_v_so_c.Base.{
  ℕ, zero, suc, ◌+◌, ◌-◌, ◌/◌, ◌%◌, ◌≤◌, ◌<◌, ◌≡◌, ◌≢◌, ◌⊎◌, inl, inr, refl, sym, ◌∙◌, ap, arith,
  Bool, Bool-cases, true, false, ltb, ◌==◌, ◌&&◌, ◌||◌, some, List, [], ◌∷◌, ◌++◌, length,
  replicate, All, All-append, All-replicate, get_elem?,
}
use risc_v_so_c.Base.Int.{ℤ, pos}
use risc_v_so_c.Base.Text.{Text, is_space, lstrip, rstrip, strip}
use risc_v_so_c.Base.Options.{◌>>=◌}
use risc_v_so_c.Base.Dict.{Dict, get, int_eq}
use risc_v_so_c.Base.Hex.{hex_digit, hex_from, hex_padded}
use risc_v_so_c.C8asm.Operand.{digits_value}
use risc_v_so_c.C8asm.Hex.{hex_padded-digits_value, word_or, hex_lines, join_lines, to_hex}
use risc_v_so_c.Cpu8.Machine.{words_from, init}
use risc_v_so_c.Cpu8.Run.{length-words_from}
use risc_v_so_c.C8asm.Passes.{Labels, assemble}
use risc_v_so_c.Base.Results.{ok}
use risc_v_so_c.Cpu8.Main.{load_words, main, file_lines, hex_body, int_16, read_words}

-- A digit as `to_hex` prints it.
abbrev IsDigit : ℕ → Type 0
IsDigit c = ((b'0' ≤ c) × (c ≤ b'9')) ⊎ ((b'A' ≤ c) × (c ≤ b'F'))

hex_digit-IsDigit : (d : ℕ) → d < 16 → IsDigit (hex_digit b'A' d)
hex_digit-IsDigit d h = ground arith

hex_from-IsDigit : (fuel n : ℕ) → n ≤ fuel → All IsDigit (hex_from b'A' fuel n)
unfolding hex_from
hex_from-IsDigit zero n h = (hex_digit-IsDigit n (omega arith), tt)
hex_from-IsDigit (suc fuel) n h = elim (Bool-cases (ltb n 16)) [
  | inl small ↦ rw (small, hex_from) (hex_digit-IsDigit n (ground arith), tt)
  | inr large ↦
      rw (large, hex_from)
        (All-append IsDigit (hex_from b'A' fuel (n / 16)) _
          (hex_from-IsDigit fuel (n / 16) (ground arith))
          (hex_digit-IsDigit (n % 16) (omega arith), tt))
]

hex_padded-IsDigit : (width n : ℕ) → All IsDigit (hex_padded b'A' width n)
unfolding hex_padded
hex_padded-IsDigit width n =
    All-append IsDigit (replicate (width - length (hex_from b'A' n n)) b'0') _
      (All-replicate IsDigit _ b'0' (hex_digit-IsDigit 0 (omega arith)))
      (hex_from-IsDigit n n (omega arith))

plain :
    (c : ℕ)
    → IsDigit c
    → (is_space c ≡ false)
      × ((c == 10) ≡ false)
      × ((c == b'-') ≡ false)
      × ((c == b'+') ≡ false)
      × ((c == b'x') ≡ false)
      × ((c == b'X') ≡ false)
plain c h = ground arith

rstrip-digits : (t : Text) → All IsDigit t → rstrip t ≡ t
unfolding rstrip
rstrip-digits [] h = refl
rstrip-digits (c ∷ []) h = rw (plain c h.0).0 refl
rstrip-digits (c ∷ d ∷ t) (p, h) = rw (rstrip-digits (d ∷ t) h) refl

strip-digits : (t : Text) → All IsDigit t → strip t ≡ t
unfolding strip lstrip
strip-digits [] h = refl
strip-digits (c ∷ t) h = rw (plain c h.0).0 (rstrip-digits (c ∷ t) h)

file_lines-line :
    (line rest : Text) → All IsDigit line → file_lines (line ++ 10 ∷ rest) ≡ line ∷ file_lines rest
unfolding file_lines
file_lines-line [] rest h = refl
file_lines-line (c ∷ line) rest (p, h) =
    rw (file_lines, (plain c p).1, file_lines-line line rest h) refl

hex_body-digits :
    (t : Text) (n : ℕ)
    → All IsDigit t
    → digits_value 16 false 0 t ≡ some n
    → hex_body t ≡ some (pos n)
unfolding hex_body
hex_body-digits [] n h e = ap (λ o. o >>= λ n. some (pos n)) e
hex_body-digits (c ∷ []) n h e = ap (λ o. o >>= λ n. some (pos n)) e
hex_body-digits (c ∷ d ∷ t) n (p, (q, h)) e =
    let no_prefix : (c == b'0' && (d == b'x' || d == b'X')) ≡ false = ground (arith, plain d q) in
    rw no_prefix (ap (λ o. o >>= λ n. some (pos n)) e)

no_digits : (n : ℕ) → digits_value 16 false 0 [] ≢ some n
unfolding digits_value
no_digits n e = cc

int_16-digits :
    (t : Text) (n : ℕ)
    → All IsDigit t
    → digits_value 16 false 0 t ≡ some n
    → int_16 t ≡ some (pos n)
unfolding int_16
int_16-digits [] n h e = absurd (no_digits n e)
int_16-digits (c ∷ t) n h e = rw ((plain c h.0).2, (plain c h.0).3) (hex_body-digits (c ∷ t) n h e)

-- The dictionary of the words at `i` and behind it.
entries : ℕ → List ℕ → Dict ℤ ℕ
entries i [] = []
entries i (v ∷ vs) = (pos i, v) ∷ entries (i + 1) vs

read_words-line :
    (i n : ℕ) (line : Text) (lines : List Text)
    → All IsDigit line
    → digits_value 16 false 0 line ≡ some n
    → read_words i (line ∷ lines) ≡ (read_words (i + 1) lines >>= λ rest. some ((pos i, n) ∷ rest))
unfolding read_words
read_words-line i n [] lines h e = absurd (no_digits n e)
read_words-line i n (c ∷ t) lines h e =
    rw (read_words, strip-digits (c ∷ t) h, int_16-digits (c ∷ t) n h e) refl

read_words-hex_lines :
    (words : Dict ℤ ℕ) (i address n : ℕ)
    → read_words i (file_lines (join_lines (hex_lines words 0 address n)))
      ≡ some (entries i (words_from words address n))
unfolding hex_lines join_lines words_from entries
read_words-hex_lines words i address zero = unfold read_words file_lines in refl
read_words-hex_lines words i address (suc n) =
    let w = word_or words 0 address in
    let line = hex_padded b'A' 4 w in
    ap (read_words i) (file_lines-line line _ (hex_padded-IsDigit 4 w))
    ∙ read_words-line i w line _ (hex_padded-IsDigit 4 w) (hex_padded-digits_value 4 w)
    ∙ ap (λ o. o >>= λ rest. some ((pos i, w) ∷ rest))
        (read_words-hex_lines words (i + 1) (address + 1) n)

-- Reading the entries at consecutive addresses gives the words again.
get-entries : (vs : List ℕ) (i k : ℕ) → get (entries i vs) (pos (i + k)) ≡ get_elem? vs k
unfolding entries get
get-entries [] i k = refl
get-entries (v ∷ vs) i zero = let same : (i == i + 0) ≡ true = ground arith in rw same refl
get-entries (v ∷ vs) i (suc k) =
    let other : (i == i + suc k) ≡ false = ground arith in
    let there : i + suc k ≡ i + 1 + k = omega arith in
    rw other (rw there (get-entries vs (i + 1) k))

words_from-list :
    (d : Dict ℤ ℕ) (vs : List ℕ) (i n : ℕ)
    → length vs ≡ n
    → ((k : ℕ) → k < n → get d (pos (i + k)) ≡ get_elem? vs k)
    → words_from d i n ≡ vs
unfolding words_from
words_from-list d [] i zero e h = refl
words_from-list d [] i (suc n) e h = absurd (omega arith)
words_from-list d (v ∷ vs) i zero e h = absurd (omega arith)
words_from-list d (v ∷ vs) i (suc n) e h =
    let here : i + 0 ≡ i = omega arith in
    let first : get d (pos i) ≡ some v = ap (λ k. get d (pos k)) (sym here) ∙ h 0 (omega arith) in
    let rest = words_from-list d vs (i + 1) n (omega arith) λ k lt.
      let there : i + 1 + k ≡ i + suc k = omega arith in
      ap (λ k. get d (pos k)) there ∙ h (suc k) (omega arith) in
    rw (first, rest) refl

init-entries : (vs : List ℕ) → length vs ≡ 256 → (init (entries 0 vs)).imem ≡ vs
unfolding init entries
init-entries [] e = absurd (omega arith)
init-entries (v ∷ vs) e =
    words_from-list (entries 0 (v ∷ vs)) (v ∷ vs) 0 256 e
      λ k _. let at : 0 + k ≡ k = omega arith in get-entries (v ∷ vs) 0 k

words_from-none : (i n : ℕ) → words_from [] i n ≡ replicate n 0
unfolding words_from get
words_from-none i zero = refl
words_from-none i (suc n) = ap (λ l. 0 ∷ l) (words_from-none (i + 1) n)

pub init-imem : (words : Dict ℤ ℕ) → (init words).imem ≡ words_from words 0 256
unfolding init
init-imem [] = sym (words_from-none 0 256)
init-imem (w ∷ ws) = refl

-- A simulator for the entries of the words is that for the words.
init-same : (words : Dict ℤ ℕ) → init (entries 0 (words_from words 0 256)) ≡ init words
unfolding init
init-same words =
    ap (λ imem. record (init words) { imem = imem })
      (init-entries (words_from words 0 256) (length-words_from words 0 256)
        ∙ sym (init-imem words))

-- A source that the assembler takes runs as the file that the assembler writes for it: `main` prints the
-- same for either.
pub main-to_hex :
    (src : Text) (words : Dict ℤ ℕ) (labels : Labels) (cycles : ℕ) (traces dumps : Bool)
    → assemble src ≡ ok (words, labels)
    → main true (to_hex words 0) cycles traces dumps ≡ main false src cycles traces dumps
unfolding main load_words to_hex
main-to_hex src words labels cycles traces dumps e =
    rw (e, load_words, main, read_words-hex_lines words 0 0 256, init-same words) refl
