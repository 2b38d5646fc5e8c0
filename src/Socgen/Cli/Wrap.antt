-- ===== src/Socgen/Cli/Wrap.antt =====
-- socgen/cli.py: `_wrap`, with `str.split` on ASCII text. It keeps the words, in order, and its lines
-- keep to the width unless a word alone is longer.
use risc_v_so_c.Base.{
  ℕ, ◌+◌, ◌≤◌, ◌≡◌, ◌≢◌, ◌⊎◌, inl, inr, refl, ◌∙◌, ap, sym, arith, Bool, Bool-cases, true, false,
  ◌&&◌, ltb, List, [], ◌∷◌, ◌++◌, length, All, All-append, length-append,
}
use mathlib.Core.List.{append-nil, append_assoc}
use risc_v_so_c.Base.Text.{Text, is_space, join}

-- `text.split()`: `word` is the word so far.
unfoldable pub split_from : Text → Text → List Text
split_from [] [] = []
split_from (w ∷ ws) [] = (w ∷ ws) ∷ []
split_from word (c ∷ cs) = elim (is_space c) [
  | false ↦ split_from (word ++ c ∷ []) cs
  | true ↦ elim word [ [] ↦ split_from [] cs | w ∷ ws ↦ (w ∷ ws) ∷ split_from [] cs ]
]

abbrev pub split : Text → List Text
split text = split_from [] text

-- `sum(len(w) + 1 for w in line)`.
unfoldable pub taken : List Text → ℕ
taken [] = 0
taken (w ∷ ws) = length w + 1 + taken ws

abbrev pub is_full : List Text → Bool
is_full [] = false
is_full (w ∷ ws) = true

-- The loop, with the line so far; the lines are those that it appends.
unfoldable pub wrap_words : ℕ → List Text → List Text → List Text
unfolding taken join
wrap_words width [] [] = []
wrap_words width (l ∷ ls) [] = join (32 ∷ []) (l ∷ ls) ∷ []
wrap_words width line (word ∷ words) = elim (ltb width (taken line + length word) && is_full line) [
  | true ↦ join (32 ∷ []) line ∷ wrap_words width (word ∷ []) words
  | false ↦ wrap_words width (line ++ word ∷ []) words
]

-- `_wrap`.
unfoldable pub wrap : Text → ℕ → List Text
unfolding split_from wrap_words
wrap text width = wrap_words width [] (split text)

-- Words have no spaces and are not empty.
abbrev pub IsWord : Text → Type 0
IsWord w = (w ≢ []) × All (λ c. is_space c ≡ false) w

abbrev pub spaced : List Text → Text
spaced = join (32 ∷ [])

split_from-IsWord :
    (word text : Text) → All (λ c. is_space c ≡ false) word → All IsWord (split_from word text)
unfolding split_from
split_from-IsWord [] [] h = tt
split_from-IsWord (w ∷ ws) [] h = (((λ e. cc e), h), tt)
split_from-IsWord [] (c ∷ cs) h = elim (Bool-cases (is_space c)) [
  | inl space ↦ rw (space, All, split_from) (split_from-IsWord [] cs tt)
  | inr letter ↦ rw (letter, All, split_from) (split_from-IsWord (c ∷ []) cs (letter, tt))
]
split_from-IsWord (w ∷ ws) (c ∷ cs) h = elim (Bool-cases (is_space c)) [
  | inl space ↦ rw (space, All, split_from) (((λ e. cc e), h), split_from-IsWord [] cs tt)
  | inr letter ↦
      rw (letter, All, split_from)
        (split_from-IsWord (w ∷ ws ++ c ∷ []) cs (All-append _ (w ∷ ws) (c ∷ []) h (letter, tt)))
]

-- The letters of a word join the word so far.
split_from-letters :
    (word letters rest : Text)
    → All (λ c. is_space c ≡ false) letters
    → split_from word (letters ++ rest) ≡ split_from (word ++ letters) rest
unfolding split_from
split_from-letters word [] rest h = rw (append-nil word) refl
split_from-letters word (c ∷ cs) rest (letter, h) =
    rw (letter, split_from)
      (split_from-letters (word ++ c ∷ []) cs rest h
        ∙ ap (λ w. split_from w rest) (append_assoc word (c ∷ []) cs))

split-word : (w rest : Text) → IsWord w → split (w ++ 32 ∷ rest) ≡ w ∷ split rest
split-word [] rest (h, _) = absurd (h refl)
split-word (c ∷ cs) rest (_, h) =
    split_from-letters [] (c ∷ cs) (32 ∷ rest) h ∙ (unfold split_from in refl)

split-last : (w : Text) → IsWord w → split w ≡ w ∷ []
split-last [] (h, _) = absurd (h refl)
split-last (c ∷ cs) (_, h) =
    ap split (sym (append-nil (c ∷ cs)))
    ∙ (split_from-letters [] (c ∷ cs) [] h ∙ (unfold split_from in refl))

split-spaced :
    (line : List Text) (rest : Text)
    → All IsWord line
    → line ≢ []
    → split (spaced line ++ 32 ∷ rest) ≡ line ++ split rest
unfolding join
split-spaced [] rest h full = absurd (full refl)
split-spaced (w ∷ []) rest (p, h) full = split-word w rest p
split-spaced (w ∷ v ∷ vs) rest (p, h) full =
    rw (append_assoc w (32 ∷ spaced (v ∷ vs)) (32 ∷ rest)) (
      split-word w (spaced (v ∷ vs) ++ 32 ∷ rest) p
      ∙ ap (λ ws. w ∷ ws) (split-spaced (v ∷ vs) rest h (λ e. cc e)))

split-spaced_all : (line : List Text) → All IsWord line → split (spaced line) ≡ line
unfolding join
split-spaced_all [] h = unfold split_from in refl
split-spaced_all (w ∷ []) (p, h) = split-last w p
split-spaced_all (w ∷ v ∷ vs) (p, h) =
    split-word w (spaced (v ∷ vs)) p ∙ ap (λ ws. w ∷ ws) (split-spaced_all (v ∷ vs) h)

-- The first line's words come first.
split-lines :
    (line lines : List Text)
    → All IsWord line
    → line ≢ []
    → split (spaced (spaced line ∷ lines)) ≡ line ++ split (spaced lines)
unfolding join split_from
split-lines line [] h full = split-spaced_all line h ∙ sym (append-nil line)
split-lines line (l ∷ ls) h full = split-spaced line (spaced (l ∷ ls)) h full

-- A line that fits, or a word by itself.
abbrev pub Fits : ℕ → Text → Type 0
Fits width l = (length l ≤ width) ⊎ IsWord l

length-spaced :
    (line : List Text) (word : Text)
    → length (spaced (line ++ word ∷ [])) ≡ taken line + length word
unfolding join taken
length-spaced [] word = omega arith
length-spaced (w ∷ []) word = omega (arith, length-append w (32 ∷ word))
length-spaced (w ∷ v ∷ vs) word =
    omega
      (arith, length-append w (32 ∷ spaced ((v ∷ vs) ++ word ∷ [])), length-spaced (v ∷ vs) word)

full : (b : Bool) (line : List Text) → (b && is_full line) ≡ true → line ≢ []
full true [] h e = cc h
full false [] h e = cc h
full b (l ∷ ls) h e = cc e

-- A word that joins a line leaves it within the width, or is alone.
joined :
    (width : ℕ) (line : List Text) (word : Text)
    → IsWord word
    → (ltb width (taken line + length word) && is_full line) ≡ false
    → Fits width (spaced (line ++ word ∷ []))
joined width [] word p h = unfold join in inr p
joined width (l ∷ ls) word p h = inl (omega (arith, length-spaced (l ∷ ls) word, fitting))
  where
    fitting : taken (l ∷ ls) + length word ≤ width
    fitting = ground (arith, h)

wrap_words-words :
    (width : ℕ) (line words : List Text)
    → All IsWord line
    → All IsWord words
    → split (spaced (wrap_words width line words)) ≡ line ++ words
unfolding wrap_words
wrap_words-words width [] [] h k = unfold join split_from in refl
wrap_words-words width (l ∷ ls) [] h k =
    split-lines (l ∷ ls) [] h (λ e. cc e) ∙ unfold join split_from in refl
wrap_words-words width line (word ∷ words) h (p, k) =
    elim (Bool-cases (ltb width (taken line + length word) && is_full line)) [
      | inl over ↦
          rw (over, wrap_words)
            (split-lines line (wrap_words width (word ∷ []) words) h (full _ line over)
              ∙ ap (λ ws. line ++ ws) (wrap_words-words width (word ∷ []) words (p, tt) k))
      | inr fits ↦
          rw (fits, wrap_words)
            (wrap_words-words width (line ++ word ∷ []) words
                (All-append IsWord line (word ∷ []) h (p, tt)) k
              ∙ append_assoc line (word ∷ []) words)
    ]

wrap_words-Fits :
    (width : ℕ) (line words : List Text)
    → Fits width (spaced line)
    → All IsWord words
    → All (Fits width) (wrap_words width line words)
unfolding wrap_words
wrap_words-Fits width [] [] h k = tt
wrap_words-Fits width (l ∷ ls) [] h k = (h, tt)
wrap_words-Fits width line (word ∷ words) h (p, k) =
    elim (Bool-cases (ltb width (taken line + length word) && is_full line)) [
      | inl over ↦
          rw (over, wrap_words, All)
            (h, wrap_words-Fits width (word ∷ []) words (unfold join in inr p) k)
      | inr fits ↦
          rw (fits, wrap_words, All)
            (wrap_words-Fits width (line ++ word ∷ []) words (joined width line word p fits) k)
    ]

-- The words of the lines that `_wrap` makes of a text are the words of the text, in order, and each
-- line has at most `width` characters or is a single word.
pub wrap-words :
    (text : Text) (width : ℕ)
    → (split (spaced (wrap text width)) ≡ split text) × All (Fits width) (wrap text width)
unfolding wrap
wrap-words text width =
    let words = split_from-IsWord [] text tt in
    (
      wrap_words-words width [] (split text) tt words,
      wrap_words-Fits width [] (split text) (unfold join in inl (omega arith)) words,
    )
