-- ===== src/Base/Text.antt =====
-- Python strings as lists of ASCII codes.
use Prim.Native.Char.{code}
use Prim.Native.String.{String}
use risc_v_so_c.Base.{
  ℕ, ◌-◌, Bool, true, false, leb, ◌==◌, ◌&&◌, ◌||◌, if◌then◌else◌, ◌≡◌, refl, List, [], ◌∷◌, ◌++◌,
  map, arith,
}

abbrev pub Text : Type 0
Text = List ℕ

abbrev pub codes : String → Text
codes String.[] = []
codes (String.◌∷◌ c s) = code c ∷ codes s

-- `a == b`.
unfoldable pub text_eq : Text → Text → Bool
text_eq [] [] = true
text_eq (x ∷ xs) (y ∷ ys) = x == y && text_eq xs ys
text_eq _ _ = false

pub text_eq→eq : (a b : Text) → text_eq a b ≡ true → a ≡ b
unfolding text_eq
text_eq→eq [] [] h = refl
text_eq→eq [] (y ∷ ys) h = cc
text_eq→eq (x ∷ xs) [] h = cc
text_eq→eq (x ∷ xs) (y ∷ ys) h = ground (arith, text_eq→eq xs ys)

pub text_eq_self : (a : Text) → text_eq a a ≡ true
unfolding text_eq
text_eq_self [] = refl
text_eq_self (x ∷ xs) = ground (arith, text_eq_self xs)

-- `str.isspace` of an ASCII character: what `strip` removes and `\s` matches.
abbrev pub is_space : ℕ → Bool
is_space c = leb 9 c && leb c 13 || leb 28 c && leb c 32

unfoldable pub lstrip : Text → Text
lstrip [] = []
lstrip (c ∷ cs) = if is_space c then lstrip cs else c ∷ cs

unfoldable pub rstrip : Text → Text
rstrip [] = []
rstrip (c ∷ cs) = elim (rstrip cs) [ [] ↦ if is_space c then [] else c ∷ [] | d ∷ ds ↦ c ∷ d ∷ ds ]

unfoldable pub strip : Text → Text
unfolding lstrip rstrip
strip t = rstrip (lstrip t)

-- `str.upper` of ASCII text.
abbrev pub upper_char : ℕ → ℕ
upper_char c = if leb b'a' c && leb c b'z' then c - 32 else c

unfoldable pub upper : Text → Text
upper t = map upper_char t

-- `c in t`, `t.split(c, 1)[0]` and `t.split(c, 1)[1]`.
unfoldable pub has_char : ℕ → Text → Bool
has_char c [] = false
has_char c (d ∷ ds) = if d == c then true else has_char c ds

unfoldable pub before : ℕ → Text → Text
before c [] = []
before c (d ∷ ds) = if d == c then [] else d ∷ before c ds

unfoldable pub after : ℕ → Text → Text
after c [] = []
after c (d ∷ ds) = if d == c then ds else after c ds

-- `separator.join(parts)`.
unfoldable pub join : Text → List Text → Text
join separator [] = []
join separator (part ∷ []) = part
join separator (part ∷ next ∷ parts) = part ++ (separator ++ join separator (next ∷ parts))

unfoldable pub join_lines : List Text → Text
unfolding join
join_lines = join (10 ∷ [])
