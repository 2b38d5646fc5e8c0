-- ===== src/C8asm/Places.antt =====
-- The labels that modules/cpu8/asm/c8asm.py's `_first_pass` finds.
use risc_v_so_c.Base.{
  ℕ, zero, suc, ◌≡◌, ◌≢◌, refl, sym, ◌∙◌, ap, inl, inr, Bool-cases, true, false, Option, none, some,
  Option-cases, List, [], ◌∷◌, get_elem?,
}
use mathlib.Core.Path.{subst}
use risc_v_so_c.Base.Int.{ℤ, pos}
use risc_v_so_c.Base.Text.{Text, codes, text_eq, text_eq→eq}
use risc_v_so_c.Base.Options.{some-injective}
use risc_v_so_c.Base.Results.{ok, >>=-eq-ok, ok-injective}
use risc_v_so_c.Base.Dict.{get, put, contains, text_key, get-put_self, get-put_ne}
use risc_v_so_c.C8asm.Syntax.{Line}
use risc_v_so_c.C8asm.Passes.{Labels, define_label, place, first_pass_from, first_pass}

get→contains : (d : Labels) (k : Text) (a : ℤ) → get d k ≡ some a → contains d k ≡ true
unfolding get contains
get→contains [] k a h = cc
get→contains ((j, v) ∷ d) k a h = elim (Bool-cases (text_eq j k)) [
  | inl same ↦ rw same refl
  | inr differs ↦ rw differs (get→contains d k a (rw differs at h))
]

-- A name that is not there before is another one than those that are.
other_label :
    (d : Labels) (l k : Text) (a : ℤ)
    → contains d l ≡ false
    → get d k ≡ some a
    → text_eq l k ≡ false
other_label d l k a fresh h = elim (Bool-cases (text_eq l k)) [
  | inr other ↦ other
  | inl same ↦
      let there : contains d l ≡ true =
        subst (λ t. contains d t ≡ true) (sym (text_eq→eq l k same)) (get→contains d k a h) in
      absurd (cc (sym there ∙ fresh))
]

define_label-new :
    (c : ℕ) (cs : Text) (pc : ℤ) (n : ℕ) (d d' : Labels)
    → define_label (some (c ∷ cs)) pc n d ≡ ok d'
    → (contains d (c ∷ cs) ≡ false) × (d' ≡ put d (c ∷ cs) pc)
unfolding define_label
define_label-new c cs pc n d d' h = elim (Bool-cases (contains d (c ∷ cs))) [
  | inl twice ↦ absurd (cc (rw twice at h))
  | inr fresh ↦ (fresh, sym (ok-injective (rw fresh at h)))
]

define_label-keeps :
    (label : Option Text) (pc : ℤ) (n : ℕ) (d d' : Labels) (k : Text) (a : ℤ)
    → get d k ≡ some a
    → define_label label pc n d ≡ ok d'
    → get d' k ≡ some a
unfolding define_label
define_label-keeps none pc n d d' k a e h = subst (λ m. get m k ≡ some a) (ok-injective h) e
define_label-keeps (some []) pc n d d' k a e h = subst (λ m. get m k ≡ some a) (ok-injective h) e
define_label-keeps (some (c ∷ cs)) pc n d d' k a e h =
    let (fresh, now) = define_label-new c cs pc n d d' h in
    subst (λ m. get m k ≡ some a) (sym now)
      (get-put_ne d (c ∷ cs) k pc (other_label d (c ∷ cs) k a fresh e) ∙ e)

first_pass_from-keeps :
    (lns : List Line) (pc : ℤ) (d : Labels) (k : Text) (a : ℤ) {placed : List Line} {final : Labels}
    → get d k ≡ some a
    → first_pass_from pc d lns ≡ ok (placed, final)
    → get final k ≡ some a
unfolding first_pass_from
first_pass_from-keeps [] pc d k a e h =
    subst (λ (r : List Line × Labels). get r.1 k ≡ some a) (ok-injective h) e
first_pass_from-keeps (ln ∷ lns) pc d k a e h =
    let (d', defined, h₁) = >>=-eq-ok (define_label ln.label pc ln.line_no d) _ h in
    let ((addr, pc'), _, h₂) = >>=-eq-ok (place ln pc) _ h₁ in
    let ((rest, end), later, h₃) = >>=-eq-ok (first_pass_from pc' d' lns) _ h₂ in
    let kept =
      first_pass_from-keeps lns pc' d' k a
        (define_label-keeps ln.label pc ln.line_no d d' k a e defined) later in
    subst (λ (r : List Line × Labels). get r.1 k ≡ some a) (ok-injective h₃) kept

-- Only `.ORG` moves a line away from the program counter in front of it.
place-at :
    (ln : Line) (pc addr pc' : ℤ)
    → ln.mnem ≢ some (codes ".ORG")
    → place ln pc ≡ ok (addr, pc')
    → addr ≡ pc
unfolding place
place-at ln pc addr pc' ne h = elim (Option-cases ln.mnem) [
  | inl bare ↦ sym (ap (λ (r : ℤ × ℤ). r.0) (ok-injective (rw (place, bare) at h)))
  | inr (m, e) ↦ elim (Bool-cases (text_eq m (codes ".ORG"))) [
    | inl org ↦ absurd (ne (e ∙ ap some (text_eq→eq m (codes ".ORG") org)))
    | inr other ↦ sym (ap (λ (r : ℤ × ℤ). r.0) (ok-injective (rw (place, e, other) at h)))
  ]
]

first_line :
    (l : Line) (lns rest : List Line) (pc addr pc' : ℤ) (d d' end : Labels) (c : ℕ) (cs : Text)
    → define_label l.label pc l.line_no d ≡ ok d'
    → place l pc ≡ ok (addr, pc')
    → first_pass_from pc' d' lns ≡ ok (rest, end)
    → l.label ≡ some (c ∷ cs)
    → l.mnem ≢ some (codes ".ORG")
    → get end (c ∷ cs) ≡ some addr
first_line l lns rest pc addr pc' d d' end c cs defined moved later named ne =
    let (_, now) =
      define_label-new c cs pc l.line_no d d'
        (subst (λ o. define_label o pc l.line_no d ≡ ok d') named defined) in
    let there : get d' (c ∷ cs) ≡ some pc =
      subst (λ m. get m (c ∷ cs) ≡ some pc) (sym now) (get-put_self d (c ∷ cs) pc) in
    first_pass_from-keeps lns pc' d' (c ∷ cs) pc there later
    ∙ ap some (sym (place-at l pc addr pc' ne moved))

-- The parts of a first pass over a line and the lines behind it.
record Placed (l : Line) (lns : List Line) (pc : ℤ) (d : Labels) (placed : List Line)
    (final : Labels) : Type 0 where
  addr : ℤ
  next : ℤ
  found : Labels
  rest : List Line
  defined : define_label l.label pc l.line_no d ≡ ok found
  moved : place l pc ≡ ok (addr, next)
  later : first_pass_from next found lns ≡ ok (rest, final)
  split : record l { addr = addr } ∷ rest ≡ placed

first_pass_from-Placed :
    (l : Line) (lns : List Line) (pc : ℤ) (d : Labels) (placed : List Line) (final : Labels)
    → first_pass_from pc d (l ∷ lns) ≡ ok (placed, final)
    → Placed l lns pc d placed final
unfolding first_pass_from
first_pass_from-Placed l lns pc d placed final h =
    let (d', defined, h₁) = >>=-eq-ok (define_label l.label pc l.line_no d) _ h in
    let ((addr, pc'), moved, h₂) = >>=-eq-ok (place l pc) _ h₁ in
    let ((rest, end), later, h₃) = >>=-eq-ok (first_pass_from pc' d' lns) _ h₂ in
    let same : end ≡ final = ap (λ (r : List Line × Labels). r.1) (ok-injective h₃) in
    record {
      addr = addr;
      next = pc';
      found = d';
      rest = rest;
      defined = defined;
      moved = moved;
      later = subst (λ e. first_pass_from pc' d' lns ≡ ok (rest, e)) same later;
      split = ap (λ (r : List Line × Labels). r.0) (ok-injective h₃);
    }

first_pass_from-label :
    (i : ℕ) (lns : List Line) (pc : ℤ) (d : Labels) (ln : Line) (c : ℕ) (cs : Text)
    (placed : List Line) (final : Labels)
    → first_pass_from pc d lns ≡ ok (placed, final)
    → get_elem? placed i ≡ some ln
    → ln.label ≡ some (c ∷ cs)
    → ln.mnem ≢ some (codes ".ORG")
    → get final (c ∷ cs) ≡ some ln.addr
unfolding first_pass_from
first_pass_from-label i [] pc d ln c cs placed final h at named ne =
    let e : [] ≡ placed = ap (λ (r : List Line × Labels). r.0) (ok-injective h) in
    absurd (cc (subst (λ l. get_elem? l i ≡ some ln) (sym e) at))
first_pass_from-label zero (l ∷ lns) pc d ln c cs placed final h at named ne =
    let p = first_pass_from-Placed l lns pc d placed final h in
    let same : record l { addr = p.addr } ≡ ln =
      some-injective (subst (λ k. get_elem? k 0 ≡ some ln) (sym p.split) at) in
    first_line l lns p.rest pc p.addr p.next d p.found final c cs p.defined p.moved p.later
      (ap (λ (k : Line). k.label) same ∙ named) (λ q. ne (ap (λ (k : Line). k.mnem) (sym same) ∙ q))
    ∙ ap (λ (k : Line). some k.addr) same
first_pass_from-label (suc i) (l ∷ lns) pc d ln c cs placed final h at named ne =
    let p = first_pass_from-Placed l lns pc d placed final h in
    first_pass_from-label i lns p.next p.found ln c cs p.rest final p.later
      (subst (λ k. get_elem? k (suc i) ≡ some ln) (sym p.split) at) named ne

-- A label of a line that `_first_pass` has placed, other than `.ORG`, stands for the address of the line,
-- whatever lines follow.
pub first_pass-label :
    (lns placed : List Line) (labels : Labels) (i : ℕ) (ln : Line) (c : ℕ) (cs : Text)
    → first_pass lns ≡ ok (placed, labels)
    → get_elem? placed i ≡ some ln
    → ln.label ≡ some (c ∷ cs)
    → ln.mnem ≢ some (codes ".ORG")
    → get labels (c ∷ cs) ≡ some ln.addr
unfolding first_pass
first_pass-label lns placed labels i ln c cs h at named ne =
    first_pass_from-label i lns (pos 0) [] ln c cs placed labels h at named ne
