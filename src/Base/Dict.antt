-- ===== src/Base/Dict.antt =====
-- Python dictionaries as association lists in insertion order, over a decidable test of keys.
use risc_v_so_c.Base.{
  ◌≡◌, Bool, true, false, if◌then◌else◌, Option, none, some, List, [], ◌∷◌, arith, inl, inr,
  Bool-cases, All,
}
use mathlib.Core.Path.{subst}
use risc_v_so_c.Base.Int.{ℤ, eqb_ℤ}
use risc_v_so_c.Base.Options.{some-injective}
use risc_v_so_c.Base.Text.{Text, text_eq, text_eq→eq, text_eq_self}

pub record Eq {ℓ} (K : Type ℓ) : Type ℓ where
  pub beq : K → K → Bool
  pub beq→eq : (a b : K) → beq a b ≡ true → a ≡ b
  pub beq_self : (a : K) → beq a a ≡ true

pub eqb_ℤ→eq : (a b : ℤ) → eqb_ℤ a b ≡ true → a ≡ b
eqb_ℤ→eq a b h = ground arith

pub eqb_ℤ_self : (a : ℤ) → eqb_ℤ a a ≡ true
eqb_ℤ_self a = ground arith

instance abbrev pub int_eq : Eq ℤ
int_eq = record { beq = eqb_ℤ; beq→eq = eqb_ℤ→eq; beq_self = eqb_ℤ_self }

instance abbrev pub text_key : Eq Text
text_key = record { beq = text_eq; beq→eq = text_eq→eq; beq_self = text_eq_self }

abbrev pub Dict : Type 0 → Type 0 → Type 0
Dict K V = List (K × V)

module _ {K V : Type 0} ⦃e : Eq K⦄ where
  -- `d.get(k)`.
  unfoldable pub get : Dict K V → K → Option V
  get [] k = none
  get ((j, v) ∷ d) k = if e.beq j k then some v else get d k

  -- `d[k] = v`: a key that is there keeps its place.
  unfoldable pub put : Dict K V → K → V → Dict K V
  put [] k v = (k, v) ∷ []
  put ((j, w) ∷ d) k v = if e.beq j k then (j, v) ∷ d else (j, w) ∷ put d k v

  unfoldable pub contains : Dict K V → K → Bool
  contains [] k = false
  contains ((j, v) ∷ d) k = if e.beq j k then true else contains d k

  pub get-put_self : (d : Dict K V) (k : K) (v : V) → get (put d k v) k ≡ some v
  unfolding get put
  get-put_self [] k v = ground (arith, e.beq_self k)
  get-put_self ((j, w) ∷ d) k v = ground (arith, e.beq_self k, get-put_self d k v)

  pub get-put_ne :
      (d : Dict K V) (k j : K) (v : V) → e.beq k j ≡ false → get (put d k v) j ≡ get d j
  unfolding get put
  get-put_ne [] k j v h = ground arith
  get-put_ne ((i, w) ∷ d) k j v h = ground (arith, e.beq→eq i k, get-put_ne d k j v h)

  pub contains→get : (d : Dict K V) (k : K) → contains d k ≡ true → (v : V) × (get d k ≡ some v)
  unfolding contains get
  contains→get [] k h = cc
  contains→get ((j, v) ∷ d) k h = elim (Bool-cases (e.beq j k)) [
    | inl same ↦ (v, rw same)
    | inr differs ↦ rw differs (contains→get d k (rw differs at h))
  ]

  -- A value that `get` finds has what all the values have.
  pub get-All {κ} :
      (P : V → Type κ) (d : Dict K V) (k : K) (v : V)
      → All (λ (entry : K × V). P entry.1) d
      → get d k ≡ some v
      → P v
  unfolding get
  get-All P [] k v all h = cc
  get-All P ((j, w) ∷ d) k v (p, ps) h = elim (Bool-cases (e.beq j k)) [
    | inl same ↦ subst P (some-injective (rw same at h)) p
    | inr differs ↦ get-All P d k v ps (rw differs at h)
  ]

  -- What all the values have, they have after a `put` of one that has it.
  pub put-All {κ} :
      (P : V → Type κ) (d : Dict K V) (k : K) (v : V)
      → All (λ (entry : K × V). P entry.1) d
      → P v
      → All (λ (entry : K × V). P entry.1) (put d k v)
  unfolding put
  put-All P [] k v all p = (p, tt)
  put-All P ((j, w) ∷ d) k v (q, qs) p = elim (Bool-cases (e.beq j k)) [
    | inl same ↦ rw same (p, qs)
    | inr differs ↦ rw differs (q, put-All P d k v qs p)
  ]
