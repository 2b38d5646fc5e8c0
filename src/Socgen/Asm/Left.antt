-- ===== src/Socgen/Asm/Left.antt =====
-- socgen/asm.py: the object that `assemble` leaves, when it returns and when it raises.
use risc_v_so_c.Base.{ℕ, ◌≡◌, ◌⊎◌, inl, inr, refl, ap, none, some, Option-cases, List, [], ◌∷◌}
use risc_v_so_c.Base.Int.{pos, ◌-ℤ◌}
use risc_v_so_c.Base.Text.{Text}
use risc_v_so_c.Base.Dict.{Dict, get, text_key}
use risc_v_so_c.Base.Results.{Result, ok, err}
use risc_v_so_c.Socgen.Asm.{AsmError, Kind, Register, Entry, word, branch, Assembler, b_type}
use risc_v_so_c.Socgen.Asm.Output.{
  branch_funct, resolve_entry, resolve_entries, assemble, left_entries, after_assemble,
}

-- Either the words are as they were, or there are none and an exception was raised.
abbrev SavedOrNone : Dict Text ℕ → List Entry → List Entry → Type 0
SavedOrNone labels saved es =
    (left_entries labels saved es ≡ saved)
    ⊎ ((left_entries labels saved es ≡ []) × (e : AsmError) × (resolve_entries labels es ≡ err e))

Result-cases :
    {A : Type 0} (r : Result AsmError A) → ((e : AsmError) × (r ≡ err e)) ⊎ ((a : A) × (r ≡ ok a))
Result-cases (err e) = inl (e, refl)
Result-cases (ok a) = inr (a, refl)

word-SavedOrNone :
    (labels : Dict Text ℕ) (saved es : List Entry) (w : ℕ)
    → SavedOrNone labels saved es
    → SavedOrNone labels saved (word w ∷ es)
unfolding left_entries resolve_entries resolve_entry
word-SavedOrNone labels saved es w (inl same) = inl same
word-SavedOrNone labels saved es w (inr (none_left, e, raised)) = inr (none_left, e, rw raised refl)

module _ (labels : Dict Text ℕ) (saved es : List Entry) (kind : Kind) (rs1 rs2 : Register)
    (target : Text) (at_pc : ℕ) where
  -- The call of `_b` for a branch to `address`, on an empty list of words.
  abbrev emitted : ℕ → Result AsmError Assembler
  emitted address =
      b_type (pos address -ℤ pos at_pc) rs2 rs1 (branch_funct kind)
        (record { words = []; labels = labels })

  undefined-SavedOrNone :
      get labels target ≡ none → SavedOrNone labels saved (branch kind rs1 rs2 target at_pc ∷ es)
  unfolding left_entries
  undefined-SavedOrNone missing = inl (rw (missing, left_entries) refl)

  raising-SavedOrNone :
      (address : ℕ) (e : AsmError)
      → get labels target ≡ some address
      → emitted address ≡ err e
      → SavedOrNone labels saved (branch kind rs1 rs2 target at_pc ∷ es)
  unfolding left_entries resolve_entries resolve_entry
  raising-SavedOrNone address e found raised =
      inr (rw (found, left_entries, raised) refl, e, rw (found, resolve_entry, raised) refl)

  resolved-SavedOrNone :
      (address : ℕ) (a : Assembler)
      → get labels target ≡ some address
      → emitted address ≡ ok a
      → SavedOrNone labels saved es
      → SavedOrNone labels saved (branch kind rs1 rs2 target at_pc ∷ es)
  unfolding left_entries resolve_entries resolve_entry
  resolved-SavedOrNone address a found good (inl same) = inl (rw (found, left_entries, good) same)
  resolved-SavedOrNone address a found good (inr (none_left, e, raised)) =
      inr
        (rw (found, left_entries, good) none_left, e, rw (found, resolve_entry, good, raised) refl)

left_entries-SavedOrNone :
    (labels : Dict Text ℕ) (saved es : List Entry) → SavedOrNone labels saved es
left_entries-SavedOrNone labels saved [] = inl (unfold left_entries in refl)
left_entries-SavedOrNone labels saved (word w ∷ es) =
    word-SavedOrNone labels saved es w (left_entries-SavedOrNone labels saved es)
left_entries-SavedOrNone labels saved (branch kind rs1 rs2 target at_pc ∷ es) =
    let later = left_entries-SavedOrNone labels saved es in
    elim (Option-cases (get labels target)) [
      | inl missing ↦ undefined-SavedOrNone labels saved es kind rs1 rs2 target at_pc missing
      | inr (address, found) ↦
          elim (Result-cases (emitted labels saved es kind rs1 rs2 target at_pc address)) [
            | inl (e, raised) ↦
                raising-SavedOrNone labels saved es kind rs1 rs2 target at_pc address e found raised
            | inr (a, good) ↦
                resolved-SavedOrNone labels saved es kind rs1 rs2 target at_pc address a found good
                  later
          ]
    ]

-- Either `assemble` leaves the object as it was, or it raises and leaves the labels with no words.
abbrev pub LeavesOrEmpties : Assembler → Type 0
LeavesOrEmpties a =
    (after_assemble a ≡ a)
    ⊎ ((after_assemble a ≡ record a { words = [] }) × (e : AsmError) × (assemble a ≡ err e))

pub assemble-LeavesOrEmpties : (a : Assembler) → LeavesOrEmpties a
unfolding after_assemble assemble
assemble-LeavesOrEmpties a = elim (left_entries-SavedOrNone a.labels a.words a.words) [
  | inl same ↦ inl (ap (λ ws. record a { words = ws }) same)
  | inr (none_left, e, raised) ↦ inr (ap (λ ws. record a { words = ws }) none_left, e, raised)
]

-- Where it returns, it leaves the object as it was.
pub assemble-after : (a : Assembler) (ws : List ℕ) → assemble a ≡ ok ws → after_assemble a ≡ a
assemble-after a ws h = elim (assemble-LeavesOrEmpties a) [
  | inl same ↦ same
  | inr (_, e, raised) ↦ absurd (cc (h, raised))
]
