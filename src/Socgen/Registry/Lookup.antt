-- ===== src/Socgen/Registry/Lookup.antt =====
-- socgen/registry.py: what `module` finds.
use risc_v_so_c.Base.{
  ℕ, suc, ◌≡◌, ◌≢◌, ◌⊎◌, inl, inr, refl, ◌∙◌, Bool-cases, Option, some, List, [], ◌∷◌, get_elem?,
  All,
}
use mathlib.Core.Path.{subst}
use risc_v_so_c.Base.Text.{Text, text_eq, text_eq→eq, text_eq_self}
use risc_v_so_c.Base.Dict.{Dict, get, put, text_key, get-put_self, get-put_ne}
use risc_v_so_c.Base.Results.{ok, err, or_raise}
use risc_v_so_c.Socgen.Registry.Manifest.{Module, manifest}
use risc_v_so_c.Socgen.Registry.{unknown_module, index, by_name, module_named}

-- A module of that name in the list, or none there and the dictionary's own value.
abbrev Found : Dict Text Module → List Module → Text → Option Module → Type 0
Found d ms name o =
    ((i : ℕ) × (m : Module) × (o ≡ some m) × (get_elem? ms i ≡ some m) × (m.name ≡ name))
    ⊎ ((o ≡ get d name) × All (λ m. m.name ≢ name) ms)

get-index :
    (d : Dict Text Module) (ms : List Module) (name : Text)
    → Found d ms name (get (index d ms) name)
unfolding index
get-index d [] name = inr (refl, tt)
get-index d (m ∷ ms) name = elim (get-index (put d m.name m) ms name) [
  | inl (i, found, e, at, same) ↦ inl (suc i, found, e, at, same)
  | inr (e, others) ↦ elim (Bool-cases (text_eq m.name name)) [
    | inl same ↦
        let equal = text_eq→eq m.name name same in
        inl (
          0,
          m,
          e ∙ subst (λ n. get (put d m.name m) n ≡ some m) equal (get-put_self d m.name m),
          refl,
          equal,
        )
    | inr differs ↦ inr (
      rw (← get-put_ne d m.name name m differs) e,
      (λ same. cc (text_eq_self name, rw same at differs), others),
    )
  ]
]

named :
    (name : Text) (o : Option Module)
    → Found [] manifest name o
    → ((i : ℕ) × (m : Module) × (or_raise o (unknown_module name) ≡ ok m)
        × (get_elem? manifest i ≡ some m)
        × (m.name ≡ name))
      ⊎ ((or_raise o (unknown_module name) ≡ err (unknown_module name))
          × All (λ m. m.name ≢ name) manifest)
unfolding get
named name o (inl (i, m, e, at, same)) = inl (i, m, rw e refl, at, same)
named name o (inr (e, others)) = inr (rw e refl, others)

by_name-Found : (name : Text) → Found [] manifest name (get by_name name)
unfolding by_name
by_name-Found name = get-index [] manifest name

-- `module` returns a module of the manifest that has the name, or raises its KeyError where no module
-- of the manifest has it.
pub module_named-manifest :
    (name : Text)
    → ((i : ℕ) × (m : Module) × (module_named name ≡ ok m)
        × (get_elem? manifest i ≡ some m)
        × (m.name ≡ name))
      ⊎ ((module_named name ≡ err (unknown_module name)) × All (λ m. m.name ≢ name) manifest)
unfolding module_named
module_named-manifest name = named name (get by_name name) (by_name-Found name)
