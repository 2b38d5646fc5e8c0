-- ===== src/Socgen/Registry.antt =====
-- socgen/registry.py: the modules, their benches and the lookups.
pub mod Manifest
pub mod Programs
pub mod SocBenches
pub mod Lookup
use risc_v_so_c.Base.{Bool, true, false, if◌then◌else◌, none, some, List, [], ◌∷◌, ◌++◌, map}
use risc_v_so_c.Base.Text.{Text, codes, text_eq}
use risc_v_so_c.Base.Dict.{Dict, get, put, text_key}
use risc_v_so_c.Base.Results.{Result, or_raise}
use risc_v_so_c.Socgen.Toolchain.{Bench}
use risc_v_so_c.Socgen.Registry.Manifest.{Module, manifest}
use risc_v_so_c.Socgen.Registry.SocBenches.{soc_bench, traps_bench}

-- The message of the KeyError also lists the names.
pub data KeyError : Type 0 where
  unknown_module : Text → KeyError

-- `{module.name: module for module in ms}`, added to a dictionary.
unfoldable pub index : Dict Text Module → List Module → Dict Text Module
unfolding put
index d [] = d
index d (m ∷ ms) = index (put d m.name m) ms

-- `_BY_NAME`.
unfoldable pub by_name : Dict Text Module
unfolding index
by_name = index [] manifest

abbrev pub modules : List Module
modules = manifest

-- `module`.
unfoldable pub module_named : Text → Result KeyError Module
module_named name = or_raise (get by_name name) (unknown_module name)

-- `[(m.name, bench) for m in ms for bench in m.benches]`.
unfoldable pub benches_of : List Module → List (Text × Bench)
benches_of [] = []
benches_of (m ∷ ms) = map (λ b. (m.name, b)) m.benches ++ benches_of ms

unfoldable pub benches : Bool → List (Text × Bench)
unfolding benches_of
benches include_soc =
    if include_soc
    then benches_of manifest ++ (codes "core", soc_bench) ∷ (codes "core", traps_bench) ∷ []
    else benches_of manifest
