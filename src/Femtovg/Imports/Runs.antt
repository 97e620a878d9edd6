-- ===== src/Femtovg/Imports/Runs.antt =====
-- The reader on a small module, and its theorem there.
use wasm_benchmark.Base.{ℕ, ◌+◌, ◌≡◌, refl, arith, List, [], ◌∷◌, ◌++◌, length, ◌≢◌}
use wasm_benchmark.Femtovg.Imports.{
  Import, import_names, parsed, bad, not_a_function, section_loop, import_loop, import_entry,
  import_kind, name, name_bytes, get_span, uleb, uleb_loop, add_digit, out_of_fuel,
}
use wasm_benchmark.Femtovg.Imports.Ends.{import_names_ends}
use wasm_benchmark.Femtovg.Imports.Entry.{items}
use wasm_benchmark.Femtovg.Imports.Section.{section_code, others_code, import_names-section_code}

-- The magic number and the version.
abbrev header : List ℕ
header = 0 ∷ 97 ∷ 115 ∷ 109 ∷ 1 ∷ 0 ∷ 0 ∷ 0 ∷ []

-- A type section, and imports fvg.a and fvg.b.
abbrev types : List (ℕ × List ℕ)
types = (1, 1 ∷ 96 ∷ 0 ∷ 0 ∷ []) ∷ []

abbrev import_of : ℕ → Import × ℕ
import_of f = (record { module_name = 102 ∷ 118 ∷ 103 ∷ []; field = f ∷ [] }, 0)

abbrev two_imports : List (Import × ℕ)
two_imports = import_of 97 ∷ import_of 98 ∷ []

-- An import of a memory is refused.
memory_refused :
    import_names (header ++ (2 ∷ 7 ∷ 1 ∷ 1 ∷ 109 ∷ 1 ∷ 102 ∷ 2 ∷ 0 ∷ []))
    ≡ bad (not_a_function (109 ∷ []) (102 ∷ []) 2)
unfolding import_names section_loop import_loop import_entry import_kind name name_bytes get_span
    uleb uleb_loop add_digit
memory_refused = refl

import_names-section_code_example :
    import_names (header ++ (others_code types ++ (section_code 17 two_imports ++ (3 ∷ []))))
    ≡ parsed
        (items two_imports)
        (8 + (length (others_code types) + length (section_code 17 two_imports)))
import_names-section_code_example =
    import_names-section_code header types 17 two_imports (3 ∷ []) refl
      ((ground arith, omega arith), tt) (omega arith) (omega arith)
      ((omega arith, omega arith, omega arith), ((omega arith, omega arith, omega arith), tt))

import_names_ends_example : import_names (header ++ (2 ∷ 200 ∷ [])) ≢ out_of_fuel
import_names_ends_example = import_names_ends (header ++ (2 ∷ 200 ∷ []))
