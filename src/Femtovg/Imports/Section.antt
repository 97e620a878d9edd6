-- ===== src/Femtovg/Imports/Section.antt =====
-- Reading back an import section.
use wasm_benchmark.Base.{
  ℕ, zero, suc, ◌+◌, ◌^◌, ◌≤◌, ◌<◌, ◌≡◌, refl, sym, ap, ◌∙◌, arith, List, [], ◌∷◌, ◌++◌, ◌==◌,
  length, false, All, ◌≢◌, ap₂, length_append,
}
use wasm_benchmark.Femtovg.Imports.{
  uleb, Import, import_loop, section_loop, import_names, parsed, then_read,
}
use wasm_benchmark.Femtovg.Imports.Leb.{leb128, uleb-leb128, get_elem?-here}
use wasm_benchmark.Femtovg.Imports.Entry.{
  Reads, Reads-then, uleb_behind-Reads, Fits, imports_code, items, import_loop-Reads,
}
use mathlib.Core.List.{append_assoc}

-- An import section with its size, which the reader does not use; and another section.
abbrev pub section_code : ℕ → List (Import × ℕ) → List ℕ
section_code size entries =
    (2 ∷ leb128 4 size) ++ (leb128 4 (length entries) ++ imports_code entries)

abbrev pub other_code : ℕ × List ℕ → List ℕ
other_code (id, body) = (id ∷ leb128 4 (length body)) ++ body

abbrev pub others_code : List (ℕ × List ℕ) → List ℕ
others_code [] = []
others_code (o ∷ os) = other_code o ++ others_code os

abbrev pub IsOther : ℕ × List ℕ → Type 0
IsOther (id, body) = (id ≢ 2) × (length body < 2 ^ 32)

section_loop-here :
    (fuel size : ℕ) (entries : List (Import × ℕ))
    → size < 2 ^ 32
    → length entries < 2 ^ 32
    → All Fits entries
    → Reads (section_loop (suc fuel)) (section_code size entries) (items entries)
unfolding section_loop
section_loop-here fuel size entries hs hn h pre rest =
    rw
      (
        get_elem?-here pre 2
            ((leb128 4 size ++ (leb128 4 (length entries) ++ imports_code entries)) ++ rest),
        section_loop,
      )
      (Reads-then (λ b pos. uleb b (pos + 1))
        (λ _ b pos. then_read (uleb b pos) (λ n pos. import_loop n b pos [])) (2 ∷ leb128 4 size)
        (leb128 4 (length entries) ++ imports_code entries) size (items entries)
        (uleb_behind-Reads 2 size hs)
        (Reads-then uleb (λ n b pos. import_loop n b pos []) (leb128 4 (length entries))
          (imports_code entries) (length entries) (items entries)
          (λ pre rest. uleb-leb128 (length entries) pre rest hn) (import_loop-Reads entries [] h))
        pre rest)

section_loop-past :
    (fuel id size : ℕ) (pre rest : List ℕ)
    → id ≢ 2
    → size < 2 ^ 32
    → section_loop (suc fuel) (pre ++ ((id ∷ leb128 4 size) ++ rest)) (length pre)
      ≡ section_loop fuel
          (pre ++ ((id ∷ leb128 4 size) ++ rest))
          (length pre + length (id ∷ leb128 4 size) + size)
unfolding section_loop
section_loop-past fuel id size pre rest hid hb =
    let test : (id == 2) ≡ false = ground arith in
    rw
      (
        get_elem?-here pre id (leb128 4 size ++ rest),
        section_loop,
        uleb_behind-Reads id size hb pre rest,
        test,
      )
      refl

section_loop-other :
    (fuel id : ℕ) (body pre rest : List ℕ)
    → id ≢ 2
    → length body < 2 ^ 32
    → section_loop (suc fuel) (pre ++ (other_code (id, body) ++ rest)) (length pre)
      ≡ section_loop fuel
          ((pre ++ other_code (id, body)) ++ rest)
          (length (pre ++ other_code (id, body)))
section_loop-other fuel id body pre rest hid hb =
    let start = id ∷ leb128 4 (length body) in
    let split : pre ++ ((start ++ body) ++ rest) ≡ pre ++ (start ++ (body ++ rest)) =
      ap (λ (l : List ℕ). pre ++ l) (append_assoc start body rest) in
    ap (λ (b : List ℕ). section_loop (suc fuel) b (length pre)) split
    ∙ section_loop-past fuel id (length body) pre (body ++ rest) hid hb
    ∙ ap₂ (section_loop fuel) (sym split ∙ sym (append_assoc pre (start ++ body) rest))
        (omega (arith, length_append pre (start ++ body), length_append start body))

section_loop-others :
    (others : List (ℕ × List ℕ)) (fuel size : ℕ) (entries : List (Import × ℕ)) (pre rest : List ℕ)
    → All IsOther others
    → size < 2 ^ 32
    → length entries < 2 ^ 32
    → All Fits entries
    → length others < fuel
    → section_loop fuel
        (pre ++ (others_code others ++ (section_code size entries ++ rest)))
        (length pre)
      ≡ parsed
          (items entries)
          (length pre + (length (others_code others) + length (section_code size entries)))
section_loop-others others zero size entries pre rest ho hs hn h hf = absurd (omega arith)
section_loop-others [] (suc fuel) size entries pre rest ho hs hn h hf =
    section_loop-here fuel size entries hs hn h pre rest ∙ ap (parsed (items entries)) (omega arith)
section_loop-others ((id, body) ∷ os) (suc fuel) size entries pre rest ((hid, hb), ho) hs hn h hf =
    let code = other_code (id, body) in
    let further = others_code os ++ (section_code size entries ++ rest) in
    rw (append_assoc code (others_code os) (section_code size entries ++ rest)) (
      section_loop-other fuel id body pre further hid hb
      ∙ section_loop-others os fuel size entries (pre ++ code) rest ho hs hn h (omega arith)
      ∙ ap (parsed (items entries))
          (omega (arith, length_append pre code, length_append code (others_code os))))

length-others_code : (others : List (ℕ × List ℕ)) → length others ≤ length (others_code others)
length-others_code [] = omega arith
length-others_code ((id, body) ∷ os) =
    omega (arith, length-others_code os, length_append (other_code (id, body)) (others_code os))

-- In a module of eight bytes of header, any sections but import sections, an import section of
-- function imports, and anything, `import_names` finds these imports in their order, and ends.
pub import_names-section_code :
    (header : List ℕ) (others : List (ℕ × List ℕ)) (size : ℕ) (entries : List (Import × ℕ))
    (rest : List ℕ)
    → length header ≡ 8
    → All IsOther others
    → size < 2 ^ 32
    → length entries < 2 ^ 32
    → All Fits entries
    → import_names (header ++ (others_code others ++ (section_code size entries ++ rest)))
      ≡ parsed
          (items entries)
          (8 + (length (others_code others) + length (section_code size entries)))
unfolding import_names
import_names-section_code header others size entries rest hh ho hs hn h =
    let bytes = header ++ (others_code others ++ (section_code size entries ++ rest)) in
    let start : section_loop (suc (length bytes)) bytes 8
        ≡ section_loop (suc (length bytes)) bytes (length header) =
      ap (section_loop (suc (length bytes)) bytes) (sym hh) in
    start
    ∙ section_loop-others others (suc (length bytes)) size entries header rest ho hs hn h (
        omega (
          arith,
          length-others_code others,
          length_append header (others_code others ++ (section_code size entries ++ rest)),
          length_append (others_code others) (section_code size entries ++ rest),
        ))
    ∙ ap
        (λ (n : ℕ).
          parsed (items entries)
            (n + (length (others_code others) + length (section_code size entries))))
        hh
