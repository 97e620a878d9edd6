-- ===== src/Femtovg/Imports/Entry.antt =====
-- Reading back the entries of an import section.
use wasm_benchmark.Base.{
  ℕ, ◌+◌, ◌^◌, ◌<◌, ◌≡◌, refl, sym, ap, ◌∙◌, arith, List, [], ◌∷◌, ◌++◌, some, leb, length, true,
  All, ap₂, length_append, drop_past, take_past,
}
use wasm_benchmark.Femtovg.Imports.{
  uleb, get_span, name_bytes, name, Import, import_kind, import_entry, import_loop, Parsed, parsed,
  then_read,
}
use wasm_benchmark.Femtovg.Imports.Leb.{leb128, uleb-leb128, get_elem?-here, length-snoc}
use mathlib.Core.List.{append_assoc, append-nil}

-- A reader reads the bytes as the value, whatever stands before and behind them.
abbrev pub Reads : {A : Type 0} → (List ℕ → ℕ → Parsed A) → List ℕ → A → Type 0
Reads read bytes a =
    (pre rest : List ℕ)
    → read (pre ++ (bytes ++ rest)) (length pre) ≡ parsed a (length pre + length bytes)

-- Two readers in turn read two encodings in turn.
pub Reads-then :
    {A B : Type 0} (first : List ℕ → ℕ → Parsed A) (second : A → List ℕ → ℕ → Parsed B)
    (xs ys : List ℕ) (a : A) (c : B)
    → Reads first xs a
    → Reads (second a) ys c
    → Reads (λ b pos. then_read (first b pos) (λ v pos. second v b pos)) (xs ++ ys) c
Reads-then first second xs ys a c hx hy pre rest =
    rw (append_assoc xs ys rest, hx pre (ys ++ rest)) second_part
  where
    second_part :
        second a (pre ++ (xs ++ (ys ++ rest))) (length pre + length xs)
        ≡ parsed c (length pre + length (xs ++ ys))
    second_part =
        rw (sym (append_assoc pre xs (ys ++ rest)), sym (length_append pre xs))
          (hy (pre ++ xs) rest
            ∙ ap (parsed c) (omega (arith, length_append pre xs, length_append xs ys)))

get_span-here :
    (pre xs rest : List ℕ) → get_span (pre ++ (xs ++ rest)) (length pre) (length xs) ≡ some xs
unfolding get_span
get_span-here pre xs rest =
    let fits : leb (length pre + length xs) (length (pre ++ (xs ++ rest))) ≡ true =
      ground (arith, length_append pre (xs ++ rest), length_append xs rest) in
    rw (fits, drop_past pre (xs ++ rest), take_past xs rest) refl

name_bytes-Reads : (s : List ℕ) → Reads (λ b pos. name_bytes b (length s) pos) s s
unfolding name_bytes
name_bytes-Reads s pre rest = rw (get_span-here pre s rest, name_bytes) refl

-- The encodings: a name is its length and its bytes; an import is its two names, kind 0 and the
-- index of its type.
abbrev pub name_code : List ℕ → List ℕ
name_code s = leb128 4 (length s) ++ s

abbrev pub import_code : Import × ℕ → List ℕ
import_code (i, index) = name_code i.module_name ++ (name_code i.field ++ (0 ∷ leb128 4 index))

abbrev pub imports_code : List (Import × ℕ) → List ℕ
imports_code [] = []
imports_code (i ∷ is) = import_code i ++ imports_code is

-- The lengths and the index fit their 32 bits.
abbrev pub Fits : Import × ℕ → Type 0
Fits (i, index) = (length i.module_name < 2 ^ 32) × (length i.field < 2 ^ 32) × (index < 2 ^ 32)

name-Reads : (s : List ℕ) → length s < 2 ^ 32 → Reads name (name_code s) s
unfolding name
name-Reads s h =
    Reads-then uleb (λ n b pos. name_bytes b n pos) (leb128 4 (length s)) s (length s) s
      (λ pre rest. uleb-leb128 (length s) pre rest h) (name_bytes-Reads s)

-- A byte that was looked at, and the number behind it.
pub uleb_behind-Reads :
    (x w : ℕ) → w < 2 ^ 32 → Reads (λ b pos. uleb b (pos + 1)) (x ∷ leb128 4 w) w
uleb_behind-Reads x w h pre rest =
    ap₂ uleb (sym (append_assoc pre (x ∷ []) (leb128 4 w ++ rest))) (sym (length-snoc pre x))
    ∙ uleb-leb128 w (pre ++ x ∷ []) rest h
    ∙ ap (parsed w) (omega (arith, length-snoc pre x))

import_kind-Reads :
    (m f : List ℕ) (index : ℕ)
    → index < 2 ^ 32
    → Reads
        (λ b pos. import_kind b m f pos)
        (0 ∷ leb128 4 index)
        (record { module_name = m; field = f })
unfolding import_kind
import_kind-Reads m f index h pre rest =
    rw
      (
        get_elem?-here pre 0 (leb128 4 index ++ rest),
        import_kind,
        uleb_behind-Reads 0 index h pre rest,
      )
      refl

import_entry-Reads :
    (entry : Import × ℕ) → Fits entry → Reads import_entry (import_code entry) entry.0
unfolding import_entry
import_entry-Reads (i, index) (hm, hf, hi) =
    let m = i.module_name in
    let f = i.field in
    Reads-then name (λ m b pos. then_read (name b pos) (λ f pos. import_kind b m f pos))
      (name_code m) (name_code f ++ (0 ∷ leb128 4 index)) m i (name-Reads m hm)
      (Reads-then name (λ f b pos. import_kind b m f pos) (name_code f) (0 ∷ leb128 4 index) f i
        (name-Reads f hf) (import_kind-Reads m f index hi))

abbrev pub items : List (Import × ℕ) → List Import
items [] = []
items (i ∷ is) = i.0 ∷ items is

pub import_loop-Reads :
    (entries : List (Import × ℕ)) (out : List Import)
    → All Fits entries
    → Reads
        (λ b pos. import_loop (length entries) b pos out)
        (imports_code entries)
        (out ++ items entries)
unfolding import_loop
import_loop-Reads [] out h pre rest = rw append-nil (ap (parsed out) (omega arith))
import_loop-Reads (i ∷ is) out (hi, his) pre rest =
    Reads-then import_entry (λ v b pos. import_loop (length is) b pos (out ++ v ∷ []))
      (import_code i) (imports_code is) i.0 ((out ++ i.0 ∷ []) ++ items is)
      (import_entry-Reads i hi) (import_loop-Reads is (out ++ i.0 ∷ []) his) pre rest
    ∙ rw (append_assoc out (i.0 ∷ []) (items is)) refl
