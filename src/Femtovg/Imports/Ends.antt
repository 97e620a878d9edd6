-- ===== src/Femtovg/Imports/Ends.antt =====
-- How the reader of imports ends.
use wasm_benchmark.Base.{
  ℕ, zero, suc, ◌+◌, ◌≤◌, ◌≡◌, ◌≢◌, refl, arith, List, [], ◌∷◌, ◌++◌, Option, none, some, inl, inr,
  ltb, ◌==◌, length, get_elem?, get_or, get_elem?-get_or, Bool-cases,
}
use native.Mathlib.Decide.{dec_lt}
use wasm_benchmark.Femtovg.Imports.{
  uleb, uleb_loop, get_span, name_bytes, name, Import, import_kind, import_entry, import_loop,
  section_loop, import_names, Parsed, parsed, bad, out_of_fuel, then_read, truncated_name,
}

-- The reader has ended, and not before the position pos.
abbrev Ends : {A : Type 0} → ℕ → Parsed A → Type 0
Ends pos (parsed a p) = pos ≤ p
Ends pos (bad e) = Unit {0}
Ends pos out_of_fuel = ⊥

Ends-then :
    {A B : Type 0} (pos : ℕ) (m : Parsed A) (f : A → ℕ → Parsed B)
    → Ends pos m
    → ((a : A) (p : ℕ) → pos ≤ p → Ends pos (f a p))
    → Ends pos (then_read m f)
Ends-then pos (parsed a p) f h further = further a p h
Ends-then pos (bad e) f h further = tt
Ends-then pos out_of_fuel f h further = h

Ends-le : {A : Type 0} (low high : ℕ) (m : Parsed A) → low ≤ high → Ends high m → Ends low m
Ends-le low high (parsed a p) h e = omega arith
Ends-le low high (bad x) h e = tt
Ends-le low high out_of_fuel h e = e

get_elem?-past : (b : List ℕ) (pos : ℕ) → length b ≤ pos → get_elem? b pos ≡ none
get_elem?-past [] pos h = refl
get_elem?-past (x ∷ b) zero h = absurd (omega arith)
get_elem?-past (x ∷ b) (suc pos) h = get_elem?-past b pos (omega arith)

uleb_loop-Ends :
    (fuel : ℕ) (b : List ℕ) (pos v shift : ℕ)
    → length b ≤ pos + fuel
    → Ends (pos + 1) (uleb_loop (suc fuel) b pos v shift)
unfolding uleb_loop
uleb_loop-Ends zero b pos v shift h = rw (get_elem?-past b pos (omega arith), uleb_loop) tt
uleb_loop-Ends (suc fuel) b pos v shift h = elim (dec_lt pos (length b)) [
  | no past ↦ rw (get_elem?-past b pos (omega arith), uleb_loop) tt
  | yes inside ↦ elim (Bool-cases (ltb (get_or b pos 0) 128)) [
    | inl last ↦ rw (get_elem?-get_or b pos 0 inside, uleb_loop, last) (omega arith)
    | inr more ↦
        rw (get_elem?-get_or b pos 0 inside, uleb_loop, more)
          (Ends-le (pos + 1) (pos + 1 + 1) _ (omega arith)
            (uleb_loop-Ends fuel b (pos + 1) _ (shift + 7) (omega arith)))
  ]
]

uleb-Ends : (b : List ℕ) (pos : ℕ) → Ends (pos + 1) (uleb b pos)
unfolding uleb
uleb-Ends b pos = uleb_loop-Ends (length b) b pos 0 0 (omega arith)

name_bytes-Ends : (b : List ℕ) (n pos : ℕ) → Ends pos (name_bytes b n pos)
unfolding name_bytes
name_bytes-Ends b n pos = by_span (get_span b pos n)
  where
    by_span :
        (span : Option (List ℕ))
        → Ends pos (elim span [ none ↦ bad truncated_name | some s ↦ parsed s (pos + n) ])
    by_span none = tt
    by_span (some s) = omega arith

name-Ends : (b : List ℕ) (pos : ℕ) → Ends pos (name b pos)
unfolding name
name-Ends b pos =
    Ends-then pos (uleb b pos) _ (Ends-le pos (pos + 1) _ (omega arith) (uleb-Ends b pos))
      (λ n p h. Ends-le pos p _ h (name_bytes-Ends b n p))

import_kind-Ends : (b m f : List ℕ) (pos : ℕ) → Ends pos (import_kind b m f pos)
unfolding import_kind
import_kind-Ends b m f pos = elim (dec_lt pos (length b)) [
  | no past ↦ rw (get_elem?-past b pos (omega arith), import_kind) tt
  | yes inside ↦ elim (Bool-cases (get_or b pos 0 == 0)) [
    | inl function ↦
        rw (get_elem?-get_or b pos 0 inside, import_kind, function)
          (Ends-then pos (uleb b (pos + 1)) _
            (Ends-le pos (pos + 1 + 1) _ (omega arith) (uleb-Ends b (pos + 1))) (λ _ p h. h))
    | inr other ↦ rw (get_elem?-get_or b pos 0 inside, import_kind, other) tt
  ]
]

import_entry-Ends : (b : List ℕ) (pos : ℕ) → Ends pos (import_entry b pos)
unfolding import_entry
import_entry-Ends b pos = Ends-then pos (name b pos) _ (name-Ends b pos) (λ m p h.
    Ends-then pos (name b p) _ (Ends-le pos p _ h (name-Ends b p))
      (λ f q h. Ends-le pos q _ h (import_kind-Ends b m f q)))

import_loop-Ends :
    (left : ℕ) (b : List ℕ) (pos : ℕ) (out : List Import) → Ends pos (import_loop left b pos out)
unfolding import_loop
import_loop-Ends zero b pos out = omega arith
import_loop-Ends (suc left) b pos out =
    Ends-then pos (import_entry b pos) _ (import_entry-Ends b pos)
      (λ i p h. Ends-le pos p _ h (import_loop-Ends left b p (out ++ i ∷ [])))

section_loop-Ends :
    (fuel : ℕ) (b : List ℕ) (pos : ℕ)
    → length b ≤ pos + fuel
    → Ends pos (section_loop (suc fuel) b pos)
unfolding section_loop
section_loop-Ends zero b pos h = rw (get_elem?-past b pos (omega arith), section_loop) (omega arith)
section_loop-Ends (suc fuel) b pos h = elim (dec_lt pos (length b)) [
  | no past ↦ rw (get_elem?-past b pos (omega arith), section_loop) (omega arith)
  | yes inside ↦
      rw (get_elem?-get_or b pos 0 inside, section_loop)
        (Ends-le pos (pos + 1) _ (omega arith) (
          Ends-then (pos + 1) (uleb b (pos + 1)) _
            (Ends-le (pos + 1) (pos + 1 + 1) _ (omega arith) (uleb-Ends b (pos + 1)))
            (λ size p hp. elim (Bool-cases (get_or b pos 0 == 2)) [
              | inl here ↦ rw here (
                  Ends-then (pos + 1) (uleb b p) _
                    (Ends-le (pos + 1) (p + 1) _ (omega arith) (uleb-Ends b p))
                    (λ n q hq. Ends-le (pos + 1) q _ hq (import_loop-Ends n b q [])))
              | inr other ↦ rw other (
                  Ends-le (pos + 1) (p + size) _ (omega arith)
                    (section_loop-Ends fuel b (p + size) (omega arith)))
            ])))
]

-- On any bytes the reader ends, with the imports or with an error.
pub import_names_ends : (b : List ℕ) → import_names b ≢ out_of_fuel
unfolding import_names
import_names_ends b e =
    let ended : Ends 8 (import_names b) = section_loop-Ends (length b) b 8 (omega arith) in
    rw e at ended
