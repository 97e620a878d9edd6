-- ===== src/Femtovg/Imports.antt =====
-- `import_names` of crates/benchmark-core/src/femtovg_e2e.rs: the reader of a module's import
-- section. A position is an index into the bytes. A name is its bytes; their reading as text is
-- left to the caller. Arithmetic wraps as in a release build.
pub mod Leb
pub mod Entry
pub mod Section
pub mod Ends
mod Runs
use wasm_benchmark.Base.{
  ℕ, zero, suc, ◌+◌, ◌*◌, ◌/◌, ◌%◌, ◌^◌, List, [], ◌∷◌, ◌++◌, Option, none, some, bit_or, bit_and,
  get_elem?, length, take, drop, leb, ltb, ◌==◌, if◌then◌else◌, Bool, true, false,
}

pub data ImportError : Type 0 where
  truncated_leb truncated_name truncated_import : ImportError
  not_a_function : List ℕ → List ℕ → ℕ → ImportError

-- What a reader gives: a value and the position behind it, an error, or no end within its fuel.
pub data Parsed (A : Type 0) : Type 0 where
  parsed : A → ℕ → Parsed A
  bad : ImportError → Parsed A
  out_of_fuel : Parsed A

abbrev pub then_read : {A B : Type 0} → Parsed A → (A → ℕ → Parsed B) → Parsed B
then_read (parsed a pos) f = f a pos
then_read (bad e) f = bad e
then_read out_of_fuel f = out_of_fuel

-- `v |= u32::from(byte & 0x7f) << shift`
unfoldable pub add_digit : ℕ → ℕ → ℕ → ℕ
add_digit v shift byte = bit_or v (byte % 128 * 2 ^ (shift % 32) % 2 ^ 32)

-- The loop of `uleb`.
pub uleb_loop : ℕ → List ℕ → ℕ → ℕ → ℕ → Parsed ℕ
uleb_loop zero b pos v shift = out_of_fuel
uleb_loop (suc fuel) b pos v shift = elim (get_elem? b pos) [
  | none ↦ bad truncated_leb
  | some byte ↦ elim (ltb byte 128) [
    | true ↦ parsed (add_digit v shift byte) (pos + 1)
    | false ↦ uleb_loop fuel b (pos + 1) (add_digit v shift byte) (shift + 7)
  ]
]

-- Each round takes a byte, so that the number of bytes is fuel enough.
pub uleb : List ℕ → ℕ → Parsed ℕ
uleb b pos = uleb_loop (suc (length b)) b pos 0 0

-- `b.get(*pos..*pos + n)`
unfoldable pub get_span : List ℕ → ℕ → ℕ → Option (List ℕ)
get_span b pos n = if leb (pos + n) (length b) then some (take n (drop pos b)) else none

pub name_bytes : List ℕ → ℕ → ℕ → Parsed (List ℕ)
name_bytes b n pos = elim (get_span b pos n) [
  | none ↦ bad truncated_name
  | some s ↦ parsed s (pos + n)
]

pub name : List ℕ → ℕ → Parsed (List ℕ)
name b pos = then_read (uleb b pos) (λ n pos. name_bytes b n pos)

pub record Import : Type 0 where
  pub module_name : List ℕ
  pub field : List ℕ

-- The kind and the type index of an import.
pub import_kind : List ℕ → List ℕ → List ℕ → ℕ → Parsed Import
import_kind b m f pos = elim (get_elem? b pos) [
  | none ↦ bad truncated_import
  | some kind ↦ elim (kind == 0) [
    | true ↦
        then_read (uleb b (pos + 1)) (λ _ pos. parsed (record { module_name = m; field = f }) pos)
    | false ↦ bad (not_a_function m f kind)
  ]
]

pub import_entry : List ℕ → ℕ → Parsed Import
import_entry b pos =
    then_read (name b pos) (λ m pos. then_read (name b pos) (λ f pos. import_kind b m f pos))

-- `for _ in 0..n`, with the imports left to read and those that were read.
pub import_loop : ℕ → List ℕ → ℕ → List Import → Parsed (List Import)
import_loop zero b pos out = parsed out pos
import_loop (suc left) b pos out =
    then_read (import_entry b pos) (λ i pos. import_loop left b pos (out ++ i ∷ []))

-- A section that starts at pos: the import section is read, another is passed over.
pub section_loop : ℕ → List ℕ → ℕ → Parsed (List Import)
section_loop zero b pos = out_of_fuel
section_loop (suc fuel) b pos = elim (get_elem? b pos) [
  | none ↦ parsed [] pos
  | some id ↦ then_read (uleb b (pos + 1)) (λ size pos. elim (id == 2) [
    | true ↦ then_read (uleb b pos) (λ n pos. import_loop n b pos [])
    | false ↦ section_loop fuel b (pos + size)
  ])
]

pub import_names : List ℕ → Parsed (List Import)
import_names b = section_loop (suc (length b)) b 8
