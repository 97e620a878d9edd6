-- ===== src/Workload/Crc/Table.antt =====
-- What `build_table` holds, and the table step as eight rounds of the shift register.
use wasm_benchmark.Base.{
  ℕ, zero, suc, ◌+◌, ◌*◌, ◌/◌, ◌%◌, ◌<◌, ◌≡◌, refl, sym, ap, ◌∙◌, arith, List, [], ◌∷◌, ◌++◌, some,
  write-eq-set, get_elem?, set, length, replicate, length-set, length-replicate, take, take_all,
  take-suc-set, bit_xor, IsByte,
}
use wasm_benchmark.Base.Bits.{and_ones, xor_fields, xor-zero, xor-div-pow, xor_comm}
use wasm_benchmark.Workload.Crc.{crc_rounds, build_loop, build_table, table_step}
use wasm_benchmark.Workload.Crc.Linear.{crc_rounds-xor_high}
use mathlib.Core.List.{append_assoc, append-nil}
use native.Mathlib.Numerals.{add-one}
use native.Mathlib.Nat.{zero-add}

-- The entries from index i on.
unfoldable pub entries : ℕ → ℕ → List ℕ
entries zero i = []
entries (suc n) i = crc_rounds 8 i ∷ entries n (i + 1)

build_loop-entries :
    (left i : ℕ) (table : List ℕ)
    → i + left ≡ length table
    → build_loop left i table ≡ some (take i table ++ entries left i)
unfolding build_loop entries
build_loop-entries zero i table e =
    rw (append-nil (take i table), take_all table i (omega arith)) refl
build_loop-entries (suc left) i table e =
    let v : ℕ = crc_rounds 8 i in
    let in_range : i < length table = omega arith in
    rw
      (
        write-eq-set table i v in_range,
        add-one i,
        build_loop-entries left (suc i) (set table i v) (omega (arith, length-set table i v)),
        take-suc-set table i v in_range,
        append_assoc (take i table) (v ∷ []) (entries left (suc i)),
      )
      refl

-- `build_table` never stores out of bounds, and fills all 256 entries.
pub build_table-entries : build_table ≡ some (entries 256 0)
unfolding build_table
build_table-entries =
    build_loop-entries 256 0 (replicate 256 0) (omega (arith, length-replicate {A = ℕ} 256 0))

get_elem?-entries : (n i j : ℕ) → j < n → get_elem? (entries n i) j ≡ some (crc_rounds 8 (i + j))
unfolding entries
get_elem?-entries zero i j h = absurd (omega arith)
get_elem?-entries (suc n) i zero h = ap (λ (k : ℕ). some (crc_rounds 8 k)) (omega arith)
get_elem?-entries (suc n) i (suc j) h =
    get_elem?-entries n (i + 1) j (omega arith)
    ∙ ap (λ (k : ℕ). some (crc_rounds 8 k)) (omega arith)

rounds_split : (x : ℕ) → crc_rounds 8 x ≡ bit_xor (crc_rounds 8 (x % 256)) (x / 256)
rounds_split x =
    ap (crc_rounds 8) (
      sym (
        xor_comm (x % 256) (x / 256 * 256)
        ∙ xor_fields 8 (x / 256) (x % 256) (omega arith)
        ∙ omega arith))
    ∙ crc_rounds-xor_high 8 (x % 256) (x / 256)

high_part : (crc b : ℕ) → IsByte b → bit_xor crc b / 256 ≡ crc / 256
high_part crc b h =
    xor-div-pow 8 crc b ∙ ap (bit_xor (crc / 256)) (omega arith) ∙ xor-zero (crc / 256)

-- A table lookup by the low byte stands for eight rounds, and its index is always in the table.
pub table_step-rounds :
    (crc b : ℕ) → IsByte b → table_step (entries 256 0) crc b ≡ some (crc_rounds 8 (bit_xor crc b))
unfolding table_step
table_step-rounds crc b h =
    let x : ℕ = bit_xor crc b in
    rw
      (
        and_ones 8 x,
        get_elem?-entries 256 0 (x % 256) (omega arith),
        zero-add (x % 256),
        rounds_split x,
        high_part crc b h,
        xor_comm (crc_rounds 8 (x % 256)) (crc / 256),
      )
      refl
