-- ===== src/Workload/Indirect.antt =====
-- workloads-rs/call_indirect.rs and call_indirect_reference of crates/benchmark-core/src/lib.rs: a
-- walk through a table of sixteen operations, whose index the generator gives. An i32 is its
-- 32 bits; an index out of bounds is `none`.
pub mod Agreement
mod Runs
use wasm_benchmark.Base.{
  ℕ, zero, suc, ◌+◌, ◌*◌, ◌/◌, ◌%◌, ◌^◌, List, [], ◌∷◌, Option, some, ◌>>=◌, get_elem?, bit_and,
  bit_or, bit_xor, leb, ◌==◌, if◌then◌else◌, wrapping_add, wrapping_sub, wrapping_mul, not32,
  signed_ltb, ◌-◌,
}
use wasm_benchmark.Workload.Lcg.{lcg}
use wasm_benchmark.Workload.Vtable.{rotate_left, rotate_right}

abbrev pub Op : Type 0
Op = ℕ → ℕ → ℕ

-- `leading_zeros`, `trailing_zeros` and `count_ones` of the lowest bits, so many as are given.
unfoldable pub leading_zeros : ℕ → ℕ → ℕ
leading_zeros zero a = 0
leading_zeros (suc n) a = let rest = leading_zeros n a in if leb (2 ^ n) a then 0 else suc rest

unfoldable pub trailing_zeros : ℕ → ℕ → ℕ
trailing_zeros zero a = 0
trailing_zeros (suc n) a = let rest = trailing_zeros n (a / 2) in if a % 2 == 0 then suc rest else 0

unfoldable pub count_ones : ℕ → ℕ → ℕ
count_ones zero a = 0
count_ones (suc n) a = a % 2 + count_ones n (a / 2)

abbrev pub op_add : Op
op_add = wrapping_add

abbrev pub op_sub : Op
op_sub = wrapping_sub

abbrev pub op_mul : Op
op_mul = wrapping_mul

abbrev pub op_xor : Op
op_xor = bit_xor

abbrev pub op_and : Op
op_and = bit_and

abbrev pub op_or : Op
op_or = bit_or

abbrev pub op_shl : Op
op_shl a b = a * 2 ^ bit_and b 31 % 2 ^ 32

abbrev pub op_shr : Op
op_shr a b = a / 2 ^ bit_and b 31

abbrev pub op_rotl : Op
op_rotl a b = rotate_left a (bit_and b 31)

abbrev pub op_rotr : Op
op_rotr a b = rotate_right a (bit_and b 31)

abbrev pub op_min : Op
op_min a b = if signed_ltb a b then a else b

abbrev pub op_max : Op
op_max a b = if signed_ltb b a then a else b

abbrev pub op_clz : Op
op_clz a _ = leading_zeros 32 a

abbrev pub op_ctz : Op
op_ctz a _ = trailing_zeros 32 a

abbrev pub op_popcount : Op
op_popcount a _ = count_ones 32 a

abbrev pub op_negxor : Op
op_negxor a b = bit_xor (not32 a) b

abbrev pub ops : List Op
ops =
    op_add ∷ op_sub ∷ op_mul ∷ op_xor ∷ op_and ∷ op_or ∷ op_shl ∷ op_shr ∷ op_rotl ∷ op_rotr
    ∷ op_min ∷ op_max ∷ op_clz ∷ op_ctz ∷ op_popcount ∷ op_negxor ∷ []

abbrev pub call_iters : ℕ
call_iters = 200_000

-- `while i < ITERS`, with the rounds left.
unfoldable pub indirect_loop : ℕ → ℕ → ℕ → Option ℕ
indirect_loop zero acc s = some acc
indirect_loop (suc left) acc s = do
  let s' = lcg s
  op ← get_elem? ops (s' / 2 ^ 28)
  indirect_loop left (op acc s') s'

unfoldable pub call_indirect : ℕ → Option ℕ
unfolding indirect_loop
call_indirect seed = indirect_loop call_iters seed seed

-- The host's: the closures of its own table, and its loop.
abbrev pub closures : List Op
closures =
    (λ a b. (a + b) % 2 ^ 32)
    ∷ (λ a b. (a + 2 ^ 32 - b) % 2 ^ 32)
    ∷ (λ a b. a * b % 2 ^ 32)
    ∷ (λ a b. bit_xor a b)
    ∷ (λ a b. bit_and a b)
    ∷ (λ a b. bit_or a b)
    ∷ (λ a b. a * 2 ^ bit_and b 31 % 2 ^ 32)
    ∷ (λ a b. a / 2 ^ bit_and b 31)
    ∷ (λ a b. rotate_left a (bit_and b 31))
    ∷ (λ a b. rotate_right a (bit_and b 31))
    ∷ (λ a b. if signed_ltb a b then a else b)
    ∷ (λ a b. if signed_ltb b a then a else b)
    ∷ (λ a _. leading_zeros 32 a)
    ∷ (λ a _. trailing_zeros 32 a)
    ∷ (λ a _. count_ones 32 a)
    ∷ (λ a b. bit_xor (not32 a) b)
    ∷ []

unfoldable pub closure_loop : ℕ → ℕ → ℕ → Option ℕ
closure_loop zero acc s = some acc
closure_loop (suc left) acc s = do
  let s' = wrapping_add (wrapping_mul s 1664525) 1013904223
  op ← get_elem? closures (s' / 2 ^ 28)
  closure_loop left (op acc s') s'

unfoldable pub call_indirect_reference : ℕ → Option ℕ
unfolding closure_loop
call_indirect_reference seed = closure_loop call_iters seed seed
