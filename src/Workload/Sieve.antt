-- ===== src/Workload/Sieve.antt =====
-- workloads-rs/sieve.rs, with the static SIEVE passed in and returned. `none` is a panic of an
-- index or the end of the fuel; each `while` has n + 1 rounds of fuel.
pub mod Divisor
pub mod Mark
pub mod Count
pub mod Reference
mod Runs
use wasm_benchmark.Base.{
  ℕ, zero, suc, ◌+◌, ◌*◌, ◌^◌, ◌-◌, Bool, true, false, List, Option, none, some, ◌>>=◌, write,
  get_elem?, ltb, leb, ◌==◌, if◌then◌else◌, signed_ltb, replicate,
}

abbrev pub n_max : ℕ
n_max = 10_000

-- while i <= n { SIEVE[i] = 0; i += 1; }, with n + 1 - i rounds left.
pub reset_loop : ℕ → ℕ → List ℕ → Option (List ℕ)
reset_loop zero i flags = some flags
reset_loop (suc left) i flags = do stored ← write flags i 0; reset_loop left (i + 1) stored

-- while m <= n { SIEVE[m] = 1; m += p; }
pub mark_loop : ℕ → ℕ → ℕ → ℕ → List ℕ → Option (List ℕ)
mark_loop zero n p m flags = none
mark_loop (suc fuel) n p m flags = elim (leb m n) [
  | true ↦ do stored ← write flags m 1; mark_loop fuel n p (m + p) stored
  | false ↦ some flags
]

-- The body of the outer loop: if SIEVE[p] == 0 { mark from p * p }.
pub sieve_body : ℕ → ℕ → List ℕ → Option (List ℕ)
sieve_body n p flags = do
  flag ← get_elem? flags p
  if flag == 0 then mark_loop (n + 1) n p (p * p) flags else some flags

-- while p * p <= n { body; p += 1; }
pub sieve_loop : ℕ → ℕ → ℕ → List ℕ → Option (List ℕ)
sieve_loop zero n p flags = none
sieve_loop (suc fuel) n p flags = elim (leb (p * p) n) [
  | true ↦ do marked ← sieve_body n p flags; sieve_loop fuel n (p + 1) marked
  | false ↦ some flags
]

-- while i <= n { if SIEVE[i] == 0 { count += 1; } i += 1; }, with the rounds left.
pub count_loop : ℕ → ℕ → List ℕ → ℕ → Option ℕ
count_loop zero i flags count = some count
count_loop (suc left) i flags count = do
  flag ← get_elem? flags i
  count_loop left (i + 1) flags (if flag == 0 then count + 1 else count)

-- The result is the i32's bit pattern; -1 is 2 ^ 32 - 1.
pub sieve : List ℕ → ℕ → Option (ℕ × List ℕ)
sieve flags n = if ltb n_max n then some (2 ^ 32 - 1, flags) else do
  clear ← reset_loop (n + 1) 0 flags
  marked ← sieve_loop (n + 1) n 2 clear
  count ← count_loop (n - 1) 2 marked 0
  some (count, marked)

-- `sieve_reference` of crates/benchmark-core/src/lib.rs: the same loops on a fresh vector of n + 1
-- flags, `false` being 0; the filter over 2..=n counts as the guest's last loop does.
pub sieve_reference : ℕ → Option ℕ
sieve_reference n =
    if signed_ltb n 2
    then some 0
    else do marked ← sieve_loop (n + 1) n 2 (replicate (n + 1) 0); count_loop (n - 1) 2 marked 0
