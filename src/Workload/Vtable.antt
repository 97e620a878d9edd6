-- ===== src/Workload/Vtable.antt =====
-- workloads-rs/vtable_dispatch.rs. A vtable is the constructor of its static; a call through it is
-- a function by cases on it. `none` is a panic of an index.
pub mod Rotation
mod Runs
use wasm_benchmark.Base.{
  ℕ, zero, suc, ◌+◌, ◌*◌, ◌-◌, ◌/◌, ◌%◌, ◌^◌, List, [], ◌∷◌, Option, none, some, ◌>>=◌, bit_or,
  bit_and, bit_xor, wrapping_add, wrapping_sub, wrapping_mul, get_elem?, ◌==◌, if◌then◌else◌,
}

pub data Algorithm : Type 0 where
  aes_gcm sha256 hmac ecdsa ed25519 rsa_pss : Algorithm

-- Rotations of a u32 by k digits, 0 < k < 32.
abbrev pub rotate_left : ℕ → ℕ → ℕ
rotate_left s k = bit_or (s * 2 ^ k % 2 ^ 32) (s / 2 ^ (32 - k))

abbrev pub rotate_right : ℕ → ℕ → ℕ
rotate_right s k = bit_or (s / 2 ^ k) (s * 2 ^ (32 - k) % 2 ^ 32)

unfoldable pub digest_step : Algorithm → ℕ → ℕ → ℕ
digest_step aes_gcm state input = wrapping_add state (wrapping_mul input 0x9E3779B1)
digest_step sha256 state input =
    let e = wrapping_add state input in wrapping_add (rotate_right e 17) e
digest_step hmac state input = wrapping_add (wrapping_mul state (wrapping_add input 1)) 0xDEADBEEF
digest_step ecdsa state input = bit_xor state (rotate_left input 13)
digest_step ed25519 state input = wrapping_add (rotate_right state 7) (bit_xor input 0xA5A5A5A5)
digest_step rsa_pss state input = wrapping_mul (rotate_left (wrapping_add state input) 3) 0x1B873593

unfoldable pub mix : Algorithm → ℕ → ℕ → ℕ
mix aes_gcm a b = bit_xor (rotate_left a 5) b
mix sha256 a b = wrapping_add a (wrapping_mul b 0x9E3779B9)
mix hmac a b = wrapping_add (bit_xor a b) (bit_xor (rotate_left a 7) (rotate_right b 25))
mix ecdsa a b = wrapping_mul (wrapping_add a b) 0xC2B2AE35
mix ed25519 a b = wrapping_add (wrapping_mul a b) (rotate_left b 11)
mix rsa_pss a b = bit_xor (wrapping_add a b) (wrapping_mul (rotate_right a 13) (bit_or b 1))

unfoldable pub finalize : Algorithm → ℕ → ℕ
finalize aes_gcm s = bit_xor s (s / 2 ^ 16)
finalize sha256 s = wrapping_mul (rotate_left s 13) 0x85EBCA6B
finalize hmac s = bit_xor (rotate_left s 11) (rotate_right s 19)
finalize ecdsa s = wrapping_mul s 0xCC9E2D51
finalize ed25519 s = bit_xor s (rotate_right (wrapping_mul s 0x9E3779B9) 15)
finalize rsa_pss s = wrapping_sub (rotate_left s 5) (rotate_right s 11)

unfoldable pub pick_alg : ℕ → Algorithm
pick_alg idx =
    let r = idx % 6 in
    if r == 0
    then aes_gcm
    else if r == 1
    then sha256
    else if r == 2
    then hmac
    else if r == 3
    then ecdsa
    else if r == 4
    then ed25519
    else rsa_pss

abbrev pub iters : ℕ
iters = 200_000

-- One round of each loop, on the vtable that it picks.
unfoldable pub round : Algorithm → ℕ → ℕ → ℕ
round alg state i = mix alg (digest_step alg state i) (wrapping_mul i 31)

-- The `while` of the entries, with the rounds left; `algs` and `step` say which vtable round i
-- takes: `algs[(i & 3)]`, `algs[(i % 6)]`.
unfoldable pub vtable_loop : ℕ → ℕ → List Algorithm → (ℕ → ℕ) → ℕ → Option ℕ
vtable_loop zero i algs step state = some state
vtable_loop (suc left) i algs step state = do
  alg ← get_elem? algs (step i)
  vtable_loop left (i + 1) algs step (round alg state i)

unfoldable pub vtable_mono : ℕ → Option ℕ
vtable_mono seed =
    let alg = pick_alg seed in
    vtable_loop iters 0 (alg ∷ []) (λ _. 0) seed >>= λ state. some (finalize alg state)

-- `if (i & 1) == 0 { a } else { b }`
unfoldable pub vtable_bi : ℕ → Option ℕ
vtable_bi seed =
    vtable_loop iters 0 (pick_alg seed ∷ pick_alg (wrapping_add seed 1) ∷ [])
      (λ i. if bit_and i 1 == 0 then 0 else 1) seed

unfoldable pub poly4_algs : ℕ → List Algorithm
poly4_algs seed =
    pick_alg seed
    ∷ pick_alg (wrapping_add seed 1)
    ∷ pick_alg (wrapping_add seed 2)
    ∷ pick_alg (wrapping_add seed 3)
    ∷ []

unfoldable pub vtable_poly4 : ℕ → Option ℕ
vtable_poly4 seed = vtable_loop iters 0 (poly4_algs seed) (λ i. bit_and i 3) seed

unfoldable pub poly6_algs : ℕ → List Algorithm
poly6_algs seed =
    pick_alg seed
    ∷ pick_alg (wrapping_add seed 1)
    ∷ pick_alg (wrapping_add seed 2)
    ∷ pick_alg (wrapping_add seed 3)
    ∷ pick_alg (wrapping_add seed 4)
    ∷ pick_alg (wrapping_add seed 5)
    ∷ []

unfoldable pub vtable_poly6 : ℕ → Option ℕ
vtable_poly6 seed = vtable_loop iters 0 (poly6_algs seed) (λ i. i % 6) seed
