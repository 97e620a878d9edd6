-- ===== src/Workload/Vtable/Rotation.antt =====
-- Which vtables the entry with six of them calls.
use wasm_benchmark.Base.{
  ℕ, zero, suc, ◌+◌, ◌-◌, ◌%◌, ◌^◌, ◌<◌, ◌≡◌, ◌≢◌, refl, ap, ◌∙◌, arith, List, [], ◌∷◌, some,
  get_elem?, length, get_or, get_elem?-get_or,
}
use wasm_benchmark.Base.Bits.{and-le}
use wasm_benchmark.Workload.Vtable.{
  Algorithm, aes_gcm, sha256, hmac, ecdsa, ed25519, rsa_pss, pick_alg, poly6_algs, vtable_loop,
  vtable_poly6, iters, round, vtable_mono, vtable_bi, vtable_poly4, poly4_algs, finalize,
}

-- The remainder by six that picks a vtable.
abbrev index_of : Algorithm → ℕ
index_of aes_gcm = 0
index_of sha256 = 1
index_of hmac = 2
index_of ecdsa = 3
index_of ed25519 = 4
index_of rsa_pss = 5

index_of-lt : (alg : Algorithm) → index_of alg < 6
index_of-lt aes_gcm = omega arith
index_of-lt sha256 = omega arith
index_of-lt hmac = omega arith
index_of-lt ecdsa = omega arith
index_of-lt ed25519 = omega arith
index_of-lt rsa_pss = omega arith

pick_alg-index_of : (alg : Algorithm) (n : ℕ) → n % 6 ≡ index_of alg → pick_alg n ≡ alg
unfolding pick_alg
pick_alg-index_of aes_gcm n h = ground arith
pick_alg-index_of sha256 n h = ground arith
pick_alg-index_of hmac n h = ground arith
pick_alg-index_of ecdsa n h = ground arith
pick_alg-index_of ed25519 n h = ground arith
pick_alg-index_of rsa_pss n h = ground arith

poly6_algs-pick_alg :
    (seed k : ℕ)
    → seed + 5 < 2 ^ 32
    → k < 6
    → get_elem? (poly6_algs seed) k ≡ some (pick_alg (seed + k))
unfolding poly6_algs
poly6_algs-pick_alg seed zero hs hk = ap (λ (n : ℕ). some (pick_alg n)) (omega arith)
poly6_algs-pick_alg seed (suc zero) hs hk = ap (λ (n : ℕ). some (pick_alg n)) (omega arith)
poly6_algs-pick_alg seed (suc (suc zero)) hs hk = ap (λ (n : ℕ). some (pick_alg n)) (omega arith)
poly6_algs-pick_alg seed (suc (suc (suc zero))) hs hk =
    ap (λ (n : ℕ). some (pick_alg n)) (omega arith)
poly6_algs-pick_alg seed (suc (suc (suc (suc zero)))) hs hk =
    ap (λ (n : ℕ). some (pick_alg n)) (omega arith)
poly6_algs-pick_alg seed (suc (suc (suc (suc (suc zero))))) hs hk =
    ap (λ (n : ℕ). some (pick_alg n)) (omega arith)
poly6_algs-pick_alg seed (suc (suc (suc (suc (suc (suc k)))))) hs hk = absurd (omega arith)

-- Unless the seed is within five of the end of the u32s, each of the six vtables is in the table
-- of the six-way entry, at one index of the rotation.
poly6_algs_all :
    (seed : ℕ) (alg : Algorithm)
    → seed + 5 < 2 ^ 32
    → (k : ℕ) × (k < 6) × (get_elem? (poly6_algs seed) k ≡ some alg)
poly6_algs_all seed alg h =
    let k : ℕ = (index_of alg + 6 - seed % 6) % 6 in
    let place : (seed + k) % 6 ≡ index_of alg = omega (arith, index_of-lt alg) in
    (
      k,
      omega arith,
      poly6_algs-pick_alg seed k h (omega arith) ∙ ap some (pick_alg-index_of alg (seed + k) place),
    )

-- At the seed -1 one of the six is missing: the table wraps around to the start.
poly6_algs_misses : (k : ℕ) → get_elem? (poly6_algs (2 ^ 32 - 1)) k ≢ some rsa_pss
unfolding poly6_algs pick_alg
poly6_algs_misses zero e = ground arith
poly6_algs_misses (suc zero) e = ground arith
poly6_algs_misses (suc (suc zero)) e = ground arith
poly6_algs_misses (suc (suc (suc zero))) e = ground arith
poly6_algs_misses (suc (suc (suc (suc zero)))) e = ground arith
poly6_algs_misses (suc (suc (suc (suc (suc zero))))) e = ground arith
poly6_algs_misses (suc (suc (suc (suc (suc (suc k)))))) e = ground arith

-- The loops end without a panic where every index is in the table.
vtable_loop_ends :
    (left i : ℕ) (algs : List Algorithm) (step : ℕ → ℕ) (state : ℕ)
    → ((j : ℕ) → step j < length algs)
    → (out : ℕ) × (vtable_loop left i algs step state ≡ some out)
unfolding vtable_loop
vtable_loop_ends zero i algs step state h = (state, refl)
vtable_loop_ends (suc left) i algs step state h =
    let alg = get_or algs (step i) aes_gcm in
    let (out, rest) = vtable_loop_ends left (i + 1) algs step (round alg state i) h in
    (out, rw (get_elem?-get_or algs (step i) aes_gcm (h i)) rest)

-- On any seed the four entries end without a panic.
pub vtable_ends :
    (seed : ℕ)
    → ((out : ℕ) × (vtable_mono seed ≡ some out))
      × ((out : ℕ) × (vtable_bi seed ≡ some out))
      × ((out : ℕ) × (vtable_poly4 seed ≡ some out))
      × ((out : ℕ) × (vtable_poly6 seed ≡ some out))
unfolding vtable_mono vtable_bi vtable_poly4 poly4_algs vtable_poly6 poly6_algs
vtable_ends seed =
    let (one, mono_ends) =
      vtable_loop_ends iters 0 (pick_alg seed ∷ []) (λ _. 0) seed (λ j. omega arith) in
    (
      (finalize (pick_alg seed) one, rw mono_ends refl),
      vtable_loop_ends iters 0 _ _ seed (λ j. ground arith),
      vtable_loop_ends iters 0 _ _ seed (λ j. omega (arith, and-le j 3)),
      vtable_loop_ends iters 0 _ _ seed (λ j. omega arith),
    )
