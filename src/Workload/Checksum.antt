-- ===== src/Workload/Checksum.antt =====
-- The sum of a buffer's bytes that the guests' `convolve` and `bulk_memory` end with, and the two
-- shapes of its loop: reads by index (workloads-rs) and a fold over the bytes (lib.rs).
use wasm_benchmark.Base.{
  ℕ, zero, suc, ◌+◌, ◌*◌, ◌^◌, ◌≤◌, ◌<◌, ◌≡◌, refl, ap, arith, List, [], ◌∷◌, Option, none, some,
  ◌>>=◌, length, get_elem?, get_or, get_elem?-get_or, All, IsByte, wrapping_add,
}
use native.Mathlib.Numerals.{add-one}

-- The n values of f from i on, added up.
unfoldable pub sum_from : (ℕ → ℕ) → ℕ → ℕ → ℕ
sum_from f i zero = 0
sum_from f i (suc n) = f i + sum_from f (i + 1) n

-- `while i < N { sum = sum.wrapping_add(OUT_BUF[i] as u32); i += 1; }`, with N - i rounds left.
unfoldable pub sum_loop : ℕ → ℕ → List ℕ → ℕ → Option ℕ
sum_loop zero i buf sum = some sum
sum_loop (suc left) i buf sum = do
  v ← get_elem? buf i
  sum_loop left (i + 1) buf (wrapping_add sum v)

-- `buf.iter().fold(sum, |a, &b| a.wrapping_add(b as u32))`
unfoldable pub fold_sum : List ℕ → ℕ → ℕ
fold_sum [] sum = sum
fold_sum (v ∷ buf) sum = fold_sum buf (wrapping_add sum v)

pub sum_from_congr :
    (f g : ℕ → ℕ) (i n : ℕ)
    → ((j : ℕ) → i ≤ j → j < i + n → f j ≡ g j)
    → sum_from f i n ≡ sum_from g i n
unfolding sum_from
sum_from_congr f g i zero h = refl
sum_from_congr f g i (suc n) h =
    rw
      (
        h i (omega arith) (omega arith),
        sum_from_congr f g (i + 1) n (λ j a b. h j (omega arith) (omega arith)),
      )
      refl

pub get_or-IsByte : (xs : List ℕ) (j : ℕ) → All IsByte xs → get_or xs j 0 < 256
get_or-IsByte [] j h = omega arith
get_or-IsByte (x ∷ xs) zero h = h.0
get_or-IsByte (x ∷ xs) (suc j) h = get_or-IsByte xs j h.1

-- Reading in turn by index is reading the bytes in turn.
sum_loop_beyond :
    (x : ℕ) (xs : List ℕ) (left i sum : ℕ)
    → sum_loop left (suc i) (x ∷ xs) sum ≡ sum_loop left i xs sum
unfolding sum_loop
sum_loop_beyond x xs zero i sum = refl
sum_loop_beyond x xs (suc left) i sum =
    elim (get_elem? xs i)
      as (λ r.
        (r >>= λ v. sum_loop left (suc i + 1) (x ∷ xs) (wrapping_add sum v))
        ≡ (r >>= λ v. sum_loop left (i + 1) xs (wrapping_add sum v))) [
          | none ↦ refl
          | some v ↦
              rw (add-one i, add-one (suc i))
                (sum_loop_beyond x xs left (suc i) (wrapping_add sum v))
        ]

pub sum_loop-fold_sum :
    (xs : List ℕ) (sum : ℕ) → sum_loop (length xs) 0 xs sum ≡ some (fold_sum xs sum)
unfolding sum_loop fold_sum
sum_loop-fold_sum [] sum = refl
sum_loop-fold_sum (x ∷ xs) sum =
    rw (sum_loop_beyond x xs (length xs) 0 (wrapping_add sum x))
      (sum_loop-fold_sum xs (wrapping_add sum x))

-- While the sum stays small it does not wrap.
pub sum_loop-sum_from :
    (f : ℕ → ℕ) (left i : ℕ) (buf : List ℕ) (sum : ℕ)
    → i + left ≡ length buf
    → ((j : ℕ) → j < length buf → get_or buf j 0 ≡ f j)
    → ((j : ℕ) → f j < 256)
    → sum + 256 * left ≤ 2 ^ 32
    → sum_loop left i buf sum ≡ some (sum + sum_from f i left)
unfolding sum_loop sum_from
sum_loop-sum_from f zero i buf sum e same small fits = ap some (omega arith)
sum_loop-sum_from f (suc left) i buf sum e same small fits =
    let here : get_or buf i 0 ≡ f i = same i (omega arith) in
    let added : wrapping_add sum (f i) ≡ sum + f i = omega (arith, small i) in
    rw
      (
        get_elem?-get_or buf i 0 (omega arith),
        here,
        added,
        sum_loop-sum_from f left (i + 1) buf (sum + f i) (omega arith) same small
            (omega (arith, small i)),
      )
      (ap some (omega arith))

-- A sum of n values is at most n times their bound.
pub sum_from-le : (b : ℕ) (f : ℕ → ℕ) (i n : ℕ) → ((j : ℕ) → f j ≤ b) → sum_from f i n ≤ b * n
unfolding sum_from
sum_from-le b f i zero small = omega arith
sum_from-le b f i (suc n) small = omega (arith, small i, sum_from-le b f (i + 1) n small)
