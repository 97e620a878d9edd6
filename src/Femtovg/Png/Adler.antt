-- ===== src/Femtovg/Png/Adler.antt =====
-- The checksum of the PNG's stream against the sums that it stands for.
use wasm_benchmark.Base.{ℕ, ◌+◌, ◌*◌, ◌%◌, ◌^◌, ◌≡◌, ◌∙◌, arith, List, [], ◌∷◌}
use wasm_benchmark.Base.Bits.{or_comm, or_fields}
use wasm_benchmark.Femtovg.Png.{adler_loop}

-- One and the sum of the bytes, and the sum of these sums after each byte, from a and b on.
unfoldable pub byte_sum : List ℕ → ℕ → ℕ
byte_sum [] a = a
byte_sum (x ∷ xs) a = byte_sum xs (a + x)

unfoldable pub sum_of_sums : List ℕ → ℕ → ℕ → ℕ
sum_of_sums [] a b = b
sum_of_sums (x ∷ xs) a b = sum_of_sums xs (a + x) (b + (a + x))

adler_loop-sums :
    (xs : List ℕ) (a b : ℕ)
    → adler_loop xs (a % 65521) (b % 65521)
      ≡ byte_sum xs a % 65521 + sum_of_sums xs a b % 65521 * 2 ^ 16
unfolding adler_loop byte_sum sum_of_sums
adler_loop-sums [] a b =
    let high : b % 65521 * 2 ^ 16 % 2 ^ 32 ≡ b % 65521 * 2 ^ 16 = omega arith in
    rw high (
      or_comm (b % 65521 * 2 ^ 16) (a % 65521) ∙ or_fields 16 (b % 65521) (a % 65521) (omega arith))
adler_loop-sums (x ∷ xs) a b =
    let low : (a % 65521 + x) % 65521 ≡ (a + x) % 65521 = omega arith in
    let sums : (b % 65521 + (a + x) % 65521) % 65521 ≡ (b + (a + x)) % 65521 = omega arith in
    rw (low, sums) (adler_loop-sums xs (a + x) (b + (a + x)))

-- The loop's remainders at each step give the Adler-32: both sums modulo 65521, the second one
-- in the upper half.
adler_loop-adler :
    (xs : List ℕ) → adler_loop xs 1 0 ≡ byte_sum xs 1 % 65521 + sum_of_sums xs 1 0 % 65521 * 2 ^ 16
adler_loop-adler xs = adler_loop-sums xs 1 0
