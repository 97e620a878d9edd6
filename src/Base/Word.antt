-- ===== src/Base/Word.antt =====
-- Machine words as native numbers. A u32, and the bit pattern of an i32, is a number below 2 ^ 32.
use Prim.Native.Nat.{ℕ, ◌+◌, ◌-◌, ◌*◌, ◌%◌, ◌^◌, ◌<◌}
use mathlib.Core.Bool.{Bool}
use wasm_benchmark.Base.Tests.{ltb, leb}

abbrev pub u32_size : ℕ
u32_size = 2 ^ 32

-- The least bit pattern whose sign bit is set: it stands for i32::MIN.
abbrev pub i32_sign : ℕ
i32_sign = 2 ^ 31

abbrev pub IsU32 : ℕ → Type 0
IsU32 x = x < 2 ^ 32

abbrev pub IsByte : ℕ → Type 0
IsByte x = x < 256

-- `wrapping_add`, `wrapping_sub` and `wrapping_mul`, of u32 and of i32 patterns alike.
abbrev pub wrapping_add : ℕ → ℕ → ℕ
wrapping_add a b = (a + b) % 2 ^ 32

abbrev pub wrapping_sub : ℕ → ℕ → ℕ
wrapping_sub a b = (a + 2 ^ 32 - b) % 2 ^ 32

abbrev pub wrapping_mul : ℕ → ℕ → ℕ
wrapping_mul a b = (a * b) % 2 ^ 32

-- `!x` on a u32.
abbrev pub not32 : ℕ → ℕ
not32 x = 2 ^ 32 - 1 - x

-- The order of two i32 values, read from their patterns: a shift by 2 ^ 31 makes it unsigned.
abbrev pub signed_rank : ℕ → ℕ
signed_rank x = (x + 2 ^ 31) % 2 ^ 32

abbrev pub signed_ltb : ℕ → ℕ → Bool
signed_ltb a b = ltb (signed_rank a) (signed_rank b)

abbrev pub signed_leb : ℕ → ℕ → Bool
signed_leb a b = leb (signed_rank a) (signed_rank b)
