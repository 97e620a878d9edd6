-- ===== src/Workload/Lcg.antt =====
-- The generator that every workload fills its input with, and the two shapes of the fill loop:
-- stores by index into a static buffer (workloads-rs) and a pass over the bytes (lib.rs).
use wasm_benchmark.Base.{
  ℕ, zero, suc, ◌+◌, ◌/◌, ◌<◌, ◌≡◌, refl, ap, List, [], ◌∷◌, ◌++◌, Option, some, arith, ◌>>=◌,
  write, write-eq-set, length, take, set, length-set, take-suc-set, take_all, All, IsU32, IsByte,
  wrapping_add, wrapping_mul, ◌^◌,
}
use mathlib.Core.List.{append_assoc, append-nil}
use native.Mathlib.Numerals.{add-one}

-- s.wrapping_mul(1664525).wrapping_add(1013904223)
unfoldable pub lcg : ℕ → ℕ
lcg s = wrapping_add (wrapping_mul s 1664525) 1013904223

-- `while i < N { s = lcg(s); INPUT[i] = (s >> 24) as u8; i += 1; }`, with N - i rounds left.
pub fill_loop : ℕ → ℕ → ℕ → List ℕ → Option (List ℕ)
fill_loop zero i s input = some input
fill_loop (suc left) i s input = do
  let s' = lcg s
  stored ← write input i (s' / 2 ^ 24)
  fill_loop left (i + 1) s' stored

-- `for byte in input.iter_mut() { s = lcg(s); *byte = (s >> 24) as u8; }` over n bytes.
unfoldable pub lcg_bytes : ℕ → ℕ → List ℕ
lcg_bytes zero s = []
lcg_bytes (suc n) s = let s' = lcg s in s' / 2 ^ 24 ∷ lcg_bytes n s'

pub lcg-IsU32 : (s : ℕ) → IsU32 (lcg s)
unfolding lcg
lcg-IsU32 s = omega arith

pub lcg_bytes-IsByte : (n s : ℕ) → All IsByte (lcg_bytes n s)
unfolding lcg_bytes
lcg_bytes-IsByte zero s = tt
lcg_bytes-IsByte (suc n) s = (omega (arith, lcg-IsU32 s), lcg_bytes-IsByte n (lcg s))

pub length-lcg_bytes : (n s : ℕ) → length (lcg_bytes n s) ≡ n
unfolding lcg_bytes
length-lcg_bytes zero s = refl
length-lcg_bytes (suc n) s = ap suc (length-lcg_bytes n (lcg s))

-- Storing from index i to the end of the buffer keeps what is below i and panics nowhere.
fill_loop-lcg_bytes :
    (left i s : ℕ) (input : List ℕ)
    → i + left ≡ length input
    → fill_loop left i s input ≡ some (take i input ++ lcg_bytes left s)
unfolding fill_loop lcg_bytes
fill_loop-lcg_bytes zero i s input e =
    rw (append-nil (take i input), take_all input i (omega arith)) refl
fill_loop-lcg_bytes (suc left) i s input e =
    let v : ℕ = lcg s / 2 ^ 24 in
    let in_range : i < length input = omega arith in
    rw
      (
        write-eq-set input i v in_range,
        add-one i,
        fill_loop-lcg_bytes left (suc i) (lcg s) (set input i v)
            (omega (arith, length-set input i v)),
        take-suc-set input i v in_range,
        append_assoc (take i input) (v ∷ []) (lcg_bytes left (lcg s)),
      )
      refl

-- The fill of a whole buffer is the pass over its bytes, whatever the buffer held.
pub fill_whole :
    (n s : ℕ) (input : List ℕ) → length input ≡ n → fill_loop n 0 s input ≡ some (lcg_bytes n s)
fill_whole n s input e = fill_loop-lcg_bytes n 0 s input (omega arith)
