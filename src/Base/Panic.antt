-- ===== src/Base/Panic.antt =====
-- Code that may panic: `none` is a panic, as an index out of bounds raises it.
use Prim.Native.Nat.{ℕ, ◌<◌}
use mathlib.Core.Path.{◌≡◌, refl}
use mathlib.Core.List.{List}
use mathlib.Core.Option.{Option, none, some}
use native.Mathlib.Omega.{arith}
use wasm_benchmark.Base.Tests.{ltb, if◌then◌else◌}
use wasm_benchmark.Base.Lists.{length, set}

infixl 5 ◌>>=◌ ◌>>◌
abbrev pub ◌>>=◌ {ℓ κ} : {A : Type ℓ} {B : Type κ} → Option A → (A → Option B) → Option B
none >>= f = none
some a >>= f = f a

abbrev pub ◌>>◌ {ℓ κ} : {A : Type ℓ} {B : Type κ} → Option A → Option B → Option B
m >> k = m >>= λ _. k

-- `xs[i] = v`, which panics out of bounds. A read `xs[i]` is `get_elem? xs i`.
unfoldable pub write {ℓ} : {A : Type ℓ} → List A → ℕ → A → Option (List A)
write xs i v = if ltb i (length xs) then some (set xs i v) else none

pub write-eq-set {ℓ} :
    {A : Type ℓ} (xs : List A) (i : ℕ) (v : A) → i < length xs → write xs i v ≡ some (set xs i v)
unfolding write
write-eq-set xs i v h = ground arith

pub bind_congr {ℓ κ} :
    {A : Type ℓ} {B : Type κ} (m : Option A) (f g : A → Option B)
    → ((a : A) → f a ≡ g a)
    → (m >>= f) ≡ (m >>= g)
bind_congr none f g h = refl
bind_congr (some a) f g h = h a
