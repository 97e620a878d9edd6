-- ===== src/Workload/Bulk/Overlay.antt =====
-- Two buffers of one length that the same bytes are copied into, as in workloads-rs/bulk_memory.rs.
use wasm_benchmark.Base.{
  ℕ, zero, suc, ◌+◌, ◌≤◌, ◌<◌, ◌≡◌, refl, ap, arith, List, [], ◌∷◌, some, length, get_or, take,
  drop, length-take, length-drop,
}
use wasm_benchmark.Workload.Bulk.{overlay, slice_at, copy_to}

pub length-overlay :
    (dst : List ℕ) (off : ℕ) (bytes : List ℕ) → length (overlay dst off bytes) ≡ length dst
unfolding overlay
length-overlay [] off bytes = refl
length-overlay (x ∷ dst) (suc off) bytes = ap suc (length-overlay dst off bytes)
length-overlay (x ∷ dst) zero [] = refl
length-overlay (x ∷ dst) zero (b ∷ bytes) = ap suc (length-overlay dst zero bytes)

-- Where two buffers agree, they still do.
pub overlay_keeps :
    (a b : List ℕ) (off : ℕ) (bytes : List ℕ) (j : ℕ)
    → length a ≡ length b
    → get_or a j 0 ≡ get_or b j 0
    → get_or (overlay a off bytes) j 0 ≡ get_or (overlay b off bytes) j 0
unfolding overlay
overlay_keeps [] [] off bytes j e same = refl
overlay_keeps [] (y ∷ b) off bytes j e same = absurd (omega arith)
overlay_keeps (x ∷ a) [] off bytes j e same = absurd (omega arith)
overlay_keeps (x ∷ a) (y ∷ b) (suc off) bytes zero e same = same
overlay_keeps (x ∷ a) (y ∷ b) (suc off) bytes (suc j) e same =
    overlay_keeps a b off bytes j (omega arith) same
overlay_keeps (x ∷ a) (y ∷ b) zero [] j e same = same
overlay_keeps (x ∷ a) (y ∷ b) zero (z ∷ bytes) zero e same = refl
overlay_keeps (x ∷ a) (y ∷ b) zero (z ∷ bytes) (suc j) e same =
    overlay_keeps a b zero bytes j (omega arith) same

-- Where they are overwritten they agree.
pub overlay_covers :
    (a b : List ℕ) (off : ℕ) (bytes : List ℕ) (j : ℕ)
    → length a ≡ length b
    → off ≤ j
    → j < off + length bytes
    → get_or (overlay a off bytes) j 0 ≡ get_or (overlay b off bytes) j 0
unfolding overlay
overlay_covers [] [] off bytes j e from to = refl
overlay_covers [] (y ∷ b) off bytes j e from to = absurd (omega arith)
overlay_covers (x ∷ a) [] off bytes j e from to = absurd (omega arith)
overlay_covers (x ∷ a) (y ∷ b) (suc off) bytes zero e from to = absurd (omega arith)
overlay_covers (x ∷ a) (y ∷ b) (suc off) bytes (suc j) e from to =
    overlay_covers a b off bytes j (omega arith) (omega arith) (omega arith)
overlay_covers (x ∷ a) (y ∷ b) zero [] j e from to = absurd (omega arith)
overlay_covers (x ∷ a) (y ∷ b) zero (z ∷ bytes) zero e from to = refl
overlay_covers (x ∷ a) (y ∷ b) zero (z ∷ bytes) (suc j) e from to =
    overlay_covers a b zero bytes j (omega arith) (omega arith) (omega arith)

pub copy_to-overlay :
    (dst : List ℕ) (off : ℕ) (bytes : List ℕ)
    → off + length bytes ≤ length dst
    → copy_to dst off bytes ≡ some (overlay dst off bytes)
unfolding copy_to
copy_to-overlay dst off bytes h = ground arith

-- A slice inside the buffer has its size.
pub slice_at_inside :
    (src : List ℕ) (off size : ℕ)
    → off + size ≤ length src
    → (chunk : List ℕ) × (slice_at src off size ≡ some chunk) × (length chunk ≡ size)
unfolding slice_at
slice_at_inside src off size h = (
  take size (drop off src),
  ground arith,
  omega (arith, length-take size (drop off src), length-drop off src),
)

-- Buffers that agree at every index are the same.
pub get_or_ext :
    (a b : List ℕ)
    → length a ≡ length b
    → ((j : ℕ) → j < length a → get_or a j 0 ≡ get_or b j 0)
    → a ≡ b
get_or_ext [] [] e same = refl
get_or_ext [] (y ∷ b) e same = absurd (omega arith)
get_or_ext (x ∷ a) [] e same = absurd (omega arith)
get_or_ext (x ∷ a) (y ∷ b) e same =
    rw (same 0 (omega arith), get_or_ext a b (omega arith) (λ j h. same (suc j) (omega arith))) refl
