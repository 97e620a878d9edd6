-- ===== src/Workload/Bulk/Stripes.antt =====
-- Which bytes of a destination the stripes of workloads-rs/bulk_memory.rs reach.
use wasm_benchmark.Base.{
  ℕ, zero, suc, ◌+◌, ◌*◌, ◌/◌, ◌%◌, ◌<◌, ◌≡◌, ◌∙◌, sym, refl, ap, arith, Bool, true, false, ◌&&◌,
  ◌||◌, List, some, length, ◌==◌,
}
use mathlib.Core.Path.{subst}
use native.Mathlib.Numerals.{add-one}
use native.Mathlib.Decide.{ℕ_discrete}
use wasm_benchmark.Workload.Bulk.{buffer_size, rounds, round_loop}
use wasm_benchmark.Workload.Bulk.Overlay.{get_or_ext}
use wasm_benchmark.Workload.Bulk.Rounds.{AgreeAt, stripe, round_step-Follows}

-- Whether a stripe of 4096 bytes starts at block b in one of the first k rounds.
unfoldable pub covered : ℕ → ℕ → Bool
covered zero b = false
covered (suc k) b = (k % 5 == 4 && stripe k == b * 4096) || covered k b

unfoldable pub all_covered : ℕ → Bool
all_covered zero = true
all_covered (suc n) = covered rounds n && all_covered n

blocks_covered : all_covered 16 ≡ true
unfolding all_covered covered
blocks_covered = refl

below_covered : (n b : ℕ) → all_covered n ≡ true → b < n → covered rounds b ≡ true
unfolding all_covered
below_covered zero b all h = absurd (omega arith)
below_covered (suc n) b all h = elim (ℕ_discrete b n) [
  | yes e ↦ ground (arith, e, all)
  | no ne ↦ below_covered n b (ground (arith, all)) (omega (arith, ne))
]

-- A block that is covered is so by the last round or by one before.
covered_next :
    {C : Type 0} (k b : ℕ)
    → covered (suc k) b ≡ true
    → (k % 5 ≡ 4 → stripe k ≡ b * 4096 → C)
    → (covered k b ≡ true → C)
    → C
unfolding covered
covered_next {C = C} k b h last before =
    elim (covered k b) as (λ c. covered k b ≡ c → C) [
      | true ↦ before
      | false ↦ λ e. last (ground (arith, e, h)) (ground (arith, e, h))
    ]
      refl

module _ (src : List ℕ) (whole : length src ≡ buffer_size) where
  -- The destinations agree on the blocks that a stripe has covered so far.
  round_loop-covered :
      (left k : ℕ) (a b : List ℕ)
      → k + left ≡ rounds
      → length a ≡ buffer_size
      → length b ≡ buffer_size
      → ((j : ℕ) → covered k (j / 4096) ≡ true → AgreeAt a b j)
      → (a' : List ℕ) × (b' : List ℕ) × (round_loop left k src a ≡ some a')
        × (round_loop left k src b ≡ some b')
        × (length a' ≡ buffer_size)
        × (length b' ≡ buffer_size)
        × ((j : ℕ) → covered rounds (j / 4096) ≡ true → AgreeAt a' b' j)
  unfolding round_loop
  round_loop-covered zero k a b e la lb agree =
      let end : k ≡ rounds = omega arith in
      (a, b, refl, refl, la, lb, λ j h. agree j (ap (λ t. covered t (j / 4096)) end ∙ h))
  round_loop-covered (suc left) k a b e la lb agree =
      let (a1, b1, ra, rb, f, striped) = round_step-Follows src whole k a b la lb in
      let agree_next : (j : ℕ) → covered (k + 1) (j / 4096) ≡ true → AgreeAt a1 b1 j = λ j h.
        covered_next k (j / 4096) (subst (λ t. covered t (j / 4096) ≡ true) (add-one k) h)
          (λ last from. striped last j (omega (arith, from)) (omega (arith, from)))
          (λ before. f.2 j (agree j before)) in
      let (a', b', ra', rb', la', lb', agree') =
        round_loop-covered left (k + 1) a1 b1 (omega arith) f.0 f.1 (agree_next) in
      (a', b', rw ra ra', rw rb rb', la', lb', agree')

  -- Two destinations end up the same, whatever they held.
  pub round_loop-same :
      (a b : List ℕ)
      → length a ≡ buffer_size
      → length b ≡ buffer_size
      → (out : List ℕ) × (round_loop rounds 0 src a ≡ some out)
        × (round_loop rounds 0 src b ≡ some out)
        × (length out ≡ buffer_size)
  unfolding covered
  round_loop-same a b la lb =
      let (a', b', ra, rb, la', lb', agree) =
        round_loop-covered rounds 0 a b refl la lb (λ j h. cc h) in
      let same : b' ≡ a' =
        get_or_ext b' a' (lb' ∙ sym la')
          (λ j h. sym (agree j (below_covered 16 (j / 4096) blocks_covered (omega arith)))) in
      (a', ra, rb ∙ ap some same, la')
