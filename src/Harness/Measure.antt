-- ===== src/Harness/Measure.antt =====
-- `measure_calls` and `measure_samples` of crates/benchmark-core/src/lib.rs. The guest is a
-- parameter: a state of some type, and a call that returns a value with the time that it took, or
-- fails. The kernel's counters are parameters, as in Window.
pub mod Calls
pub mod Failures
pub mod Keeps
mod Runs
use wasm_benchmark.Base.{
  ℕ, zero, suc, ◌*◌, List, [], ◌∷◌, ◌++◌, Option, none, some, ◌==◌, if◌then◌else◌,
}
use wasm_benchmark.Harness.Iters.{pick_iters}
use wasm_benchmark.Harness.Window.{Window, After, RunReport, finish}

-- One call: the i32 and the elapsed nanoseconds, or an error.
pub data Attempt (E : Type 0) : Type 0 where
  returned : ℕ → ℕ → Attempt E
  failed : E → Attempt E

-- The error with the context that `?` and `.context(...)` put on it.
pub data Failure (E : Type 0) : Type 0 where
  init_warmup steady_warmup timed : E → Failure E

pub data Answer (E A : Type 0) : Type 0 where
  ok : A → Answer E A
  err : Failure E → Answer E A
  panic : Answer E A

-- Duration::from_millis(200)
abbrev pub target_window : ℕ
target_window = 200 * 1_000_000

-- `if iters == 0 { pick_iters(warm, ..) } else { iters }`
unfoldable pub rounds_for : Option ℕ → ℕ → ℕ → Option ℕ
rounds_for env iters warm = if iters == 0 then pick_iters env warm target_window else some iters

-- A report, or the panic of `finish`.
abbrev pub or_panic : {E A : Type 0} → Option A → Answer E A
or_panic none = panic
or_panic (some a) = ok a

module _ {S E : Type 0} (call : S → Attempt E × S) where
  -- The timed loop, with the rounds left; it ends in `finish` or at a failed call.
  pub timed_loop : Window → After → ℕ → ℕ → ℕ → ℕ → List ℕ → S → Answer E RunReport × S
  timed_loop w after load n zero result samples s =
      (or_panic (finish w after result n load samples), s)
  timed_loop w after load n (suc left) result samples s =
      let (attempt, s') = call s in
      elim attempt [
        | returned v ns ↦ timed_loop w after load n left v (samples ++ ns ∷ []) s'
        | failed e ↦ (err (timed e), s')
      ]

  pub timed_part : Window → After → ℕ → Option ℕ → ℕ → S → Answer E RunReport × S
  timed_part w after load none result s = (panic, s)
  timed_part w after load (some n) result s = timed_loop w after load n n result [] s

  pub measure_calls : Option ℕ → Window → After → ℕ → ℕ → S → Answer E RunReport × S
  measure_calls env w after load iters s =
      let (first, s₁) = call s in
      elim first [
        | failed e ↦ (err (init_warmup e), s₁)
        | returned _ _ ↦
            let (second, s₂) = call s₁ in
            elim second [
              | failed e ↦ (err (steady_warmup e), s₂)
              | returned v warm ↦ timed_part w after load (rounds_for env iters warm) v s₂
            ]
      ]

  -- The same with samples that time themselves, and always a count from `pick_iters`.
  pub measure_samples : Option ℕ → Window → After → ℕ → S → Answer E RunReport × S
  measure_samples env w after load s =
      let (first, s₁) = call s in
      elim first [
        | failed e ↦ (err (init_warmup e), s₁)
        | returned _ _ ↦
            let (second, s₂) = call s₁ in
            elim second [
              | failed e ↦ (err (steady_warmup e), s₂)
              | returned warm_result warm ↦
                  timed_part w after load (pick_iters env warm target_window) warm_result s₂
            ]
      ]
