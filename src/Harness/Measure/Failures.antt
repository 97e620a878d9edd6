-- ===== src/Harness/Measure/Failures.antt =====
-- A measurement with a call that fails.
use wasm_benchmark.Base.{ℕ, zero, suc, ◌+◌, ◌<◌, ◌≡◌, refl, ◌∙◌, arith, List, [], Option, some}
use wasm_benchmark.Harness.Window.{Window, After}
use wasm_benchmark.Harness.Measure.{
  Attempt, failed, Failure, init_warmup, steady_warmup, timed, err, rounds_for, timed_loop,
  timed_part, measure_calls, measure_samples,
}
use wasm_benchmark.Harness.Measure.Calls.{
  time_of, state_after, attempt_at, AllReturn, AllReturn-next, timed_loop_step, warmups,
}

-- The context that names the place of call k.
abbrev pub failure_at : {E : Type 0} → ℕ → E → Failure E
failure_at zero e = init_warmup e
failure_at (suc zero) e = steady_warmup e
failure_at (suc (suc k)) e = timed e

module _ {S E : Type 0} (call : S → Attempt E × S) where
  timed_loop_fails :
      (w : Window) (after : After) (load n left k result : ℕ) (samples : List ℕ) (s : S) (e : E)
      → k < left
      → AllReturn call k s
      → attempt_at call k s ≡ failed e
      → timed_loop call w after load n left result samples s
        ≡ (err (timed e), state_after call (suc k) s)
  unfolding timed_loop
  timed_loop_fails w after load n zero k result samples s e hk h f = absurd (omega arith)
  timed_loop_fails w after load n (suc left) zero result samples s e hk h f =
      rw (f, timed_loop) refl
  timed_loop_fails w after load n (suc left) (suc k) result samples s e hk h f =
      timed_loop_step call w after load n left result samples s _ _ (h 0 (omega arith))
      ∙ timed_loop_fails w after load n left k _ _ (call s).1 e (omega arith)
          (AllReturn-next call k s h) f

  -- The first failed call ends the measurement: the error says which part it stood in, and no
  -- call is made after it.
  pub measure_calls_fails :
      (env : Option ℕ) (w : Window) (after : After) (load iters n k : ℕ) (s : S) (e : E)
      → k < n + 2
      → AllReturn call k s
      → attempt_at call k s ≡ failed e
      → rounds_for env iters (time_of (attempt_at call 1 s)) ≡ some n
      → measure_calls call env w after load iters s
        ≡ (err (failure_at k e), state_after call (suc k) s)
  unfolding measure_calls timed_part
  measure_calls_fails env w after load iters n zero s e hk h f sized = rw (f, measure_calls) refl
  measure_calls_fails env w after load iters n (suc zero) s e hk h f sized =
      rw (h 0 (omega arith), measure_calls, f) refl
  measure_calls_fails env w after load iters n (suc (suc k)) s e hk h f sized =
      warmups call env w after load iters s _ _ _ _ (h 0 (omega arith)) (h 1 (omega arith))
      ∙ rw sized (
          timed_loop_fails w after load n n k _ [] (state_after call 2 s) e (omega arith)
            (AllReturn-next call k (call s).1 (AllReturn-next call (suc k) s h)) f)

  -- `measure_samples` is `measure_calls` with the count left to `pick_iters`.
  pub measure_samples-measure_calls :
      (env : Option ℕ) (w : Window) (after : After) (load : ℕ) (s : S)
      → measure_samples call env w after load s ≡ measure_calls call env w after load 0 s
  unfolding measure_samples measure_calls rounds_for
  measure_samples-measure_calls env w after load s = refl
