-- ===== src/Harness/Measure/Keeps.antt =====
-- What a measurement keeps, from what its calls keep.
use wasm_benchmark.Base.{ℕ, zero, suc, ◌≡◌, refl, ◌⊎◌, inl, inr, List, [], Option, some, none}
use wasm_benchmark.Harness.Measure.Failures.{measure_samples-measure_calls}
use wasm_benchmark.Harness.Window.{Window, After}
use wasm_benchmark.Harness.Measure.{
  Attempt, returned, failed, timed_loop, timed_part, measure_calls, measure_samples,
}

attempt_cases :
    {E : Type 0} (a : Attempt E)
    → ((v : ℕ) × (ns : ℕ) × (a ≡ returned v ns)) ⊎ ((e : E) × (a ≡ failed e))
attempt_cases (returned v ns) = inl (v, ns, refl)
attempt_cases (failed e) = inr (e, refl)

module _ {S E : Type 0} (call : S → Attempt E × S) (P : S → Type 0)
    (keeps : (s : S) → P s → P (call s).1) where
  timed_loop_keeps :
      (w : Window) (after : After) (load n left result : ℕ) (samples : List ℕ) (s : S)
      → P s
      → P (timed_loop call w after load n left result samples s).1
  unfolding timed_loop
  timed_loop_keeps w after load n zero result samples s h = h
  timed_loop_keeps w after load n (suc left) result samples s h = elim (attempt_cases (call s).0) [
    | inl (_, _, c) ↦
        rw (c, timed_loop) (timed_loop_keeps w after load n left _ _ (call s).1 (keeps s h))
    | inr c ↦ rw (c.1, timed_loop) (keeps s h)
  ]

  timed_part_keeps :
      (w : Window) (after : After) (load : ℕ) (n : Option ℕ) (result : ℕ) (s : S)
      → P s
      → P (timed_part call w after load n result s).1
  unfolding timed_part
  timed_part_keeps w after load none result s h = h
  timed_part_keeps w after load (some n) result s h =
      timed_loop_keeps w after load n n result [] s h

  pub measure_calls_keeps :
      (env : Option ℕ) (w : Window) (after : After) (load iters : ℕ) (s : S)
      → P s
      → P (measure_calls call env w after load iters s).1
  unfolding measure_calls
  measure_calls_keeps env w after load iters s h = elim (attempt_cases (call s).0) [
    | inr c ↦ rw (c.1, measure_calls) (keeps s h)
    | inl (_, _, c) ↦ elim (attempt_cases (call (call s).1).0) [
      | inr d ↦ rw (c, measure_calls, d.1) (keeps _ (keeps s h))
      | inl (_, _, d) ↦
          rw (c, measure_calls, d) (timed_part_keeps w after load _ _ _ (keeps _ (keeps s h)))
    ]
  ]

  pub measure_samples_keeps :
      (env : Option ℕ) (w : Window) (after : After) (load : ℕ) (s : S)
      → P s
      → P (measure_samples call env w after load s).1
  measure_samples_keeps env w after load s h =
      rw (measure_samples-measure_calls call env w after load s)
        (measure_calls_keeps env w after load 0 s h)
