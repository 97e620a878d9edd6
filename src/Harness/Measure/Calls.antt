-- ===== src/Harness/Measure/Calls.antt =====
-- A measurement whose calls all return.
use wasm_benchmark.Base.{
  ℕ, zero, suc, ◌+◌, ◌<◌, ◌≡◌, refl, ap, ◌∙◌, arith, List, [], ◌∷◌, ◌++◌, Option, some, length,
}
use wasm_benchmark.Harness.Window.{Window, After, RunReport, finish}
use wasm_benchmark.Harness.Window.Finish.{Reports, finish-Reports}
use wasm_benchmark.Harness.Measure.{
  Attempt, returned, failed, ok, or_panic, rounds_for, timed_loop, timed_part, measure_calls,
}
use mathlib.Core.List.{append-nil, append_assoc}

-- What a returned call gives; a failed one counts as zero.
abbrev pub value_of : {E : Type 0} → Attempt E → ℕ
value_of (returned v ns) = v
value_of (failed e) = 0

abbrev pub time_of : {E : Type 0} → Attempt E → ℕ
time_of (returned v ns) = ns
time_of (failed e) = 0

module _ {S E : Type 0} (call : S → Attempt E × S) where
  -- The state after k calls, and what call k answers, from 0 on.
  abbrev pub state_after : ℕ → S → S
  state_after zero s = s
  state_after (suc k) s = state_after k (call s).1

  abbrev pub attempt_at : ℕ → S → Attempt E
  attempt_at k s = (call (state_after k s)).0

  -- The first n calls return.
  abbrev pub AllReturn : ℕ → S → Type 0
  AllReturn n s =
      (k : ℕ)
      → k < n
      → attempt_at k s ≡ returned (value_of (attempt_at k s)) (time_of (attempt_at k s))

  -- The times of the next n calls.
  abbrev pub times : ℕ → S → List ℕ
  times zero s = []
  times (suc n) s = time_of (call s).0 ∷ times n (call s).1

  -- The value of the last of the next n calls, or the given one if there is none.
  abbrev pub last_value : ℕ → ℕ → S → ℕ
  last_value zero result s = result
  last_value (suc n) result s = last_value n (value_of (call s).0) (call s).1

module _ {S E : Type 0} (call : S → Attempt E × S) where
  pub AllReturn-next : (n : ℕ) (s : S) → AllReturn call (suc n) s → AllReturn call n (call s).1
  AllReturn-next n s h k hk = h (suc k) (omega arith)

  pub timed_loop_step :
      (w : Window) (after : After) (load n left result : ℕ) (samples : List ℕ) (s : S) (v ns : ℕ)
      → (call s).0 ≡ returned v ns
      → timed_loop call w after load n (suc left) result samples s
        ≡ timed_loop call w after load n left v (samples ++ ns ∷ []) (call s).1
  unfolding timed_loop
  timed_loop_step w after load n left result samples s v ns e = rw (e, timed_loop) refl

  pub warmups :
      (env : Option ℕ) (w : Window) (after : After) (load iters : ℕ) (s : S) (v₀ ns v₁ warm : ℕ)
      → attempt_at call 0 s ≡ returned v₀ ns
      → attempt_at call 1 s ≡ returned v₁ warm
      → measure_calls call env w after load iters s
        ≡ timed_part call w after load (rounds_for env iters warm) v₁ (state_after call 2 s)
  unfolding measure_calls
  warmups env w after load iters s v₀ ns v₁ warm e₀ e₁ = rw (e₀, measure_calls, e₁) refl

  -- With a sample there is a last one, and what came before does not matter.
  last_value_any : (n a b : ℕ) (s : S) → 0 < n → last_value call n a s ≡ last_value call n b s
  last_value_any zero a b s h = absurd (omega arith)
  last_value_any (suc n) a b s h = refl

  length-times : (n : ℕ) (s : S) → length (times call n s) ≡ n
  length-times zero s = refl
  length-times (suc n) s = ap suc (length-times n (call s).1)

  timed_loop_all :
      (w : Window) (after : After) (load n left result : ℕ) (samples : List ℕ) (s : S)
      → AllReturn call left s
      → timed_loop call w after load n left result samples s ≡ (
        or_panic
            (finish w after (last_value call left result s) n load (samples ++ times call left s)),
        state_after call left s,
      )
  unfolding timed_loop
  timed_loop_all w after load n zero result samples s h = rw append-nil refl
  timed_loop_all w after load n (suc left) result samples s h =
      let ns : ℕ = time_of (call s).0 in
      timed_loop_step w after load n left result samples s _ ns (h 0 (omega arith))
      ∙ timed_loop_all w after load n left (value_of (call s).0) (samples ++ ns ∷ []) (call s).1
          (AllReturn-next left s h)
      ∙ rw (append_assoc samples (ns ∷ []) (times call left (call s).1)) refl

  -- If the two warmups and the n timed calls return, the answer is a report over the times of
  -- the timed calls alone, with the value of the last; exactly n + 2 calls are made.
  pub measure_calls_all :
      (env : Option ℕ) (w : Window) (after : After) (load iters n : ℕ) (s : S)
      → AllReturn call (n + 2) s
      → rounds_for env iters (time_of (attempt_at call 1 s)) ≡ some n
      → 0 < n
      → let timed = state_after call 2 s in
        (r : RunReport) × (measure_calls call env w after load iters s
          ≡ (ok r, state_after call (n + 2) s))
        × Reports (times call n timed) (last_value call n 0 timed) n load (some r)
  unfolding timed_part
  measure_calls_all env w after load iters n s h sized pos =
      let timed = state_after call 2 s in
      let samples = times call n timed in
      let second = value_of (attempt_at call 1 s) in
      let reports =
        finish-Reports w after (last_value call n second timed) n load samples
          (omega (arith, length-times n timed)) in
      let count : n + 2 ≡ suc (suc n) = omega arith in
      let rest : AllReturn call (suc (suc n)) s = rw count at h in
      (
        reports.report,
        warmups env w after load iters s _ _ second _ (h 0 (omega arith)) (h 1 (omega arith))
            ∙ rw
                (
                  sized,
                  timed_loop_all w after load n n second [] timed
                      (AllReturn-next n (call s).1 (AllReturn-next (suc n) s rest)),
                  reports.returns,
                  count,
                )
                refl,
        record {
          report = reports.report;
          returns = refl;
          min_rank = reports.min_rank;
          median_rank = reports.median_rank;
          p99_rank = reports.p99_rank;
          min_median = reports.min_median;
          median_p99 = reports.median_p99;
          same_result = reports.same_result ∙ last_value_any n second 0 timed pos;
          same_iterations = reports.same_iterations;
          same_load = reports.same_load;
        },
      )
