-- ===== src/Runtimes/Kept.antt =====
-- What is kept by an action whose steps keep it.
use wasm_benchmark.Base.{ℕ, ◌≡◌, refl, Option}
use wasm_benchmark.Harness.Window.{Window, After}
use wasm_benchmark.Harness.Measure.{Answer, ok, err, panic, measure_calls, measure_samples}
use wasm_benchmark.Harness.Measure.Keeps.{measure_calls_keeps, measure_samples_keeps}
use wasm_benchmark.Runtimes.Action.{
  Result, done, raised, World, Action, of_answer, attempt_of, outside, elapsed, measuring_calls,
  measuring_samples, ◌>>=◌,
}

attempt_of_world : {S E : Type 0} (r : Result E (ℕ × ℕ)) (w : World S) → (attempt_of (r, w)).1 ≡ w
attempt_of_world (done v) w = refl
attempt_of_world (raised e) w = refl

of_answer_world : {S E A : Type 0} (a : Answer E A) (w : World S) → (of_answer (a, w)).1 ≡ w
of_answer_world (ok a) w = refl
of_answer_world (err e) w = refl
of_answer_world panic w = refl

pub outside_world : {S E A : Type 0} (r : Result E A) (w : World S) → (outside (r, w)).1 ≡ w
outside_world (done a) w = refl
outside_world (raised e) w = refl

module _ {S E A B : Type 0} (P : World S → Type 0) where
  sequel_keeps :
      (r : Result E A) (w : World S) (k : A → Action S E B)
      → P w
      → ((a : A) (v : World S) → P v → P (k a v).1)
      → P (((λ (_ : World S). (r, w)) >>= k) w).1
  sequel_keeps (done a) w k h kk = kk a w h
  sequel_keeps (raised e) w k h kk = h

  pub bind_keeps :
      (m : Action S E A) (k : A → Action S E B)
      → ((v : World S) → P v → P (m v).1)
      → ((a : A) (v : World S) → P v → P (k a v).1)
      → (w : World S) → P w
      → P ((m >>= k) w).1
  bind_keeps m k mk kk w h = sequel_keeps (m w).0 (m w).1 k (mk w h) kk

-- What holds behind an action that is done, and behind one that is not.
abbrev pub EndsIn :
    {S E A : Type 0} → (A → World S → Type 0) → (World S → Type 0) → Result E A × World S → Type 0
EndsIn Q P (done a, w) = Q a w
EndsIn Q P (raised e, w) = P w

module _ {S E A B : Type 0} (Q : A → World S → Type 0) (P : World S → Type 0) where
  bind_EndsIn :
      (r : Result E A) (v w : World S) (k : A → Action S E B)
      → EndsIn Q P (r, v)
      → ((a : A) (u : World S) → Q a u → P (k a u).1)
      → P (((λ (_ : World S). (r, v)) >>= k) w).1
  bind_EndsIn (done a) v w k h kk = kk a v h
  bind_EndsIn (raised e) v w k h kk = h

  pub bind-EndsIn :
      (m : Action S E A) (k : A → Action S E B) (w : World S)
      → EndsIn Q P (m w)
      → ((a : A) (u : World S) → Q a u → P (k a u).1)
      → P ((m >>= k) w).1
  bind-EndsIn m k w h kk = bind_EndsIn (m w).0 (m w).1 w k h kk

-- A measurement keeps what its calls and the clock keep.
module _ {S E : Type 0} (P : World S → Type 0) (clock : S → ℕ × S)
    (clock_keeps : (w : World S) → P w → P (elapsed {E = E} clock w).1) (env : Option ℕ)
    (window : Window) (after : After) (call : Action S E (ℕ × ℕ))
    (keeps : (w : World S) → P w → P (call w).1) where
  attempt_keeps : (w : World S) → P w → P (attempt_of (call w)).1
  attempt_keeps w h = rw (attempt_of_world (call w).0 (call w).1) (keeps w h)

  pub measuring_calls_keeps :
      (iters : ℕ) (w : World S) → P w → P (measuring_calls clock env window after iters call w).1
  unfolding measuring_calls
  measuring_calls_keeps iters w h =
      let load = (clock w.library).0 in
      let w' : World S = record { library = (clock w.library).1; log = w.log } in
      let m = measure_calls (λ v. attempt_of (call v)) env window after load iters w' in
      rw (of_answer_world m.0 m.1) (
        measure_calls_keeps (λ v. attempt_of (call v)) P attempt_keeps env window after load iters
          w' (clock_keeps w h))

  pub measuring_samples_keeps :
      (w : World S) → P w → P (measuring_samples clock env window after call w).1
  unfolding measuring_samples
  measuring_samples_keeps w h =
      let load = (clock w.library).0 in
      let w' : World S = record { library = (clock w.library).1; log = w.log } in
      let m = measure_samples (λ v. attempt_of (call v)) env window after load w' in
      rw (of_answer_world m.0 m.1) (
        measure_samples_keeps (λ v. attempt_of (call v)) P attempt_keeps env window after load w'
          (clock_keeps w h))
