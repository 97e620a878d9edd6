-- ===== src/Runtimes/Thread.antt =====
-- `run_on_thread` of crates/benchmark-core/src/lib.rs: whether the thread starts is a parameter; its
-- name and its scheduling class are not modelled.
use wasm_benchmark.Base.{Bool, true, false, List, ◌≡◌, refl}
use wasm_benchmark.Runtimes.Trace.{Handle}
use wasm_benchmark.Runtimes.Action.{
  Result, done, raised, Ending, own, measured, panicked, World, Action,
}
use wasm_benchmark.Runtimes.Keeps.{Keeps, Moves}

-- The errors of the thread itself, and what its body answers.
pub data Joined (E : Type 0) : Type 0 where
  spawn_failed thread_panicked : Joined E
  inside : Ending E → Joined E

-- `.join().map_err(..)?` : a panic of the body is an error of the thread.
abbrev pub joined : {S E A : Type 0} → Result (Ending E) A × World S → Result (Joined E) A × World S
joined (done a, w) = (done a, w)
joined (raised (own e), w) = (raised (inside (own e)), w)
joined (raised (measured e), w) = (raised (inside (measured e)), w)
joined (raised panicked, w) = (raised thread_panicked, w)

unfoldable pub run_on_thread :
    {S E A : Type 0} → Bool → Action S (Ending E) A → Action S (Joined E) A
run_on_thread false body w = (raised spawn_failed, w)
run_on_thread true body w = joined (body w)

module _ {S E A : Type 0} (live : List Handle) where
  joined_world : (r : Result (Ending E) A) (w : World S) → (joined (r, w)).1 ≡ w
  joined_world (done a) w = refl
  joined_world (raised (own e)) w = refl
  joined_world (raised (measured e)) w = refl
  joined_world (raised panicked) w = refl

  pub run_on_thread-Keeps :
      (spawned : Bool) (body : Action S (Ending E) A)
      → Keeps live body
      → Keeps live (run_on_thread spawned body)
  unfolding Moves run_on_thread
  run_on_thread-Keeps false body k w l = l
  run_on_thread-Keeps true body k w l = rw (joined_world (body w).0 (body w).1) (k w l)
