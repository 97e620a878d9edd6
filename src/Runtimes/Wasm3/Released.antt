-- ===== src/Runtimes/Wasm3/Released.antt =====
-- The objects of the wasm3 adapter on every way out.
use wasm_benchmark.Base.{ℕ, suc, List, [], ◌∷◌, Option, ◌≡◌, ◌≢◌, none, some, zero, refl, All}
use Prim.Native.String.{String}
use wasm_benchmark.Harness.Window.{Window, After}
use wasm_benchmark.Runtimes.Trace.{
  Handle, Live, here, there, wasm_module, runtime, environment, Legal, start, creations, releases,
  all_released, closing, using, handing, opening,
}
use wasm_benchmark.Runtimes.Action.{handle, begin, Action, unless_null}
use wasm_benchmark.Runtimes.Keeps.{
  Keeps, Moves, with_new-Keeps, unless_zero-Keeps, measuring_calls-Keeps, clocked-Keeps,
  measuring_samples-Keeps,
}
use wasm_benchmark.Runtimes.Wasm3.{
  Wasm3, Wasm3Error, m3_ok, checked, loaded, load_parsed, load_checked, load_unchecked,
  call_and_get, run_workload_wasm3_iters, instantiate_sample, run_instantiate_each_wasm3,
}

module _ {S E A : Type 0} (live : List Handle) where
  m3_ok-Keeps :
      (r : Option String) (failed : String → E) (body : Action S E A)
      → Keeps live body
      → Keeps live (m3_ok r failed body)
  unfolding Moves
  m3_ok-Keeps none failed body k w l = k w l
  m3_ok-Keeps (some text) failed body k w l = l

  unless_null-Keeps :
      (e : E) (p : ℕ) (body : Action S E A) → Keeps live body → Keeps live (unless_null e p body)
  unfolding Moves
  unless_null-Keeps e zero body k w l = l
  unless_null-Keeps e (suc p) body k w l = k w l

module _ {S E A B : Type 0} (live : List Handle) where
  checked-Keeps :
      (hs : List Handle) (call : S → (Option String × B) × S) (failed : String → E)
      (body : B → Action S E A)
      → All (λ h. Live h live) hs
      → ((b : B) → Keeps live (body b))
      → Keeps live (checked hs call failed body)
  unfolding Moves checked
  checked-Keeps hs call failed body u k w l =
      let answer = (call w.library).0 in
      m3_ok-Keeps live answer.0 failed (body answer.1) (k answer.1) _ (using hs u l)

module _ {S E A : Type 0} (lib : Wasm3 S) (failed : Wasm3Error → E) (live : List Handle) (rt : ℕ)
    (body : Action S E A) (keeps : Keeps (handle runtime rt ∷ live) body) where
  abbrev owner : List Handle
  owner = handle runtime rt ∷ live

  loaded-Moves :
      (m : ℕ) (r : Option String)
      → Moves (handle wasm_module m ∷ owner) (loaded lib failed m r body) owner
  unfolding Moves
  loaded-Moves m none w l = keeps _ (handing _ l)
  loaded-Moves m (some text) w l = closing _ l

  load_parsed-Moves :
      (m : ℕ) → Moves (handle wasm_module m ∷ owner) (load_parsed lib failed rt m body) owner
  unfolding Moves load_parsed
  load_parsed-Moves m w l =
      loaded-Moves m (lib.load_module rt m w.library).0 _ (using _ (here, (there here, tt)) l)

  load_checked-Keeps : (m : ℕ) → Keeps owner (load_checked lib failed rt body m)
  unfolding Moves load_checked
  load_checked-Keeps zero w l = l
  load_checked-Keeps (suc m) w l = load_parsed-Moves (suc m) _ (opening _ l)

  load_unchecked-Keeps : (m : ℕ) → m ≢ 0 → Keeps owner (load_unchecked lib failed rt body m)
  unfolding Moves load_unchecked
  load_unchecked-Keeps zero h w l = absurd (h refl)
  load_unchecked-Keeps (suc m) h w l = load_parsed-Moves (suc m) _ (opening _ l)

-- A module is there when its bytes are parsed without an error: what the code relies on where it
-- does not check the pointer for NULL.
abbrev pub Parses : {S : Type 0} → Wasm3 S → Type 0
Parses lib =
    (e : ℕ) (bytes : List ℕ) (s : _)
    → (lib.parse_module e bytes s).0.0 ≡ none
    → (lib.parse_module e bytes s).0.1 ≢ 0

module _ {S E A : Type 0} (live : List Handle) where
  m3_ok-created :
      (r : Option String) (m : ℕ) (failed : String → E) (body : ℕ → Action S E A)
      → (r ≡ none → m ≢ 0)
      → ((m : ℕ) → m ≢ 0 → Keeps live (body m))
      → Keeps live (m3_ok r failed (body m))
  unfolding Moves
  m3_ok-created none m failed body h k w l = k m (h refl) w l
  m3_ok-created (some text) m failed body h k w l = l

  checked_created-Keeps :
      (hs : List Handle) (create : S → (Option String × ℕ) × S) (failed : String → E)
      (body : ℕ → Action S E A)
      → All (λ h. Live h live) hs
      → ((s : S) → (create s).0.0 ≡ none → (create s).0.1 ≢ 0)
      → ((m : ℕ) → m ≢ 0 → Keeps live (body m))
      → Keeps live (checked hs create failed body)
  unfolding Moves checked
  checked_created-Keeps hs create failed body u creates k w l =
      let answer = (create w.library).0 in
      m3_ok-created answer.0 answer.1 failed body (creates w.library) k _ (using hs u l)

module _ {S : Type 0} (lib : Wasm3 S) (clock : S → ℕ × S) where
  call_and_get-Keeps :
      (live : List Handle) (rt func arg : ℕ)
      → Keeps (handle runtime rt ∷ live) (call_and_get lib clock rt func arg)
  unfolding call_and_get
  call_and_get-Keeps live rt func arg =
      checked-Keeps _ _ _ _ _ (here, tt)
        λ _. checked-Keeps _ _ _ _ _ (here, tt) λ ret. clocked-Keeps _ _ clock _

  iters-Keeps :
      (env : Option ℕ) (window : Window) (after : After) (bytes name : List ℕ) (arg iters : ℕ)
      → Keeps [] (run_workload_wasm3_iters lib clock env window after bytes name arg iters)
  unfolding run_workload_wasm3_iters
  iters-Keeps env window after bytes name arg iters = with_new-Keeps _ _ _ _ _ _ _ tt λ e.
      with_new-Keeps _ _ _ _ _ _ _ (here, tt)
        λ rt.
          checked-Keeps _ _ _ _ _ (there here, tt)
            (load_checked-Keeps lib _ _ rt _ (
              unless_zero-Keeps _ _ _ _ (
                checked-Keeps _ _ _ _ _ (here, tt)
                  λ func. unless_null-Keeps _ _ func _ (
                    measuring_calls-Keeps _ clock env window after _
                      (call_and_get-Keeps _ rt func arg) iters))))

  sample-Keeps :
      Parses lib
      → (live : List Handle) (e : ℕ) (bytes name : List ℕ) (arg : ℕ)
      → Keeps (handle environment e ∷ live) (instantiate_sample lib clock e bytes name arg)
  unfolding instantiate_sample
  sample-Keeps parses live e bytes name arg =
      with_new-Keeps _ _ _ _ _ _ _ (here, tt)
        λ rt.
          checked_created-Keeps _ _ _ _ _ (there here, tt) (parses e bytes)
            (load_unchecked-Keeps lib _ _ rt _
              (checked-Keeps _ _ _ _ _ (here, tt) λ func. call_and_get-Keeps _ rt func arg))

  each-Keeps :
      Parses lib
      → (env : Option ℕ) (window : Window) (after : After) (bytes name : List ℕ) (arg : ℕ)
      → Keeps [] (run_instantiate_each_wasm3 lib clock env window after bytes name arg)
  unfolding run_instantiate_each_wasm3
  each-Keeps parses env window after bytes name arg = with_new-Keeps _ _ _ _ _ _ _ tt λ e.
      unless_zero-Keeps _ _ _ _ (
        measuring_samples-Keeps _ clock env window after _ (sample-Keeps parses _ e bytes name arg))

module _ {S : Type 0} (lib : Wasm3 S) (clock : S → ℕ × S) (env : Option ℕ) (window : Window)
    (after : After) (s : S) where
  -- Whatever the library answers, when the runner returns, by an error too, its environment and
  -- its runtime are freed, and its module is freed or was given to the runtime, each once, the
  -- youngest first, and each was alive at every use.
  pub run_workload_wasm3_iters-Legal :
      (bytes name : List ℕ) (arg iters : ℕ)
      → let end =
          (run_workload_wasm3_iters lib clock env window after bytes name arg iters (begin s)).1 in
        Legal end.log [] × ((h : Handle) → creations h end.log ≡ releases h end.log)
  unfolding Moves
  run_workload_wasm3_iters-Legal bytes name arg iters =
      let legal = iters-Keeps lib clock env window after bytes name arg iters (begin s) start in
      (legal, λ h. all_released h legal)

  -- The same of the runner that makes a runtime for each sample, for a library that answers a
  -- module whenever it answers no error.
  run_instantiate_each_wasm3-Legal :
      (parses : Parses lib) (bytes name : List ℕ) (arg : ℕ)
      → let end =
          (run_instantiate_each_wasm3 lib clock env window after bytes name arg (begin s)).1 in
        Legal end.log [] × ((h : Handle) → creations h end.log ≡ releases h end.log)
  unfolding Moves
  run_instantiate_each_wasm3-Legal parses bytes name arg =
      let legal = each-Keeps lib clock parses env window after bytes name arg (begin s) start in
      (legal, λ h. all_released h legal)
