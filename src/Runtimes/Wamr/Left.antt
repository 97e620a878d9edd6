-- ===== src/Runtimes/Wamr/Left.antt =====
-- What the WAMR runner leaves behind. It has no guards: it deletes its objects where it returns, and
-- not where `?` returns.
use wasm_benchmark.Base.{
  ◌*◌, ℕ, zero, suc, ◌≡◌, refl, List, [], ◌∷◌, Bool, true, false, Option, none, some, inl, inr,
  get_or, ◌⊎◌,
}
use wasm_benchmark.Harness.Window.{Window, After, RunReport, finish}
use wasm_benchmark.Runtimes.Trace.{
  start, Kind, Handle, here, there, Legal, start, closing, using, wasm_module, instance, exec_env,
}
use wasm_benchmark.Runtimes.Action.{
  unless_zero, has_zero, invoke, begin, elapsed, pure, ◌>>=◌, Result, done, raised, Ending, own,
  measured, panicked, World, begin, handle, Action, raise, ◌>>=◌, ◌>>◌, unless_zero, has_zero,
}
use wasm_benchmark.Runtimes.Keeps.{Keeps, Moves}
use wasm_benchmark.Runtimes.Wamr.{
  if_ok, on_null, try_new, Wamr, WamrError, init_failed, exec_env_null, nul_in_name, load_failed,
  instantiate_failed, call_trap, not_found, Stop, stopped, overflowed, and_then, or_panicked,
  call_exported, if_ok, measured_part, measure_and_drop, run_workload_wamr_iters, drop_exec_env,
  drop_instance, drop_module,
}
use wasm_benchmark.Runtimes.Wamr.Steps.{Ends, try_new-Ends, measured_part-Keeps}

abbrev pub kinds : List Handle → List Kind
kinds [] = []
kinds (h ∷ live) = h.kind ∷ kinds live

-- Nothing is left after a report or an error before the calls; but a name with a zero byte leaves
-- the instance and the module, and a failed call leaves these and the exec env. A panic
-- leaves nothing or these three.
abbrev pub LeftBy : Result (Ending WamrError) RunReport → List Handle → Type 0
LeftBy (done r) left = left ≡ []
LeftBy (raised (own nul_in_name)) left = kinds left ≡ instance ∷ (wasm_module ∷ [])
LeftBy (raised (own init_failed)) left = left ≡ []
LeftBy (raised (own exec_env_null)) left = left ≡ []
LeftBy (raised (own (load_failed text))) left = left ≡ []
LeftBy (raised (own (instantiate_failed text))) left = left ≡ []
LeftBy (raised (own (call_trap text))) left = left ≡ []
LeftBy (raised (own (not_found name))) left = left ≡ []
LeftBy (raised (measured e)) left = kinds left ≡ exec_env ∷ (instance ∷ (wasm_module ∷ []))
LeftBy (raised panicked) left =
    (left ≡ []) ⊎ (kinds left ≡ exec_env ∷ (instance ∷ (wasm_module ∷ [])))

module _ {S : Type 0} (lib : Wamr S) (clock : S → ℕ × S) where
  abbrev objects : ℕ → ℕ → ℕ → List Handle
  objects m inst x = handle exec_env x ∷ (handle instance inst ∷ (handle wasm_module m ∷ []))

  pub if_ok-Keeps :
      (m inst x : ℕ) (ok : Bool) (body : Action S WamrError (ℕ × ℕ))
      → Keeps (objects m inst x) body
      → Keeps (objects m inst x) (if_ok lib clock ok inst body)
  unfolding Moves
  if_ok-Keeps m inst x true body k w l = k w l
  if_ok-Keeps m inst x false body k w l = using _ (there here, tt) l

  pub call_exported-Keeps :
      (m inst x func arg : ℕ) → Keeps (objects m inst x) (call_exported lib clock inst x func arg)
  unfolding Moves call_exported
  call_exported-Keeps m inst x func arg w l =
      let answer = (lib.call_wasm x func (arg ∷ []) w.library).0 in
      if_ok-Keeps m inst x answer.0 (elapsed clock >>= λ ns. pure (ns, get_or answer.1 0 0))
        (λ v h. h) _ (using _ (here, (there here, tt)) l)

  finished :
      (m inst x : ℕ) (r : Option RunReport) (w : World S)
      → Legal w.log (objects m inst x)
      → let end =
          (drop_exec_env lib clock x
              >> drop_instance lib clock inst
              >> drop_module lib clock m
              >> or_panicked r)
            w in
        (left : List Handle) × Legal end.1.log left × LeftBy end.0 left
  finished m inst x none w l = ([], closing _ (closing _ (closing _ l)), inl refl)
  finished m inst x (some r) w l = ([], closing _ (closing _ (closing _ l)), refl)

  after_measure :
      (m inst x : ℕ) (report : ℕ × ℕ × List ℕ → Option RunReport)
      (r : Result (Stop WamrError) (ℕ × ℕ × List ℕ)) (w : World S)
      → Legal w.log (objects m inst x)
      → let end =
          and_then
            (r, w)
            λ p.
              drop_exec_env lib clock x
              >> drop_instance lib clock inst
              >> drop_module lib clock m
              >> or_panicked (report p) in
        (left : List Handle) × Legal end.1.log left × LeftBy end.0 left
  after_measure m inst x report (done p) w l = finished m inst x (report p) w l
  after_measure m inst x report (raised (stopped e)) w l = (objects m inst x, l, refl)
  after_measure m inst x report (raised overflowed) w l = (objects m inst x, l, inr refl)

  measure_and_drop-Ends :
      (env : Option ℕ) (window : Window) (after : After) (m inst func x arg iters : ℕ)
      → Ends
          (objects m inst x)
          (measure_and_drop lib clock env window after m inst func x arg iters)
          LeftBy
  unfolding Ends Moves measure_and_drop
  measure_and_drop-Ends env window after m inst func x arg iters w l =
      let call = call_exported lib clock inst x func arg in
      let w' : World S = record { library = (clock w.library).1; log = w.log } in
      let part = measured_part call env iters w' in
      let legal =
        measured_part-Keeps (objects m inst x) call (call_exported-Keeps m inst x func arg) env
          iters w' l in
      after_measure m inst x (λ p. finish window after p.1 p.0 (clock w.library).0 p.2) part.0
        part.1 legal

  with_function-Ends :
      (env : Option ℕ) (window : Window) (after : After) (name : List ℕ) (m inst func arg iters : ℕ)
      → Ends
          (handle instance inst ∷ (handle wasm_module m ∷ []))
          (on_null func
            (drop_instance lib clock inst
              >> drop_module lib clock m
              >> raise (own (not_found name)))
            (try_new exec_env
              (handle instance inst ∷ [])
              (lib.create_exec_env inst (32 * 1024))
              (λ _.
                drop_instance lib clock inst
                >> drop_module lib clock m
                >> raise (own exec_env_null))
              λ x. measure_and_drop lib clock env window after m inst func x arg iters))
          LeftBy
  unfolding Ends
  with_function-Ends env window after name m inst zero arg iters w l =
      ([], closing _ (closing _ l), refl)
  with_function-Ends env window after name m inst (suc func) arg iters w l =
      try_new-Ends _ _ _ _ _ _ (here, tt) LeftBy (λ _ v h. ([], closing _ (closing _ h), refl))
        (λ x. measure_and_drop-Ends env window after m inst (suc func) x arg iters) w l

  -- With an instance: the name, the function, and what follows.
  abbrev with_instance :
      Option ℕ
      → Window
      → After
      → List ℕ
      → ℕ
      → ℕ
      → Bool
      → ℕ
      → ℕ
      → Action S (Ending WamrError) RunReport
  with_instance env window after name m inst zeros arg iters = unless_zero (own nul_in_name) zeros (
      invoke (handle instance inst ∷ []) (lib.lookup_function inst name) >>= λ func.
      on_null func
        (drop_instance lib clock inst >> drop_module lib clock m >> raise (own (not_found name)))
        (try_new exec_env (handle instance inst ∷ []) (lib.create_exec_env inst (32 * 1024))
          (λ _.
            drop_instance lib clock inst >> drop_module lib clock m >> raise (own exec_env_null))
          λ x. measure_and_drop lib clock env window after m inst func x arg iters))

  with_instance-Ends :
      (env : Option ℕ) (window : Window) (after : After) (name : List ℕ) (m inst : ℕ) (zeros : Bool)
      (arg iters : ℕ)
      → Ends
          (handle instance inst ∷ (handle wasm_module m ∷ []))
          (with_instance env window after name m inst zeros arg iters)
          LeftBy
  unfolding Ends unless_zero
  with_instance-Ends env window after name m inst true arg iters w l = (_, l, refl)
  with_instance-Ends env window after name m inst false arg iters w l =
      with_function-Ends env window after name m inst (lib.lookup_function inst name w.library).0
        arg iters _ (using _ (here, tt) l)

  run-Ends :
      (init_ok : Bool) (env : Option ℕ) (window : Window) (after : After) (bytes name : List ℕ)
      (arg iters : ℕ)
      → Ends []
          (run_workload_wamr_iters lib clock init_ok env window after bytes name arg iters)
          LeftBy
  unfolding Ends run_workload_wamr_iters
  run-Ends false env window after bytes name arg iters w l = ([], l, refl)
  run-Ends true env window after bytes name arg iters w l =
      try_new-Ends _ _ _ _ _ _ tt LeftBy (λ msg v h. ([], h, refl))
        (λ m.
          try_new-Ends _ _ _ _ _ _ (here, tt) LeftBy (λ msg v h. ([], closing _ h, refl))
            (λ inst. with_instance-Ends env window after name m inst (has_zero name) arg iters))
        w l

module _ {S : Type 0} (lib : Wamr S) (clock : S → ℕ × S) (init_ok : Bool) (env : Option ℕ)
    (window : Window) (after : After) (s : S) where
  -- Whatever the library answers, the runner uses living objects alone and deletes none twice.
  -- Where it returns a report, or an error before the calls, nothing that it created is left; but
  -- a failed call leaves the exec env, the instance and the module, a name with a zero byte leaves
  -- the instance and the module, and a panic leaves the three objects or nothing.
  pub run_workload_wamr_iters-LeftBy :
      (bytes name : List ℕ) (arg iters : ℕ)
      → let end =
          run_workload_wamr_iters lib clock init_ok env window after bytes name arg iters
            (begin s) in
        (left : List Handle) × Legal end.1.log left × LeftBy end.0 left
  unfolding Ends
  run_workload_wamr_iters-LeftBy bytes name arg iters =
      run-Ends lib clock init_ok env window after bytes name arg iters (begin s) start
