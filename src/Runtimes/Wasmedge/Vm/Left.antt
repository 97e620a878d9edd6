-- ===== src/Runtimes/Wasmedge/Vm/Left.antt =====
-- What the VM runner of crates/benchmark-core/src/wasmedge.rs leaves behind. Its guards hold the
-- configuration and the VM; the byte copy and the host module have none.
use wasm_benchmark.Base.{
  ℕ, zero, suc, ◌+◌, ◌≡◌, refl, arith, List, [], ◌∷◌, ◌++◌, Bool, true, false, Option, get_or,
}
use Prim.Native.String.{String}
use wasm_benchmark.Harness.Window.{Window, After, RunReport}
use wasm_benchmark.Harness.Measure.{Answer, ok, err, panic}
use wasm_benchmark.Runtimes.Trace.{
  Kind, Handle, Event, creations, releases, alive, configure, machine, instance, functype,
  byte_copy,
}
use wasm_benchmark.Runtimes.Action.{
  Result, done, raised, Ending, own, measured, panicked, World, begin, handle, Action, owned,
  unless_null, unless_zero, has_zero, ◌>>◌, with_new, clocked, of_answer, measuring_calls, guarded,
}
use wasm_benchmark.Runtimes.Kept.{measuring_calls_keeps}
use wasm_benchmark.Runtimes.Wasmedge.{message_of, Wasmedge, proposals, add_proposals}
use wasm_benchmark.Runtimes.Wasmedge.Vm.{
  WasmedgeVm, VmError, configure_null, vm_null, porf_module_null, porf_functype_null,
  porf_func_null, nul_in_name, vm_failed, register_failed, or_failed, vm_call, vm_measured,
  vm_started, vm_loaded, vm_registered, vm_function, vm_functype, vm_module, in_vm,
  run_workload_wasmedge_iters_inner, configured, with_vm,
}
use wasm_benchmark.Runtimes.Wamr.Left.{kinds}

-- Every object was deleted, or given away, as often as it was created, but for the ones left.
abbrev pub Balanced : List Event → List Handle → Type 0
Balanced log left = (h : Handle) → creations h log ≡ releases h log + alive h left

-- Nothing is left, but when the host module cannot be made or registered: then the byte copy is,
-- with the host module where there is one.
abbrev pub LeftByVm : Result (Ending VmError) RunReport → List Handle → Type 0
LeftByVm (done r) left = left ≡ []
LeftByVm (raised (own configure_null)) left = left ≡ []
LeftByVm (raised (own vm_null)) left = left ≡ []
LeftByVm (raised (own porf_module_null)) left = kinds left ≡ byte_copy ∷ []
LeftByVm (raised (own porf_functype_null)) left = kinds left ≡ instance ∷ (byte_copy ∷ [])
LeftByVm (raised (own porf_func_null)) left = kinds left ≡ instance ∷ (byte_copy ∷ [])
LeftByVm (raised (own nul_in_name)) left = left ≡ []
LeftByVm (raised (own (vm_failed ctx text))) left = left ≡ []
LeftByVm (raised (own (register_failed text))) left = kinds left ≡ instance ∷ (byte_copy ∷ [])
LeftByVm (raised (measured e)) left = left ≡ []
LeftByVm (raised panicked) left = left ≡ []

-- From the living objects on, the action leaves some on top of the guarded ones.
abbrev Ends :
    {S : Type 0} → List Handle → List Handle → Action S (Ending VmError) RunReport → Type 0
Ends base live m =
    (w : _)
    → Balanced w.log live
    → (left : List Handle) × Balanced (m w).1.log (left ++ base) × LeftByVm (m w).0 left

alive-append : (h : Handle) (a b : List Handle) → alive h (a ++ b) ≡ alive h a + alive h b
alive-append h [] b = omega arith
alive-append h (k ∷ a) b = omega (arith, alive-append h a b)

module _ {S : Type 0} (base : List Handle) where
  filled-Ends :
      (kind : Kind) (null : VmError) (delete : ℕ → S → S)
      (body : ℕ → Action S (Ending VmError) RunReport)
      → LeftByVm (raised (own null)) []
      → ((p : ℕ) → Ends (handle kind p ∷ base) (handle kind p ∷ base) (body p))
      → (p : ℕ)
      → Ends base base
          (owned kind p >> unless_null (own null) p (guarded (handle kind p) (delete p) (body p)))
  filled-Ends kind null delete body q k zero w b = ([], b, q)
  filled-Ends kind null delete body q k (suc p) w b =
      let (left, balanced, by) = k (suc p) _ (λ h. omega (arith, b h)) in
      (
        left,
        λ h. omega (
          arith,
          balanced h,
          alive-append h left (handle kind (suc p) ∷ base),
          alive-append h left base,
        ),
        by,
      )

  with_new-Ends :
      (kind : Kind) (hs : List Handle) (create : S → ℕ × S) (null : VmError) (delete : ℕ → S → S)
      (body : ℕ → Action S (Ending VmError) RunReport)
      → LeftByVm (raised (own null)) []
      → ((p : ℕ) → Ends (handle kind p ∷ base) (handle kind p ∷ base) (body p))
      → Ends base base (with_new kind hs create (own null) delete body)
  unfolding with_new
  with_new-Ends kind hs create null delete body q k w b =
      filled-Ends kind null delete body q k (create w.library).0 _ b

  -- A failed outcome leaves what is alive.
  or_failed-Ends :
      (left : List Handle) (ok : Bool) (message : Option String) (e : String → VmError)
      (body : Action S (Ending VmError) RunReport)
      → ((text : String) → LeftByVm (raised (own (e text))) left)
      → Ends base (left ++ base) body
      → Ends base (left ++ base) (or_failed (λ text. own (e text)) ok message body)
  or_failed-Ends left true message e body q k w b = k w b
  or_failed-Ends left false message e body q k w b = (left, b, q (message_of message))

answer-LeftBy :
    {S : Type 0} (a : Answer VmError RunReport) (w : World S) → LeftByVm (of_answer (a, w)).0 []
answer-LeftBy (ok r) w = refl
answer-LeftBy (err e) w = refl
answer-LeftBy panic w = refl

or_failed_keeps :
    {S A : Type 0} (P : World S → Type 0) (ok : Bool) (message : Option String)
    (e : String → VmError) (body : Action S VmError A)
    → ((w : World S) → P w → P (body w).1)
    → (w : World S) → P w
    → P (or_failed e ok message body w).1
or_failed_keeps P true message e body k w b = k w b
or_failed_keeps P false message e body k w b = b

module _ {S : Type 0} (lib : Wasmedge S) (vms : WasmedgeVm S) (clock : S → ℕ × S)
    (base : List Handle) where
  vm_call-Balanced :
      (v : ℕ) (fn_name : List ℕ) (arg : ℕ) (w : World S)
      → Balanced w.log base
      → Balanced (vm_call lib vms clock v fn_name arg w).1.log base
  unfolding vm_call clocked
  vm_call-Balanced v fn_name arg w b =
      let (answer, s) = vms.vm_execute v fn_name (arg ∷ []) 1 w.library in
      or_failed_keeps (λ w. Balanced w.log base) answer.0.is_ok answer.0.message
        (vm_failed "VMExecute") (clocked clock (get_or answer.1 0 0)) (λ w b. b) _ b

  module _ (env : Option ℕ) (window : Window) (after : After) (wasm_bytes fn_name : List ℕ)
      (arg iters : ℕ) where
    vm_measured-Ends :
        (v : ℕ) (zeroed : Bool)
        → Ends base base (
            unless_zero
              (own nul_in_name)
              zeroed
              (measuring_calls clock env window after iters (vm_call lib vms clock v fn_name arg)))
    unfolding unless_zero measuring_calls
    vm_measured-Ends v true w b = ([], b, refl)
    vm_measured-Ends v false w b = (
      [],
      measuring_calls_keeps (λ w. Balanced w.log base) clock (λ w b. b) env window after
          (vm_call lib vms clock v fn_name arg) (vm_call-Balanced v fn_name arg) iters w b,
      answer-LeftBy _ _,
    )

    vm_started-Ends :
        (v : ℕ)
        → Ends base base (vm_started lib vms clock env window after wasm_bytes fn_name arg iters v)
    unfolding vm_started vm_measured
    vm_started-Ends v w b =
        let (valid, s) = vms.vm_validate v w.library in
        or_failed-Ends base [] valid.is_ok valid.message (vm_failed "VMValidate") _ (λ text. refl)
          (λ w b.
            let (ready, s) = vms.vm_instantiate v w.library in
            or_failed-Ends base [] ready.is_ok ready.message (vm_failed "VMInstantiate") _
              (λ text. refl) (vm_measured-Ends v (has_zero fn_name)) _ b)
          _ b

    vm_loaded-Ends :
        (v b : ℕ)
        → Ends base
            (handle byte_copy b ∷ base)
            (vm_loaded lib vms clock env window after wasm_bytes fn_name arg iters v b)
    unfolding vm_loaded
    vm_loaded-Ends v b w bal =
        let (loaded, s) = vms.vm_load_wasm_from_bytes v b w.library in
        or_failed-Ends base [] loaded.is_ok loaded.message (vm_failed "VMLoadWasmFromBytes") _
          (λ text. refl) (vm_started-Ends v) _ (λ h. omega (arith, bal h))

    vm_registered-Ends :
        (v b m : ℕ)
        → Ends base
            (handle instance m ∷ (handle byte_copy b ∷ base))
            (vm_registered lib vms clock env window after wasm_bytes fn_name arg iters v b m)
    unfolding vm_registered
    vm_registered-Ends v b m w bal =
        let (taken, s) = vms.vm_register_module_from_import v m w.library in
        or_failed-Ends base (handle instance m ∷ (handle byte_copy b ∷ [])) taken.is_ok
          taken.message register_failed _ (λ text. refl)
          (λ w bal. vm_loaded-Ends v b _ (λ h. omega (arith, bal h))) _ bal

    vm_function-Ends :
        (v b m f : ℕ)
        → Ends base
            (handle instance m ∷ (handle byte_copy b ∷ base))
            (vm_function lib vms clock env window after wasm_bytes fn_name arg iters v b m f)
    unfolding vm_function
    vm_function-Ends v b m zero w bal = (handle instance m ∷ (handle byte_copy b ∷ []), bal, refl)
    vm_function-Ends v b m (suc f) w bal = vm_registered-Ends v b m _ bal

    vm_functype-Ends :
        (v b m ty : ℕ) (w : World S)
        → Balanced w.log (handle instance m ∷ (handle byte_copy b ∷ base))
        → let end =
            (owned functype ty
                >> vm_functype lib vms clock env window after wasm_bytes fn_name arg iters v b m ty)
              w in
          (left : List Handle) × Balanced end.1.log (left ++ base) × LeftByVm end.0 left
    unfolding vm_functype
    vm_functype-Ends v b m zero w bal = (handle instance m ∷ (handle byte_copy b ∷ []), bal, refl)
    vm_functype-Ends v b m (suc ty) w bal =
        let (f, s) = lib.function_instance_create (suc ty) w.library in
        vm_function-Ends v b m f _ (λ h. omega (arith, bal h))

    vm_module-Ends :
        (v b m : ℕ)
        → Ends base (handle byte_copy b ∷ base) (
            owned instance m
            >> vm_module lib vms clock env window after wasm_bytes fn_name arg iters v b m)
    unfolding vm_module
    vm_module-Ends v b zero w bal = (handle byte_copy b ∷ [], bal, refl)
    vm_module-Ends v b (suc m) w bal =
        let (ty, s) = lib.function_type_create w.library in
        vm_functype-Ends v b (suc m) ty _ (λ h. omega (arith, bal h))

    in_vm-Ends :
        (v : ℕ)
        → Ends base base (in_vm lib vms clock env window after wasm_bytes fn_name arg iters v)
    unfolding in_vm
    in_vm-Ends v w bal =
        let (b, s) = lib.bytes_create wasm_bytes w.library in
        let (m, s') = lib.module_instance_create s in
        vm_module-Ends v b m _ (λ h. omega (arith, bal h))

  add_proposals-Ends :
      (conf : ℕ) (props : List ℕ) (body : Action S (Ending VmError) RunReport)
      → Ends base base body
      → Ends base base (add_proposals lib clock conf props body)
  add_proposals-Ends conf [] body k w b = k w b
  add_proposals-Ends conf (p ∷ props) body k w b = add_proposals-Ends conf props body k _ b

module _ {S : Type 0} (lib : Wasmedge S) (vms : WasmedgeVm S) (clock : S → ℕ × S) (env : Option ℕ)
    (window : Window) (after : After) (wasm_bytes fn_name : List ℕ) (arg iters : ℕ) where
  configured-Ends :
      (conf : ℕ)
      → let base = handle configure conf ∷ [] in
        Ends base base (configured lib vms clock env window after wasm_bytes fn_name arg iters conf)
  unfolding configured with_vm
  configured-Ends conf =
      let base = handle configure conf ∷ [] in
      let run = in_vm lib vms clock env window after wasm_bytes fn_name arg iters in
      add_proposals-Ends lib vms clock base conf proposals
        (with_new machine base (vms.vm_create conf) (own vm_null) vms.vm_delete run)
        (with_new-Ends base machine base (vms.vm_create conf) vm_null vms.vm_delete run refl (λ v.
          in_vm-Ends lib vms clock (handle machine v ∷ base) env window after wasm_bytes fn_name arg
            iters v))

-- Whatever the library answers, the runner has deleted or given away every object once for each time
-- that it was created, but for the objects left: none, or, when the host module cannot be made or
-- registered, the byte copy and the host module.
pub run_workload_wasmedge_iters-LeftBy :
    {S : Type 0} (lib : Wasmedge S) (vms : WasmedgeVm S) (clock : S → ℕ × S) (env : Option ℕ)
    (window : Window) (after : After) (wasm_bytes fn_name : List ℕ) (arg iters : ℕ) (s : S)
    → let end =
        run_workload_wasmedge_iters_inner lib vms clock env window after wasm_bytes fn_name arg
          iters
          (begin s) in
      (left : List Handle) × Balanced end.1.log left × LeftByVm end.0 left
unfolding run_workload_wasmedge_iters_inner
run_workload_wasmedge_iters-LeftBy lib vms clock env window after wasm_bytes fn_name arg iters s =
    let run = configured lib vms clock env window after wasm_bytes fn_name arg iters in
    let (left, balanced, by) =
      with_new-Ends [] configure [] lib.configure_create configure_null lib.configure_delete run
        refl (configured-Ends lib vms clock env window after wasm_bytes fn_name arg iters) (begin s)
        (λ h. refl) in
    (left, (λ h. omega (arith, balanced h, alive-append h left [])), by)
