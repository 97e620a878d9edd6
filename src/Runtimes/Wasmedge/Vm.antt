-- ===== src/Runtimes/Wasmedge/Vm.antt =====
-- run_workload_wasmedge_iters_inner of crates/benchmark-core/src/wasmedge.rs: a module is loaded
-- into a VM, next to a host module for Porffor, and an export is called. Strings and value types are
-- values; the byte copy is an object. `init`, which does nothing, is left out.
pub mod Left
use wasm_benchmark.Base.{ℕ, List, [], ◌∷◌, Bool, true, false, Option, get_or}
use Prim.Native.String.{String}
use wasm_benchmark.Harness.Window.{Window, After, RunReport}
use wasm_benchmark.Runtimes.Trace.{
  opened, handed, configure, machine, instance, functype, byte_copy,
}
use wasm_benchmark.Runtimes.Action.{
  Ending, own, Action, handle, raise, note, invoke, release, owned, unless_null, unless_zero,
  has_zero, ◌>>=◌, ◌>>◌, with_new, clocked, measuring_calls,
}
use wasm_benchmark.Runtimes.Wasmedge.{Wasmedge, Outcome, proposals, message_of, add_proposals}

-- The C functions that this runner calls besides those of the runners over the executor.
pub record WasmedgeVm (S : Type 0) : Type 0 where
  pub vm_create : ℕ → S → ℕ × S
  pub vm_delete : ℕ → S → S
  pub vm_register_module_from_import : ℕ → ℕ → S → Outcome × S
  pub vm_load_wasm_from_bytes : ℕ → ℕ → S → Outcome × S
  pub vm_validate : ℕ → S → Outcome × S
  pub vm_instantiate : ℕ → S → Outcome × S
  pub vm_execute : ℕ → List ℕ → List ℕ → ℕ → S → (Outcome × List ℕ) × S

pub data VmError : Type 0 where
  configure_null vm_null porf_module_null porf_functype_null porf_func_null nul_in_name : VmError
  vm_failed : String → String → VmError
  register_failed : String → VmError

module _ {S E : Type 0} where
  -- `err_from(r, ctx)?`
  abbrev pub or_failed :
      {A : Type 0} → (String → E) → Bool → Option String → Action S E A → Action S E A
  or_failed e true message body = body
  or_failed e false message body = raise (e (message_of message))

module _ {S : Type 0} (lib : Wasmedge S) (vms : WasmedgeVm S) (clock : S → ℕ × S) where
  -- The closure `call`.
  unfoldable pub vm_call : ℕ → List ℕ → ℕ → Action S VmError (ℕ × ℕ)
  vm_call v fn_name arg =
      invoke (handle machine v ∷ []) (vms.vm_execute v fn_name (arg ∷ []) 1) >>= λ answer.
      or_failed (vm_failed "VMExecute") answer.0.is_ok answer.0.message
        (clocked clock (get_or answer.1 0 0))

  module _ (env : Option ℕ) (window : Window) (after : After) (wasm_bytes fn_name : List ℕ)
      (arg iters : ℕ) where
    unfoldable pub vm_measured : ℕ → Action S (Ending VmError) RunReport
    vm_measured v =
        unless_zero (own nul_in_name) (has_zero fn_name)
          (measuring_calls clock env window after iters (vm_call v fn_name arg))

    unfoldable pub vm_started : ℕ → Action S (Ending VmError) RunReport
    vm_started v = invoke (handle machine v ∷ []) (vms.vm_validate v) >>= λ valid.
        or_failed (λ text. own (vm_failed "VMValidate" text)) valid.is_ok valid.message
          (invoke (handle machine v ∷ []) (vms.vm_instantiate v) >>= λ ready.
            or_failed (λ text. own (vm_failed "VMInstantiate" text)) ready.is_ok ready.message
              (vm_measured v))

    -- The byte copy is deleted once it is parsed.
    unfoldable pub vm_loaded : ℕ → ℕ → Action S (Ending VmError) RunReport
    vm_loaded v b =
        invoke (handle byte_copy b ∷ (handle machine v ∷ [])) (vms.vm_load_wasm_from_bytes v b)
        >>= λ loaded.
            release (handle byte_copy b) (lib.bytes_delete b)
            >> or_failed (λ text. own (vm_failed "VMLoadWasmFromBytes" text)) loaded.is_ok
                loaded.message (vm_started v)

    -- A module that is registered belongs to the VM.
    unfoldable pub vm_registered : ℕ → ℕ → ℕ → Action S (Ending VmError) RunReport
    vm_registered v b m =
        invoke (handle instance m ∷ (handle machine v ∷ []))
          (vms.vm_register_module_from_import v m)
        >>= λ taken.
            or_failed (λ text. own (register_failed text)) taken.is_ok taken.message
              (note (handed (handle instance m)) >> vm_loaded v b)

    unfoldable pub vm_function : ℕ → ℕ → ℕ → ℕ → Action S (Ending VmError) RunReport
    vm_function v b m f = unless_null (own porf_func_null) f (
        invoke (handle instance m ∷ []) (lib.module_instance_add_function m f) >>= λ _.
        vm_registered v b m)

    unfoldable pub vm_functype : ℕ → ℕ → ℕ → ℕ → Action S (Ending VmError) RunReport
    vm_functype v b m ty = unless_null (own porf_functype_null) ty (
        invoke (handle functype ty ∷ []) (lib.function_instance_create ty) >>= λ f.
        release (handle functype ty) (lib.function_type_delete ty) >> vm_function v b m f)

    unfoldable pub vm_module : ℕ → ℕ → ℕ → Action S (Ending VmError) RunReport
    vm_module v b m =
        unless_null (own porf_module_null) m
          (invoke [] lib.function_type_create >>= λ ty. owned functype ty >> vm_functype v b m ty)

    unfoldable pub in_vm : ℕ → Action S (Ending VmError) RunReport
    in_vm v = invoke [] (lib.bytes_create wasm_bytes) >>= λ b.
        note (opened (handle byte_copy b))
        >> (invoke [] lib.module_instance_create >>= λ m. owned instance m >> vm_module v b m)

    unfoldable pub with_vm : ℕ → Action S (Ending VmError) RunReport
    with_vm conf =
        with_new machine (handle configure conf ∷ []) (vms.vm_create conf) (own vm_null)
          vms.vm_delete in_vm

    unfoldable pub configured : ℕ → Action S (Ending VmError) RunReport
    configured conf = add_proposals lib clock conf proposals (with_vm conf)

    unfoldable pub run_workload_wasmedge_iters_inner : Action S (Ending VmError) RunReport
    run_workload_wasmedge_iters_inner =
        with_new configure [] lib.configure_create (own configure_null) lib.configure_delete
          configured
