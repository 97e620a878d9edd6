-- ===== src/Runtimes/Wasmedge/Runs.antt =====
-- A WasmEdge whose state counts the objects that it made, and the theorem on it.
use wasm_benchmark.Base.{ℕ, suc, List, [], ◌∷◌, true, false, some, none}
use wasm_benchmark.Runtimes.Trace.{Handle}
use wasm_benchmark.Runtimes.Action.{begin}
use wasm_benchmark.Runtimes.Runs.{no_counters, no_after, clock, fresh}
use wasm_benchmark.Runtimes.Wasmedge.{Wasmedge, Outcome}
use wasm_benchmark.Runtimes.Wasmedge.Vm.{WasmedgeVm, run_workload_wasmedge_iters_inner}
use wasm_benchmark.Runtimes.Wasmedge.Vm.Left.{
  Balanced, LeftByVm, run_workload_wasmedge_iters-LeftBy,
}

abbrev fine : Outcome
fine = record { is_ok = true; message = none }

-- Its functions answer 4 and 7.
abbrev demo_wasmedge : Wasmedge ℕ
demo_wasmedge = record {
  configure_create = fresh;
  configure_delete = λ p s. s;
  configure_add_proposal = λ conf prop s. (tt, s);
  loader_create = λ conf s. fresh s;
  loader_delete = λ p s. s;
  validator_create = λ conf s. fresh s;
  validator_delete = λ p s. s;
  executor_create = λ conf s. fresh s;
  executor_delete = λ p s. s;
  store_create = fresh;
  store_delete = λ p s. s;
  module_instance_create = fresh;
  module_instance_delete = λ p s. s;
  function_type_create = fresh;
  function_type_delete = λ p s. s;
  function_instance_create = λ ty s. fresh s;
  module_instance_add_function = λ m f s. (tt, s);
  executor_register_import = λ ex st m s. (fine, s);
  bytes_create = λ bytes s. fresh s;
  bytes_delete = λ p s. s;
  loader_parse_from_bytes = λ l bytes s. ((fine, suc s), suc s);
  ast_module_delete = λ p s. s;
  validator_validate = λ v a s. (fine, s);
  executor_instantiate = λ ex st a s. ((fine, suc s), suc s);
  find_function = λ m name s. (9, s);
  executor_invoke = λ ex f params n s. ((fine, 4 ∷ (7 ∷ [])), s);
}

abbrev refused : Outcome
refused = record { is_ok = false; message = some "name in use" }

-- It refuses the host module.
abbrev demo_vm : WasmedgeVm ℕ
demo_vm = record {
  vm_create = λ conf s. fresh s;
  vm_delete = λ p s. s;
  vm_register_module_from_import = λ v m s. (refused, s);
  vm_load_wasm_from_bytes = λ v b s. (fine, s);
  vm_validate = λ v s. (fine, s);
  vm_instantiate = λ v s. (fine, s);
  vm_execute = λ v name params n s. ((fine, 5 ∷ []), s);
}

run_workload_wasmedge_iters-LeftBy_example :
    let end =
      run_workload_wasmedge_iters_inner demo_wasmedge demo_vm clock none no_counters no_after
        (0 ∷ [])
        (109 ∷ [])
        5
        1
        (begin 0) in
    (left : List Handle) × Balanced end.1.log left × LeftByVm end.0 left
run_workload_wasmedge_iters-LeftBy_example =
    run_workload_wasmedge_iters-LeftBy demo_wasmedge demo_vm clock none no_counters no_after
      (0 ∷ []) (109 ∷ []) 5 1 0
