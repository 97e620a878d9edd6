-- ===== src/Runtimes/Runs.antt =====
-- Libraries whose state counts the objects that they made, and the theorems on them.
use wasm_benchmark.Base.{refl, ℕ, suc, ◌≡◌, arith, List, [], ◌∷◌, true, false, none, some}
use wasm_benchmark.Harness.Window.{Window, After}
use wasm_benchmark.Runtimes.Trace.{Handle, Legal, start, creations, releases}
use wasm_benchmark.Runtimes.Action.{begin}
use wasm_benchmark.Runtimes.Wasmz.{
  Wasmz, run_workload_wasmz_iters, run_instantiate_each_wasmz, run_graphql_validation_porf_wasmz,
}
use wasm_benchmark.Runtimes.Wasmz.Released.{
  Creates, run_workload_wasmz_iters-Legal, fresh_instances_wasmz-Legal,
}
use wasm_benchmark.Runtimes.Wasm3.{Wasm3, run_workload_wasm3_iters}
use wasm_benchmark.Runtimes.Wasm3.Released.{run_workload_wasm3_iters-Legal}
use wasm_benchmark.Runtimes.Zwasm.{Zwasm, Cell, nothing_loaded, new_loaded}
use wasm_benchmark.Runtimes.Zwasm.New.{NewEnds, new_loaded-NewEnds}
use wasm_benchmark.Runtimes.Zwasm.Run.{print_import}
use wasm_benchmark.Runtimes.Wamr.{Wamr, run_workload_wamr_iters}
use wasm_benchmark.Runtimes.Wamr.Left.{LeftBy, run_workload_wamr_iters-LeftBy}
use wasm_benchmark.Runtimes.Wamr.Fresh.{run_instantiate_each_wamr, run_graphql_validation_porf_wamr}
use wasm_benchmark.Runtimes.Wamr.Fresh.Released.{fresh_instances_wamr-Legal}

abbrev pub no_counters : Window
no_counters = record { cpu = none; events = none; usage = none }

abbrev pub no_after : After
no_after = record { cpu = none; events = none; usage = none; rss = none }

-- Every call takes a millisecond.
abbrev pub clock : ℕ → ℕ × ℕ
clock s = (1_000_000, s)

abbrev pub fresh : ℕ → ℕ × ℕ
fresh s = (suc s, suc s)

-- A wasmz whose instances answer 7; the one of the store 0 does not exist.
abbrev demo_wasmz : Wasmz ℕ
demo_wasmz = record {
  engine_new = fresh;
  engine_delete = λ p s. s;
  store_new = λ e s. fresh s;
  store_delete = λ p s. s;
  module_new = λ e bytes s. ((0, suc s), suc s);
  module_delete = λ p s. s;
  instance_new = λ st m s. ((0, suc s), suc s);
  instance_delete = λ p s. s;
  instance_call =
      λ inst name args results s. ((0, record { kind = 0; of = 7 ∷ (0 ∷ (0 ∷ (0 ∷ []))) } ∷ []), s);
  error_delete = λ p s. s;
  error_message = λ p s. (none, s);
  linker_new = fresh;
  linker_delete = λ p s. s;
  linker_define_func = λ link m name params results s. ((0, tt), s);
  instance_new_with_linker = λ st m link s. ((0, suc s), suc s);
}

demo_wasmz-Creates : Creates demo_wasmz
demo_wasmz-Creates = record {
  modules = λ e bytes s h h'. absurd (omega arith);
  instances = λ st m s h h'. absurd (omega arith);
  linked = λ st m link s h h'. absurd (omega arith);
}

run_workload_wasmz_iters-Legal_example :
    let end =
      (run_workload_wasmz_iters demo_wasmz clock true none no_counters no_after
        (0 ∷ [])
        (102 ∷ [])
        5
        3
        (begin 0)).1 in
    Legal end.log [] × ((h : Handle) → creations h end.log ≡ releases h end.log)
run_workload_wasmz_iters-Legal_example =
    run_workload_wasmz_iters-Legal demo_wasmz clock true none no_counters no_after 0 (0 ∷ [])
      (102 ∷ []) 5 3

fresh_instances_wasmz-Legal_example :
    let each =
      (run_instantiate_each_wasmz demo_wasmz clock true none no_counters no_after
        (0 ∷ [])
        (102 ∷ [])
        5
        (begin 0)).1 in
    let porf =
      (run_graphql_validation_porf_wasmz demo_wasmz clock true none no_counters no_after
        (0 ∷ [])
        (begin 0)).1 in
    Legal each.log []
    × Legal porf.log []
    × ((h : Handle) → creations h each.log ≡ releases h each.log)
    × ((h : Handle) → creations h porf.log ≡ releases h porf.log)
fresh_instances_wasmz-Legal_example =
    fresh_instances_wasmz-Legal demo_wasmz clock true none no_counters no_after 0 demo_wasmz-Creates
      (0 ∷ []) (102 ∷ []) 5

-- A wasm3 whose function answers 7.
abbrev demo_wasm3 : Wasm3 ℕ
demo_wasm3 = record {
  new_environment = fresh;
  free_environment = λ p s. s;
  new_runtime = λ e stack s. fresh s;
  free_runtime = λ p s. s;
  parse_module = λ e bytes s. ((none, suc s), suc s);
  free_module = λ p s. s;
  load_module = λ rt m s. (none, s);
  find_function = λ rt name s. ((none, 9), s);
  call_function = λ func args s. ((none, tt), s);
  get_results = λ func s. ((none, 7), s);
}

run_workload_wasm3_iters-Legal_example :
    let end =
      (run_workload_wasm3_iters demo_wasm3 clock none no_counters no_after
        (0 ∷ [])
        (102 ∷ [])
        5
        3
        (begin 0)).1 in
    Legal end.log [] × ((h : Handle) → creations h end.log ≡ releases h end.log)
run_workload_wasm3_iters-Legal_example =
    run_workload_wasm3_iters-Legal demo_wasm3 clock none no_counters no_after 0 (0 ∷ []) (102 ∷ [])
      5 3

-- A WAMR whose calls trap.
abbrev demo_wamr : Wamr ℕ
demo_wamr = record {
  load = λ bytes s. ((suc s, ""), suc s);
  unload = λ p s. s;
  instantiate = λ m stack heap s. ((suc s, ""), suc s);
  deinstantiate = λ p s. s;
  lookup_function = λ inst name s. (9, s);
  create_exec_env = λ inst stack s. ((suc s, tt), suc s);
  destroy_exec_env = λ p s. s;
  call_wasm = λ x func argv s. ((false, argv), s);
  call_wasm_v = λ x func s. ((false, 0), s);
  get_exception = λ inst s. (some "unreachable", s);
}

run_workload_wamr_iters-LeftBy_example :
    let end =
      run_workload_wamr_iters demo_wamr clock true none no_counters no_after
        (0 ∷ [])
        (102 ∷ [])
        5
        3
        (begin 0) in
    (left : List Handle) × Legal end.1.log left × LeftBy end.0 left
run_workload_wamr_iters-LeftBy_example =
    run_workload_wamr_iters-LeftBy demo_wamr clock true none no_counters no_after 0 (0 ∷ [])
      (102 ∷ []) 5 3

fresh_instances_wamr-Legal_example :
    let each =
      (run_instantiate_each_wamr demo_wamr clock true none no_counters no_after
        (0 ∷ [])
        (102 ∷ [])
        5
        (begin 0)).1 in
    let porf =
      (run_graphql_validation_porf_wamr demo_wamr clock true none no_counters no_after
        (0 ∷ [])
        (begin 0)).1 in
    Legal each.log []
    × Legal porf.log []
    × ((h : Handle) → creations h each.log ≡ releases h each.log)
    × ((h : Handle) → creations h porf.log ≡ releases h porf.log)
fresh_instances_wamr-Legal_example =
    fresh_instances_wamr-Legal demo_wamr clock none no_counters no_after 0 true (0 ∷ []) (102 ∷ [])
      5

-- A zwasm whose instances are interpreted and have one export, which answers 7.
abbrev demo_zwasm : Zwasm ℕ
demo_zwasm = record {
  engine_new = fresh;
  engine_delete = λ p s. s;
  store_new = λ e s. fresh s;
  store_delete = λ p s. s;
  byte_vec_new = λ bytes s. fresh s;
  byte_vec_delete = λ p s. s;
  module_new = λ st bytes s. fresh s;
  module_delete = λ p s. s;
  module_exports = λ m s. ((suc s, "m" ∷ []), suc s);
  exporttype_vec_delete = λ p s. s;
  functype_new = λ params results s. fresh s;
  functype_delete = λ p s. s;
  func_new = λ st ty callback s. (8, s);
  func_as_extern = λ f s. (f, s);
  extern_as_func = λ x s. (x, s);
  instance_new_ex = λ st m hosts kind s. ((suc s, 0), suc s);
  instance_engine = λ inst s. ((true, 2), s);
  instance_exports = λ inst s. (record { data_pointer = suc s; externs = 9 ∷ [] }, suc s);
  extern_vec_delete = λ p s. s;
  instance_delete = λ p s. s;
  func_call = λ f args results s. ((0, record { kind = 0; of = 7 } ∷ []), s);
  trap_message = λ t s. ((0, none), s);
  trap_delete = λ t s. s;
}

abbrev demo_cell : Cell ℕ
demo_cell = record { state = 0; loaded = nothing_loaded }

new_loaded-NewEnds_example :
    NewEnds (new_loaded demo_zwasm (0 ∷ []) (print_import ∷ []) (begin demo_cell))
new_loaded-NewEnds_example =
    new_loaded-NewEnds demo_zwasm (λ st m hosts kind s h. refl) (0 ∷ []) (print_import ∷ [])
      (begin demo_cell) start
