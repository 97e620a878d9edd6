-- ===== src/Runtimes/Wasmz.antt =====
-- crates/benchmark-core/src/wasmz.rs over its C library. The loops of the runner that are written
-- out there are those of `measure_calls`.
pub mod Released
pub mod Values
use wasm_benchmark.Base.{
  ℕ, ◌+◌, ◌*◌, ◌/◌, ◌%◌, ◌^◌, List, [], ◌∷◌, ◌++◌, Option, none, some, take, replicate, get_or,
  zero, suc, Bool,
}
use Prim.Native.String.{String}
use wasm_benchmark.Harness.Window.{Window, After, RunReport}
use wasm_benchmark.Harness.Measure.{Attempt, measure_calls, measure_samples}
use wasm_benchmark.Runtimes.Trace.{
  Kind, Handle, engine, store, wasm_module, linker, instance, error, closed, opened,
}
use wasm_benchmark.Runtimes.Thread.{Joined, run_on_thread}
use wasm_benchmark.Runtimes.Action.{
  Result, done, raised, Ending, own, World, Action, handle, pure, raise, invoke, note, release,
  guarded, owned, unless_null, unless_error, unless_zero, has_zero, of_answer, attempt_of, ◌>>=◌,
  ◌>>◌, elapsed, outside, with_new, try_call, with_filled, with_unchecked, measuring_calls,
  measuring_samples, clocked,
}

-- The bytes are those of the 16-byte payload; an i32 is its 32 bits.
pub record WasmzVal : Type 0 where
  pub kind : ℕ
  pub of : List ℕ

-- `to_le_bytes` and `from_le_bytes` of an i32.
abbrev pub to_le_bytes : ℕ → List ℕ
to_le_bytes v = v % 256 ∷ (v / 256 % 256 ∷ (v / 65536 % 256 ∷ (v / 16777216 % 256 ∷ [])))

abbrev pub from_le_bytes : List ℕ → ℕ
from_le_bytes [] = 0
from_le_bytes (b ∷ bytes) = b + 256 * from_le_bytes bytes

abbrev pub wasmz_val_i32 : ℕ
wasmz_val_i32 = 0

unfoldable pub i32_val : ℕ → WasmzVal
i32_val v = record { kind = wasmz_val_i32; of = to_le_bytes v ++ replicate 12 0 }

unfoldable pub as_i32 : WasmzVal → ℕ
as_i32 v = from_le_bytes (take 4 v.of)

-- The C functions of include/wasmz.h, over the state of the library. A pointer is a number, NULL
-- is 0; a pointer to an error comes with what the function wrote.
pub record Wasmz (S : Type 0) : Type 0 where
  pub engine_new : S → ℕ × S
  pub engine_delete : ℕ → S → S
  pub store_new : ℕ → S → ℕ × S
  pub store_delete : ℕ → S → S
  pub module_new : ℕ → List ℕ → S → (ℕ × ℕ) × S
  pub module_delete : ℕ → S → S
  pub instance_new : ℕ → ℕ → S → (ℕ × ℕ) × S
  pub instance_delete : ℕ → S → S
  pub instance_call : ℕ → List ℕ → List WasmzVal → List WasmzVal → S → (ℕ × List WasmzVal) × S
  pub error_delete : ℕ → S → S
  pub error_message : ℕ → S → Option String × S
  pub linker_new : S → ℕ × S
  pub linker_delete : ℕ → S → S
  pub linker_define_func : ℕ → List ℕ → List ℕ → List ℕ → List ℕ → S → (ℕ × Unit {0}) × S
  pub instance_new_with_linker : ℕ → ℕ → ℕ → S → (ℕ × ℕ) × S

-- The texts of the errors, with the message of the library where they hold one.
pub data WasmzError : Type 0 where
  engine_null store_null linker_null module_null instance_null nul_in_name : WasmzError
  module_failed instance_failed call_trap define_func_failed with_linker_failed m_trap :
      String → WasmzError

abbrev pub message_or : Option String → String
message_or none = "(no error message)"
message_or (some text) = text

module _ {S : Type 0} (lib : Wasmz S) where
  -- `err_msg`: the text of an error, whose object is deleted.
  abbrev pub err_msg : {E : Type 0} → ℕ → Action S E String
  err_msg zero = pure "(no error)"
  err_msg (suc e) = invoke (handle error (suc e) ∷ []) (lib.error_message (suc e)) >>= λ text.
      release (handle error (suc e)) (lib.error_delete (suc e)) >> pure (message_or text)

  -- `return Err(anyhow!("..", err_msg(err)))`
  unfoldable pub fail_with : {E A : Type 0} → (String → E) → ℕ → Action S E A
  fail_with which e = err_msg e >>= λ text. raise (which text)

-- The clock, and what a measurement takes: the size from the environment, and the counters.
module _ {S : Type 0} (lib : Wasmz S) (clock : S → ℕ × S) where
  -- The closure `call` of the runner.
  unfoldable pub call_instance : ℕ → List ℕ → ℕ → Action S WasmzError (ℕ × ℕ)
  unfolding i32_val as_i32
  call_instance inst name arg =
      try_call (handle instance inst ∷ [])
        (lib.instance_call inst name (i32_val arg ∷ []) (i32_val 0 ∷ [])) (fail_with lib call_trap)
        (λ results. clocked clock (as_i32 (get_or results 0 (i32_val 0))))

  unfoldable pub run_workload_wasmz_iters_inner :
      Option ℕ → Window → After → List ℕ → List ℕ → ℕ → ℕ → Action S (Ending WasmzError) RunReport
  unfolding call_instance
  run_workload_wasmz_iters_inner env window after wasm_bytes fn_name arg iters =
      with_new engine [] lib.engine_new (own engine_null) lib.engine_delete λ eng.
        with_new store (handle engine eng ∷ []) (lib.store_new eng) (own store_null)
          lib.store_delete
          λ st.
            try_call (handle engine eng ∷ []) (lib.module_new eng wasm_bytes)
              (fail_with lib λ text. own (module_failed text))
              (with_filled wasm_module (own module_null) lib.module_delete λ m.
                try_call (handle store st ∷ (handle wasm_module m ∷ [])) (lib.instance_new st m)
                  (fail_with lib λ text. own (instance_failed text))
                  (with_filled instance (own instance_null) lib.instance_delete λ inst.
                    unless_zero (own nul_in_name) (has_zero fn_name) (
                      measuring_calls clock env window after iters
                        (call_instance inst fn_name arg))))

  -- A sample on a fresh instance, which is deleted after the clock is read.
  unfoldable pub instantiate_sample : ℕ → ℕ → List ℕ → ℕ → Action S WasmzError (ℕ × ℕ)
  unfolding i32_val as_i32
  instantiate_sample st m name arg =
      try_call (handle store st ∷ (handle wasm_module m ∷ [])) (lib.instance_new st m)
        (fail_with lib instance_failed)
        (with_unchecked instance lib.instance_delete λ inst.
          try_call (handle instance inst ∷ [])
            (lib.instance_call inst name (i32_val arg ∷ []) (i32_val 0 ∷ []))
            (fail_with lib call_trap)
            (λ results. clocked clock (as_i32 (get_or results 0 (i32_val 0)))))

  unfoldable pub instantiate_each_inner :
      Option ℕ → Window → After → List ℕ → List ℕ → ℕ → Action S (Ending WasmzError) RunReport
  unfolding instantiate_sample
  instantiate_each_inner env window after wasm_bytes fn_name arg =
      with_new engine [] lib.engine_new (own engine_null) lib.engine_delete λ eng.
        with_new store (handle engine eng ∷ []) (lib.store_new eng) (own store_null)
          lib.store_delete
          λ st.
            try_call (handle engine eng ∷ []) (lib.module_new eng wasm_bytes)
              (fail_with lib λ text. own (module_failed text))
              (with_unchecked wasm_module lib.module_delete λ m.
                unless_zero (own nul_in_name) (has_zero fn_name)
                  (measuring_samples clock env window after (instantiate_sample st m fn_name arg)))

  -- The sample of the Porffor runner: `m()` without arguments and with two results.
  unfoldable pub porf_sample : ℕ → ℕ → ℕ → Action S WasmzError (ℕ × ℕ)
  unfolding as_i32
  porf_sample st m link =
      let prefilled : List WasmzVal =
        record { kind = 3; of = replicate 16 0 }
        ∷ (record { kind = wasmz_val_i32; of = replicate 16 0 } ∷ []) in
      try_call (handle store st ∷ (handle wasm_module m ∷ (handle linker link ∷ [])))
        (lib.instance_new_with_linker st m link) (fail_with lib with_linker_failed)
        (with_unchecked instance lib.instance_delete λ inst.
          try_call (handle instance inst ∷ []) (lib.instance_call inst (109 ∷ []) [] prefilled)
            (fail_with lib m_trap)
            (λ results. clocked clock (as_i32 (get_or results 1 (i32_val 0)))))

  unfoldable pub run_graphql_validation_porf_wasmz_inner :
      Option ℕ → Window → After → List ℕ → Action S (Ending WasmzError) RunReport
  unfolding porf_sample
  run_graphql_validation_porf_wasmz_inner env window after wasm_bytes =
      with_new engine [] lib.engine_new (own engine_null) lib.engine_delete λ eng.
        with_new store (handle engine eng ∷ []) (lib.store_new eng) (own store_null)
          lib.store_delete
          λ st. with_new linker [] lib.linker_new (own linker_null) lib.linker_delete λ link.
            try_call (handle linker link ∷ [])
              (lib.linker_define_func link [] (98 ∷ []) (3 ∷ []) [])
              (fail_with lib λ text. own (define_func_failed text))
              λ _.
                try_call (handle engine eng ∷ []) (lib.module_new eng wasm_bytes)
                  (fail_with lib λ text. own (module_failed text))
                  (with_unchecked wasm_module lib.module_delete
                    λ m. measuring_samples clock env window after (porf_sample st m link))

-- The functions that `run_case` calls, each on a thread of its own.
module _ {S : Type 0} (lib : Wasmz S) (clock : S → ℕ × S) (spawned : Bool) (env : Option ℕ)
    (window : Window) (after : After) where
  unfoldable pub run_workload_wasmz_iters :
      List ℕ → List ℕ → ℕ → ℕ → Action S (Joined WasmzError) RunReport
  run_workload_wasmz_iters wasm_bytes fn_name arg iters =
      run_on_thread spawned
        (run_workload_wasmz_iters_inner lib clock env window after wasm_bytes fn_name arg iters)

  unfoldable pub run_workload_wasmz : List ℕ → List ℕ → ℕ → Action S (Joined WasmzError) RunReport
  unfolding run_workload_wasmz_iters
  run_workload_wasmz wasm_bytes fn_name arg = run_workload_wasmz_iters wasm_bytes fn_name arg 0

  unfoldable pub run_instantiate_each_wasmz :
      List ℕ → List ℕ → ℕ → Action S (Joined WasmzError) RunReport
  run_instantiate_each_wasmz wasm_bytes fn_name arg =
      run_on_thread spawned
        (instantiate_each_inner lib clock env window after wasm_bytes fn_name arg)

  unfoldable pub run_graphql_validation_porf_wasmz : List ℕ → Action S (Joined WasmzError) RunReport
  run_graphql_validation_porf_wasmz wasm_bytes =
      run_on_thread spawned
        (run_graphql_validation_porf_wasmz_inner lib clock env window after wasm_bytes)
