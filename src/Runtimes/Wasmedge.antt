-- ===== src/Runtimes/Wasmedge.antt =====
-- The executor-level runners of crates/benchmark-core/src/wasmedge.rs over its C library. NULL is 0;
-- strings and value types are values; a function instance belongs to its module. No
-- object is deleted for NULL, where the code passes it to FunctionTypeDelete.
pub mod Released
pub mod Kept
pub mod Vm
pub mod Runs
use wasm_benchmark.Base.{
  ℕ, zero, suc, List, [], ◌∷◌, ◌++◌, Bool, true, false, Option, none, some, get_or,
}
use Prim.Native.String.{String}
use wasm_benchmark.Harness.Window.{Window, After, RunReport}
use wasm_benchmark.Runtimes.Trace.{
  Kind, Handle, closed, configure, loader, validator, executor, store, instance, functype, ast,
  byte_copy, opened,
}
use wasm_benchmark.Runtimes.Action.{
  Result, World, Ending, own, Action, handle, pure, raise, invoke, note, release, owned,
  unless_null, unless_zero, has_zero, ◌>>=◌, ◌>>◌, clocked, measuring_samples,
}

-- `WasmEdgeResult`: whether it is OK, and its message.
pub record Outcome : Type 0 where
  pub is_ok : Bool
  pub message : Option String

-- The C functions of wasmedge.h that the runners call. A value is its i32.
pub record Wasmedge (S : Type 0) : Type 0 where
  pub configure_create : S → ℕ × S
  pub configure_delete : ℕ → S → S
  pub configure_add_proposal : ℕ → ℕ → S → Unit {0} × S
  pub loader_create : ℕ → S → ℕ × S
  pub loader_delete : ℕ → S → S
  pub validator_create : ℕ → S → ℕ × S
  pub validator_delete : ℕ → S → S
  pub executor_create : ℕ → S → ℕ × S
  pub executor_delete : ℕ → S → S
  pub store_create : S → ℕ × S
  pub store_delete : ℕ → S → S
  pub module_instance_create : S → ℕ × S
  pub module_instance_delete : ℕ → S → S
  pub function_type_create : S → ℕ × S
  pub function_type_delete : ℕ → S → S
  pub function_instance_create : ℕ → S → ℕ × S
  pub module_instance_add_function : ℕ → ℕ → S → Unit {0} × S
  pub executor_register_import : ℕ → ℕ → ℕ → S → Outcome × S
  pub bytes_create : List ℕ → S → ℕ × S
  pub bytes_delete : ℕ → S → S
  pub loader_parse_from_bytes : ℕ → ℕ → S → (Outcome × ℕ) × S
  pub ast_module_delete : ℕ → S → S
  pub validator_validate : ℕ → ℕ → S → Outcome × S
  pub executor_instantiate : ℕ → ℕ → ℕ → S → (Outcome × ℕ) × S
  pub find_function : ℕ → List ℕ → S → ℕ × S
  pub executor_invoke : ℕ → ℕ → List ℕ → ℕ → S → (Outcome × List ℕ) × S

pub data WasmedgeError : Type 0 where
  configure_null creation_failed porf_module_null porf_func_null nul_in_name : WasmedgeError
  failed : String → String → WasmedgeError
  not_found : List ℕ → WasmedgeError

-- PROP_MULTI_VALUE and the seven others, in the order of the code.
abbrev pub proposals : List ℕ
proposals = 3 ∷ 4 ∷ 5 ∷ 6 ∷ 7 ∷ 8 ∷ 12 ∷ 14 ∷ []

abbrev pub message_of : Option String → String
message_of none = "(null error message)"
message_of (some text) = text

-- The objects of pointers that are not NULL.
abbrev pub present : Kind → ℕ → List Handle
present kind zero = []
present kind (suc p) = handle kind (suc p) ∷ []

module _ {S E : Type 0} where
  -- `err_from(r, ctx)?`
  abbrev pub err_from :
      {A : Type 0}
      → (WasmedgeError → E)
      → Bool
      → Option String
      → String
      → Action S E A
      → Action S E A
  err_from wrap true message ctx body = body
  err_from wrap false message ctx body = raise (wrap (failed ctx (message_of message)))

  -- `Guard(p, delete)`: the object is deleted at the end unless the pointer is NULL.
  abbrev pub guarded_any : {A : Type 0} → Kind → (ℕ → S → S) → ℕ → Action S E A → Action S E A
  guarded_any kind delete zero body w = body w
  guarded_any kind delete (suc p) body w =
      let (r, w') = body w in
      (
        r,
        record { library = delete (suc p) w'.library; log = closed (handle kind (suc p)) ∷ w'.log },
      )

  unfoldable pub with_guard :
      {A : Type 0}
      → Kind
      → List Handle
      → (S → ℕ × S)
      → (ℕ → S → S)
      → (ℕ → Action S E A)
      → Action S E A
  with_guard kind hs create delete body =
      invoke hs create >>= λ p. owned kind p >> guarded_any kind delete p (body p)

  -- A call with an outcome and a pointer, and the guard on the pointer.
  unfoldable pub with_outcome :
      {A : Type 0}
      → Kind
      → List Handle
      → (S → (Outcome × ℕ) × S)
      → (WasmedgeError → E)
      → String
      → (ℕ → S → S)
      → (ℕ → Action S E A)
      → Action S E A
  with_outcome kind hs create wrap ctx delete body = invoke hs create >>= λ answer.
      err_from wrap answer.0.is_ok answer.0.message ctx
        (owned kind answer.1 >> guarded_any kind delete answer.1 (body answer.1))

  unfoldable pub outcome_of :
      {A B : Type 0}
      → List Handle
      → (S → (Outcome × B) × S)
      → (WasmedgeError → E)
      → String
      → (B → Action S E A)
      → Action S E A
  outcome_of hs call wrap ctx body =
      invoke hs call >>= λ answer. err_from wrap answer.0.is_ok answer.0.message ctx (body answer.1)

module _ {S : Type 0} where
  -- An outcome without a pointer.
  abbrev pub alone : (S → Outcome × S) → S → (Outcome × Unit {0}) × S
  alone call s = let (r, s') = call s in ((r, tt), s')

module _ {S : Type 0} (lib : Wasmedge S) (clock : S → ℕ × S) where
  abbrev pub add_proposals : {E A : Type 0} → ℕ → List ℕ → Action S E A → Action S E A
  add_proposals conf [] body = body
  add_proposals conf (prop ∷ rest) body =
      invoke (handle configure conf ∷ []) (lib.configure_add_proposal conf prop) >>= λ _.
      add_proposals conf rest body

  -- One sample: a module instance, which is deleted after the clock is read.
  unfoldable pub executor_sample :
      ℕ → ℕ → ℕ → List ℕ → List ℕ → ℕ → ℕ → Action S WasmedgeError (ℕ × ℕ)
  executor_sample ex st a fn_name params n_returns result_index =
      with_outcome instance (present ast a ++ (handle store st ∷ (handle executor ex ∷ [])))
        (lib.executor_instantiate ex st a) (λ e. e) "ExecutorInstantiate" lib.module_instance_delete
        λ inst. invoke (present instance inst) (lib.find_function inst fn_name) >>= λ f.
          unless_null (not_found fn_name) f (
            outcome_of (present instance inst ++ (handle executor ex ∷ []))
              (lib.executor_invoke ex f params n_returns) (λ e. e) "ExecutorInvoke"
              λ returns. clocked clock (get_or returns result_index 0))

  -- The function of the Porffor import, whose type is deleted, and its registration.
  abbrev pub function_made : Action S (Ending WasmedgeError) ℕ
  function_made =
      with_guard functype [] lib.function_type_create lib.function_type_delete
        λ fty. invoke (present functype fty) (lib.function_instance_create fty)

  module _ {A : Type 0} (ex st : ℕ) (body : Action S (Ending WasmedgeError) A) where
    abbrev pub registered : ℕ → ℕ → Action S (Ending WasmedgeError) A
    registered m f = invoke (handle instance m ∷ []) (lib.module_instance_add_function m f) >>= λ _.
        outcome_of (handle instance m ∷ (handle store st ∷ (handle executor ex ∷ [])))
          (alone (lib.executor_register_import ex st m)) own "ExecutorRegisterImport(porf-b)"
          λ _. body

    abbrev pub with_function : ℕ → Action S (Ending WasmedgeError) A
    with_function m = function_made >>= λ f. unless_null (own porf_func_null) f (registered m f)

    -- The host module, and what follows with it.
    unfoldable pub with_porf_module : Action S (Ending WasmedgeError) A
    with_porf_module =
        with_guard instance [] lib.module_instance_create lib.module_instance_delete
          λ m. unless_null (own porf_module_null) m (with_function m)

  -- `LoaderParseFromBytes` between `BytesCreate` and `BytesDelete`.
  abbrev pub parsed_bytes : {E : Type 0} → ℕ → List ℕ → Action S E (Outcome × ℕ)
  parsed_bytes l wasm_bytes = invoke [] (lib.bytes_create wasm_bytes) >>= λ b.
      note (opened (handle byte_copy b))
      >> (invoke (handle byte_copy b ∷ (handle loader l ∷ [])) (lib.loader_parse_from_bytes l b)
          >>= λ answer. release (handle byte_copy b) (lib.bytes_delete b) >> pure answer)

  abbrev pub if_porf :
      {A : Type 0}
      → Bool
      → ℕ
      → ℕ
      → Action S (Ending WasmedgeError) A
      → Action S (Ending WasmedgeError) A
  if_porf false ex st body = body
  if_porf true ex st body = with_porf_module ex st body

  module _ (env : Option ℕ) (window : Window) (after : After) where
    -- The module is validated once, and the samples are measured.
    abbrev pub validated_samples :
        ℕ → ℕ → ℕ → ℕ → List ℕ → List ℕ → ℕ → ℕ → Action S (Ending WasmedgeError) RunReport
    validated_samples v ex st a fn_name params n_returns result_index =
        outcome_of (present ast a ++ handle validator v ∷ []) (alone (lib.validator_validate v a))
          own "ValidatorValidate"
          λ _. unless_zero (own nul_in_name) (has_zero fn_name) (
            measuring_samples clock env window after
              (executor_sample ex st a fn_name params n_returns result_index))

    -- It is parsed from a copy of its bytes, which is deleted at once; the module that was parsed_bytes
    -- is listed behind that.
    unfoldable pub parsed_samples :
        ℕ → ℕ → ℕ → ℕ → List ℕ → List ℕ → List ℕ → ℕ → ℕ → Action S (Ending WasmedgeError) RunReport
    parsed_samples l v ex st wasm_bytes fn_name params n_returns result_index =
        parsed_bytes l wasm_bytes >>= λ answer.
        err_from own answer.0.is_ok answer.0.message "LoaderParseFromBytes" (
          owned ast answer.1
          >> guarded_any ast lib.ast_module_delete answer.1
              (validated_samples v ex st answer.1 fn_name params n_returns result_index))

    unfoldable pub executor_samples :
        List ℕ → List ℕ → List ℕ → ℕ → ℕ → Bool → Action S (Ending WasmedgeError) RunReport
    executor_samples wasm_bytes fn_name params n_returns result_index porf_import =
        with_guard configure [] lib.configure_create lib.configure_delete λ conf.
          unless_null (own configure_null) conf (
            add_proposals conf proposals (
              with_guard loader (handle configure conf ∷ []) (lib.loader_create conf)
                lib.loader_delete
                λ l.
                  with_guard validator (handle configure conf ∷ []) (lib.validator_create conf)
                    lib.validator_delete
                    λ v.
                      with_guard executor (handle configure conf ∷ []) (lib.executor_create conf)
                        lib.executor_delete
                        λ ex. with_guard store [] lib.store_create lib.store_delete λ st.
                          unless_null (own creation_failed) l (
                            unless_null (own creation_failed) v (
                              unless_null (own creation_failed) ex (
                                unless_null (own creation_failed) st (
                                  if_porf porf_import ex st (
                                    parsed_samples l v ex st wasm_bytes fn_name params n_returns
                                      result_index)))))))

    unfoldable pub run_graphql_validation_porf_wasmedge_inner :
        List ℕ → Action S (Ending WasmedgeError) RunReport
    run_graphql_validation_porf_wasmedge_inner wasm_bytes =
        executor_samples wasm_bytes (109 ∷ []) [] 2 1 true

    -- Where the target is no 32-bit watch.
    unfoldable pub run_instantiate_each_wasmedge :
        List ℕ → List ℕ → ℕ → Action S (Ending WasmedgeError) RunReport
    run_instantiate_each_wasmedge wasm_bytes fn_name arg =
        executor_samples wasm_bytes fn_name (arg ∷ []) 1 0 false
