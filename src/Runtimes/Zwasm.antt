-- ===== src/Runtimes/Zwasm.antt =====
-- crates/benchmark-core/src/zwasm.rs over its C library: the struct `Loaded`, which owns an engine,
-- a store, a module and at most one instance with its exports. NULL is 0, and a vector
-- is its data pointer; the vectors of value types, which `functype` gives away, are values. An i32 is its 32 bits.
pub mod Owned
pub mod New
pub mod Run
use wasm_benchmark.Base.{
  ℕ, zero, suc, ◌%◌, ◌^◌, List, [], ◌∷◌, ◌++◌, Bool, true, false, Option, none, some, length,
  get_or, ◌==◌, not, ◌||◌, if◌then◌else◌, get_elem?, ◌&&◌,
}
use Prim.Native.String.{String}
use text.Mathlib.Text.{◌==◌ as str_eq}
use wasm_benchmark.Runtimes.Trace.{
  Kind, Handle, engine, store, wasm_module, instance, exports, trap, functype, byte_copy,
  export_types, opened, used,
}
use wasm_benchmark.Runtimes.Action.{
  Result, done, raised, World, Action, handle, pure, raise, invoke, note, release, owned,
  unless_null, ◌>>=◌, ◌>>◌,
}

-- `wasm_val_t`: of is a u64. `wasm_extern_vec_t`: its data pointer and its externs.
pub record Val : Type 0 where
  pub kind : ℕ
  pub of : ℕ

pub record ExternVec : Type 0 where
  pub data_pointer : ℕ
  pub externs : List ℕ

pub record HostImport : Type 0 where
  pub params : List ℕ
  pub results : List ℕ
  pub callback : ℕ

-- The C functions of wasm.h and zwasm.h, over the state of the library.
pub record Zwasm (S : Type 0) : Type 0 where
  pub engine_new : S → ℕ × S
  pub engine_delete : ℕ → S → S
  pub store_new : ℕ → S → ℕ × S
  pub store_delete : ℕ → S → S
  pub byte_vec_new : List ℕ → S → ℕ × S
  pub byte_vec_delete : ℕ → S → S
  pub module_new : ℕ → ℕ → S → ℕ × S
  pub module_delete : ℕ → S → S
  pub module_exports : ℕ → S → (ℕ × List String) × S
  pub exporttype_vec_delete : ℕ → S → S
  pub functype_new : List ℕ → List ℕ → S → ℕ × S
  pub functype_delete : ℕ → S → S
  pub func_new : ℕ → ℕ → ℕ → S → ℕ × S
  pub func_as_extern : ℕ → S → ℕ × S
  pub extern_as_func : ℕ → S → ℕ × S
  pub instance_new_ex : ℕ → ℕ → List ℕ → ℕ → S → (ℕ × ℕ) × S
  pub instance_engine : ℕ → S → (Bool × ℕ) × S
  pub instance_exports : ℕ → S → ExternVec × S
  pub extern_vec_delete : ℕ → S → S
  pub instance_delete : ℕ → S → S
  pub func_call : ℕ → List Val → List Val → S → (ℕ × List Val) × S
  pub trap_message : ℕ → S → (ℕ × Option String) × S
  pub trap_delete : ℕ → S → S

pub record Loaded : Type 0 where
  pub engine_pointer : ℕ
  pub store_pointer : ℕ
  pub module_pointer : ℕ
  pub instance_pointer : ℕ
  pub export_vec : ExternVec
  pub export_names : List String
  pub host_externs : List ℕ

pub data ZwasmError : Type 0 where
  engine_null store_null module_null func_null instance_failed not_interpreted : ZwasmError
  count_mismatch : ℕ → ℕ → ZwasmError
  instance_trapped call_trapped : String → ZwasmError
  not_found not_a_function : String → ZwasmError

abbrev pub empty_vec : ExternVec
empty_vec = record { data_pointer = 0; externs = [] }

abbrev pub nothing_loaded : Loaded
nothing_loaded = record {
  engine_pointer = 0;
  store_pointer = 0;
  module_pointer = 0;
  instance_pointer = 0;
  export_vec = empty_vec;
  export_names = [];
  host_externs = [];
}

abbrev pub engine_interp : ℕ
engine_interp = 2

-- The state that the functions of `Loaded` share: the library's, and the struct.
pub record Cell (S : Type 0) : Type 0 where
  pub state : S
  pub loaded : Loaded

abbrev pub message_text : Option String → String
message_text none = "(no trap message)"
message_text (some text) = text

-- The object of a pointer, unless it is NULL.
abbrev pub not_null : Kind → ℕ → List Handle
not_null kind zero = []
not_null kind (suc p) = handle kind (suc p) ∷ []

module _ {S : Type 0} where
  abbrev pub on_state : {A : Type 0} → (S → A × S) → Cell S → A × Cell S
  on_state f c = let (a, s) = f c.state in (a, record { state = s; loaded = c.loaded })

  abbrev pub on_library : (S → S) → Cell S → Cell S
  on_library f c = record { state = f c.state; loaded = c.loaded }

  abbrev pub get_loaded : {E : Type 0} → Action (Cell S) E Loaded
  get_loaded w = (done w.library.loaded, w)

  abbrev pub set_loaded : {E : Type 0} → (Loaded → Loaded) → Action (Cell S) E Unit
  set_loaded f w = (
    done tt,
    record {
      library = record { state = w.library.state; loaded = f w.library.loaded };
      log = w.log;
    },
  )

  -- A deletion unless the pointer is NULL.
  abbrev pub delete_any : {E : Type 0} → Kind → (ℕ → S → S) → ℕ → Action (Cell S) E Unit
  delete_any kind delete zero = pure tt
  delete_any kind delete (suc p) = release (handle kind (suc p)) (on_library (delete (suc p)))

module _ {S : Type 0} (lib : Zwasm S) where
  -- `Drop for Loaded`, from its last deletion to its first. That of a vector without data does
  -- nothing.
  abbrev pub drop_engine : Loaded → Action (Cell S) ZwasmError Unit
  drop_engine l = delete_any engine lib.engine_delete l.engine_pointer

  abbrev pub drop_store : Loaded → Action (Cell S) ZwasmError Unit
  drop_store l = delete_any store lib.store_delete l.store_pointer >> drop_engine l

  abbrev pub drop_module : Loaded → Action (Cell S) ZwasmError Unit
  drop_module l = delete_any wasm_module lib.module_delete l.module_pointer >> drop_store l

  abbrev pub drop_instance : Loaded → Action (Cell S) ZwasmError Unit
  drop_instance l = delete_any instance lib.instance_delete l.instance_pointer >> drop_module l

  unfoldable pub drop_loaded : Action (Cell S) ZwasmError Unit
  drop_loaded = get_loaded >>= λ l.
      delete_any exports lib.extern_vec_delete l.export_vec.data_pointer >> drop_instance l

  -- `release`: delete the current instance, if any.
  abbrev pub release_at : ℕ → ℕ → Action (Cell S) ZwasmError Unit
  release_at data_pointer zero = pure tt
  release_at data_pointer (suc p) =
      delete_any exports lib.extern_vec_delete data_pointer
      >> (set_loaded (λ l. record l { export_vec = empty_vec })
          >> (release (handle instance (suc p)) (on_library (lib.instance_delete (suc p)))
              >> set_loaded (λ l. record l { instance_pointer = 0 })))

  unfoldable pub release_instance : Action (Cell S) ZwasmError Unit
  release_instance = get_loaded >>= λ l. release_at l.export_vec.data_pointer l.instance_pointer

  -- `trap_text`: the text of a trap, whose object is deleted.
  abbrev pub trap_text : ℕ → Action (Cell S) ZwasmError String
  trap_text zero = pure "(null trap)"
  trap_text (suc t) =
      invoke (handle trap (suc t) ∷ []) (on_state (lib.trap_message (suc t))) >>= λ msg.
      owned byte_copy msg.0
      >> delete_any byte_copy lib.byte_vec_delete msg.0
      >> release (handle trap (suc t)) (on_library (lib.trap_delete (suc t)))
      >> pure (message_text msg.1)

  -- The errors of `instantiate` where there is no instance: a trap's text, or the other one.
  abbrev pub no_instance : ℕ → Action (Cell S) ZwasmError Unit
  no_instance zero = raise instance_failed
  no_instance (suc t) = trap_text (suc t) >>= λ text. raise (instance_trapped text)

  -- The exports of an instance that the interpreter runs, and their count.
  abbrev pub count_checked : ℕ → ℕ → Action (Cell S) ZwasmError Unit
  count_checked n names = if n == names then pure tt else raise (count_mismatch n names)

  abbrev pub with_exports : ℕ → Bool → Action (Cell S) ZwasmError Unit
  with_exports inst false = raise not_interpreted
  with_exports inst true =
      invoke (handle instance inst ∷ []) (on_state (lib.instance_exports inst)) >>= λ v.
      owned exports v.data_pointer
      >> set_loaded (λ l. record l { export_vec = v })
      >> get_loaded
      >>= λ l. count_checked (length v.externs) (length l.export_names)

  abbrev pub with_instance : ℕ → ℕ → Action (Cell S) ZwasmError Unit
  with_instance zero t = no_instance t
  with_instance (suc p) t =
      note (opened (handle instance (suc p)))
      >> set_loaded (λ l. record l { instance_pointer = suc p })
      >> invoke (handle instance (suc p) ∷ []) (on_state (lib.instance_engine (suc p)))
      >>= λ answer. with_exports (suc p) (answer.0 && answer.1 == engine_interp)

  unfoldable pub instantiate : Action (Cell S) ZwasmError Unit
  unfolding release_instance
  instantiate = release_instance >> get_loaded >>= λ l.
      invoke (handle wasm_module l.module_pointer ∷ (handle store l.store_pointer ∷ [])) (
        on_state
          (lib.instance_new_ex l.store_pointer l.module_pointer l.host_externs engine_interp))
      >>= λ answer. owned trap answer.1 >> with_instance answer.0 answer.1

  -- The host functions of the imports, which the store owns: the function of a type, and the type.
  abbrev pub with_func : ℕ → ℕ → Action (Cell S) ZwasmError Unit → Action (Cell S) ZwasmError Unit
  with_func st f next = unless_null func_null f (
      invoke (handle store st ∷ []) (on_state (lib.func_as_extern f)) >>= λ x.
      set_loaded (λ k. record k { host_externs = k.host_externs ++ x ∷ [] }) >> next)

  abbrev pub with_type :
      ℕ → HostImport → ℕ → Action (Cell S) ZwasmError Unit → Action (Cell S) ZwasmError Unit
  with_type st imp ty next =
      owned functype ty
      >> (invoke (not_null functype ty ++ (handle store st ∷ []))
            (on_state (lib.func_new st ty imp.callback))
          >>= λ f. delete_any functype lib.functype_delete ty >> with_func st f next)

  unfoldable pub define_imports : List HostImport → Action (Cell S) ZwasmError Unit
  define_imports [] = pure tt
  define_imports (imp ∷ rest) = get_loaded >>= λ l.
      invoke [] (on_state (lib.functype_new imp.params imp.results)) >>= λ ty.
      with_type l.store_pointer imp ty (define_imports rest)

  -- `Loaded::new`, from its last step to its first. The names are read out of a vector.
  abbrev pub named : ℕ → List String → Action (Cell S) ZwasmError Unit
  named types names =
      owned export_types types
      >> note (used (not_null export_types types))
      >> set_loaded (λ l. record l { export_names = names })
      >> delete_any export_types lib.exporttype_vec_delete types
      >> instantiate

  abbrev pub with_names : ℕ → Action (Cell S) ZwasmError Unit
  with_names m = invoke (handle wasm_module m ∷ []) (on_state (lib.module_exports m)) >>= λ answer.
      named answer.0 answer.1

  abbrev pub with_module : List HostImport → ℕ → Action (Cell S) ZwasmError Unit
  with_module imports m =
      owned wasm_module m
      >> (set_loaded (λ l. record l { module_pointer = m })
          >> unless_null module_null m (define_imports imports >> with_names m))

  -- The module is parsed from a copy of its bytes, and listed once that is deleted.
  abbrev pub parsing : List HostImport → ℕ → ℕ → Action (Cell S) ZwasmError Unit
  parsing imports st b =
      owned byte_copy b
      >> (invoke (not_null byte_copy b ++ (handle store st ∷ [])) (on_state (lib.module_new st b))
          >>= λ m. delete_any byte_copy lib.byte_vec_delete b >> with_module imports m)

  abbrev pub with_store : List ℕ → List HostImport → ℕ → Action (Cell S) ZwasmError Unit
  with_store wasm_bytes imports st =
      owned store st
      >> (set_loaded (λ l. record l { store_pointer = st })
          >> unless_null store_null st
              (invoke [] (on_state (lib.byte_vec_new wasm_bytes)) >>= parsing imports st))

  abbrev pub with_engine : List ℕ → List HostImport → ℕ → Action (Cell S) ZwasmError Unit
  with_engine wasm_bytes imports e =
      owned engine e
      >> (set_loaded (λ l. record l { engine_pointer = e })
          >> unless_null engine_null e (
              invoke (handle engine e ∷ []) (on_state (lib.store_new e))
              >>= with_store wasm_bytes imports))

  -- A struct that is not returned is dropped.
  abbrev pub or_dropped :
      Result ZwasmError Unit × World (Cell S) → Result ZwasmError Unit × World (Cell S)
  or_dropped (done u, w) = (done u, w)
  or_dropped (raised e, w) = (raised e, (drop_loaded w).1)

  unfoldable pub new_loaded : List ℕ → List HostImport → Action (Cell S) ZwasmError Unit
  unfolding define_imports instantiate drop_loaded
  new_loaded wasm_bytes imports w = or_dropped (
      (set_loaded (λ l. nothing_loaded)
          >> (invoke [] (on_state lib.engine_new) >>= with_engine wasm_bytes imports))
        w)
