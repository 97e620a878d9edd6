-- ===== src/Runtimes/Zwasm/New.antt =====
-- The objects that `Loaded::new` makes, and the struct that it returns.
use wasm_benchmark.Base.{ℕ, zero, suc, refl, ◌++◌, List, [], ◌∷◌, ◌++◌}
use wasm_benchmark.Runtimes.Trace.{
  Kind, Handle, Event, Live, exports, opened, Legal, opening, closing, using, here, there, engine,
  store, wasm_module, instance, functype, byte_copy, export_types,
}
use wasm_benchmark.Runtimes.Action.{World, Action, handle, Result, done, raised, ◌>>◌}
use Prim.Native.String.{String}
use wasm_benchmark.Runtimes.Zwasm.{
  named, parsing, with_names, module_null, store_null, engine_null, Zwasm, Cell, HostImport,
  ZwasmError, with_func, with_type, define_imports, with_module, with_store, with_engine,
  or_dropped, new_loaded, empty_vec,
}
use wasm_benchmark.Runtimes.Zwasm.Owned.{
  object, objects, Holds, holds, Holds-IsOwned, drop_loaded-Legal, Ready, InstEnds, OneAnswer,
  instantiate-Ends, loaded_world, base, object,
}

pub object-Live :
    (h : Handle) (kind : Kind) (p : ℕ) (rest : List Handle)
    → Live h rest
    → Live h (object kind p rest)
object-Live h kind zero rest u = u
object-Live h kind (suc p) rest u = there u

module _ {S : Type 0} (lib : Zwasm S) (e st m : ℕ) where
  abbrev Keeping : Action (Cell S) ZwasmError Unit → Type 0
  Keeping act = (v : World (Cell S)) → Holds e st m v → Holds e st m (act v).1

  store-Live :
      (i x : ℕ) → Live (handle store (suc st)) (object exports x (object instance i (base e st m)))
  store-Live i x = object-Live _ exports x _ (object-Live _ instance i (base e st m) (there here))

  with_func-Holds :
      (f : ℕ) (next : Action (Cell S) ZwasmError Unit)
      → Keeping next
      → Keeping (with_func lib (suc st) f next)
  with_func-Holds zero next k w h = h
  with_func-Holds (suc f) next k w (holds s i x externs names hosts log h l) =
      let answer = lib.func_as_extern (suc f) s in
      k _ (
        holds answer.1 i x externs names (hosts ++ answer.0 ∷ []) _ h
          (using (handle store (suc st) ∷ []) (store-Live i x, tt) l))

  with_type-Holds :
      (imp : HostImport) (ty : ℕ) (next : Action (Cell S) ZwasmError Unit)
      → Keeping next
      → Keeping (with_type lib (suc st) imp ty next)
  with_type-Holds imp zero next k w (holds s i x externs names hosts log h l) =
      let answer = lib.func_new (suc st) 0 imp.callback s in
      with_func-Holds answer.0 next k _ (
        holds answer.1 i x externs names hosts _ h
          (using (handle store (suc st) ∷ []) (store-Live i x, tt) l))
  with_type-Holds imp (suc ty) next k w (holds s i x externs names hosts log h l) =
      let answer = lib.func_new (suc st) (suc ty) imp.callback s in
      let t : Handle = handle functype (suc ty) in
      with_func-Holds answer.0 next k _ (
        holds (lib.functype_delete (suc ty) answer.1) i x externs names hosts _ h (
          closing t (
            using (t ∷ (handle store (suc st) ∷ [])) (here, (there (store-Live i x), tt))
              (opening t l))))

  define_imports-Holds : (imports : List HostImport) → Keeping (define_imports lib imports)
  unfolding define_imports
  define_imports-Holds [] w h = h
  define_imports-Holds (imp ∷ rest) w (holds s i x externs names hosts log h l) =
      let answer = lib.functype_new imp.params imp.results s in
      with_type-Holds imp answer.0 (define_imports lib rest) (define_imports-Holds rest) _
        (holds answer.1 i x externs names hosts _ h (using [] tt l))

  -- The names of the exports, and the first instance.
  named-Ends :
      OneAnswer lib
      → (types : ℕ) (names : List String) (w : World (Cell S)) → Holds e st m w
      → InstEnds lib e st m (named lib types names w)
  named-Ends one zero names w (holds s i x externs old hosts log h l) =
      instantiate-Ends lib e st m one _ (holds s i x externs names hosts _ h (using [] tt l))
  named-Ends one (suc types) names w (holds s i x externs old hosts log h l) =
      instantiate-Ends lib e st m one _ (
        holds (lib.exporttype_vec_delete (suc types) s) i x externs names hosts _ h (
          closing (handle export_types (suc types)) (
            using (handle export_types (suc types) ∷ []) (here, tt)
              (opening (handle export_types (suc types)) l))))

  with_names-Ends :
      OneAnswer lib
      → (w : World (Cell S)) → Holds e st m w
      → InstEnds lib e st m (with_names lib (suc m) w)
  with_names-Ends one w (holds s i x externs names hosts log h l) =
      let answer = lib.module_exports (suc m) s in
      named-Ends one answer.0.0 answer.0.1 _ (
        holds answer.1 i x externs names hosts _ h (
          using (handle wasm_module (suc m) ∷ [])
            (object-Live _ exports x _ (object-Live _ instance i (base e st m) here), tt) l))

  then_names-Ends :
      (r : Result ZwasmError Unit) (w : World (Cell S)) (k : Action (Cell S) ZwasmError Unit)
      → Holds e st m w
      → ((v : World (Cell S)) → Holds e st m v → InstEnds lib e st m (k v))
      → InstEnds lib e st m (((λ (_ : World (Cell S)). (r, w)) >> k) w)
  then_names-Ends (done u) w k h kk = kk w h
  then_names-Ends (raised error) w k h kk = h

-- The struct that `new` returns owns what is alive, an instance with as many exports as names
-- included; it leaves nothing where it returns none.
abbrev pub NewEnds : {S : Type 0} → Result ZwasmError Unit × World (Cell S) → Type 0
NewEnds (done u, w) = (e : ℕ) × (st : ℕ) × (m : ℕ) × (i : ℕ) × Ready e st m i w
NewEnds (raised e, w) = Legal w.log []

module _ {S : Type 0} (lib : Zwasm S) (one : OneAnswer lib) where
  or_dropped-NewEnds :
      (e st m : ℕ) (r : Result ZwasmError Unit) (w : World (Cell S))
      → InstEnds lib e st m (r, w)
      → NewEnds (or_dropped lib (r, w))
  or_dropped-NewEnds e st m (done u) w (i, k) = (e, st, m, i, k)
  or_dropped-NewEnds e st m (raised error) w h =
      drop_loaded-Legal lib w (Holds-IsOwned e st m w h).0

  failed-NewEnds :
      (error : ZwasmError) (w : World (Cell S))
      → Legal w.log (objects w.library.loaded)
      → NewEnds (or_dropped lib (raised error, w))
  failed-NewEnds error w l = drop_loaded-Legal lib w l

  abbrev loading : S → ℕ → ℕ → List Event → World (Cell S)
  loading s e st log = record {
    library = record {
      state = s;
      loaded = record {
        engine_pointer = e;
        store_pointer = st;
        module_pointer = 0;
        instance_pointer = 0;
        export_vec = empty_vec;
        export_names = [];
        host_externs = [];
      };
    };
    log = log;
  }

  with_module-NewEnds :
      (imports : List HostImport) (s : S) (e st m : ℕ) (log : List Event)
      → Legal log (handle store (suc st) ∷ (handle engine (suc e) ∷ []))
      → NewEnds (or_dropped lib (with_module lib imports m (loading s (suc e) (suc st) log)))
  with_module-NewEnds imports s e st zero log l = failed-NewEnds module_null _ l
  with_module-NewEnds imports s e st (suc m) log l =
      let w : World (Cell S) =
        loaded_world s e st m 0 empty_vec [] [] (opened (handle wasm_module (suc m)) ∷ log) in
      let end = (define_imports lib imports >> with_names lib (suc m)) w in
      let first = define_imports lib imports w in
      or_dropped-NewEnds e st m end.0 end.1 (
        then_names-Ends lib e st m first.0 first.1 (with_names lib (suc m))
          (define_imports-Holds lib e st m imports w
            (holds s 0 0 [] [] [] _ (λ h. refl) (opening (handle wasm_module (suc m)) l)))
          (with_names-Ends lib e st m one))

  parsing-NewEnds :
      (imports : List HostImport) (s : S) (e st b : ℕ) (log : List Event)
      → Legal log (handle store (suc st) ∷ (handle engine (suc e) ∷ []))
      → NewEnds (or_dropped lib (parsing lib imports (suc st) b (loading s (suc e) (suc st) log)))
  parsing-NewEnds imports s e st zero log l =
      let answer = lib.module_new (suc st) zero s in
      with_module-NewEnds imports answer.1 e st answer.0 _
        (using (handle store (suc st) ∷ []) (here, tt) l)
  parsing-NewEnds imports s e st (suc b) log l =
      let answer = lib.module_new (suc st) (suc b) s in
      let copy : Handle = handle byte_copy (suc b) in
      with_module-NewEnds imports (lib.byte_vec_delete (suc b) answer.1) e st answer.0 _ (
        closing copy
          (using (copy ∷ (handle store (suc st) ∷ [])) (here, (there here, tt)) (opening copy l)))

  with_store-NewEnds :
      (bytes : List ℕ) (imports : List HostImport) (s : S) (e st : ℕ) (log : List Event)
      → Legal log (handle engine (suc e) ∷ [])
      → NewEnds (or_dropped lib (with_store lib bytes imports st (loading s (suc e) 0 log)))
  with_store-NewEnds bytes imports s e zero log l = failed-NewEnds store_null _ l
  with_store-NewEnds bytes imports s e (suc st) log l =
      let answer = lib.byte_vec_new bytes s in
      parsing-NewEnds imports answer.1 e st answer.0 _
        (using [] tt (opening (handle store (suc st)) l))

  with_engine-NewEnds :
      (bytes : List ℕ) (imports : List HostImport) (s : S) (e : ℕ) (log : List Event)
      → Legal log []
      → NewEnds (or_dropped lib (with_engine lib bytes imports e (loading s 0 0 log)))
  with_engine-NewEnds bytes imports s zero log l = failed-NewEnds engine_null _ l
  with_engine-NewEnds bytes imports s (suc e) log l =
      let answer = lib.store_new (suc e) s in
      with_store-NewEnds bytes imports answer.1 e answer.0 _
        (using (handle engine (suc e) ∷ []) (here, tt) (opening (handle engine (suc e)) l))

  -- For any library that answers an instance or a trap and not both: `new` returns a struct that owns
  -- all that is alive, with an engine, a store, a module and an instance with a name for each export;
  -- or it returns an error and leaves nothing.
  pub new_loaded-NewEnds :
      (bytes : List ℕ) (imports : List HostImport) (w : World (Cell S))
      → Legal w.log []
      → NewEnds (new_loaded lib bytes imports w)
  unfolding new_loaded
  new_loaded-NewEnds bytes imports w l =
      let answer = lib.engine_new w.library.state in
      with_engine-NewEnds bytes imports answer.1 answer.0 _ (using [] tt l)
