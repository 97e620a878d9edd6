-- ===== src/Runtimes/Zwasm/Owned.antt =====
-- The struct `Loaded` against the objects that the log says are alive.
use wasm_benchmark.Base.{
  ==_iff, sym, ◌≢◌, Option, ◌&&◌, if◌then◌else◌, arith, ℕ, zero, suc, ◌≡◌, refl, List, [], ◌∷◌,
  Bool, true, false, length, ◌==◌, arith,
}
use Prim.Native.String.{String}
use wasm_benchmark.Runtimes.Trace.{
  Kind, Handle, Event, Legal, opening, closing, using, here, there, engine, store, wasm_module,
  instance, exports, trap, byte_copy,
}
use wasm_benchmark.Runtimes.Action.{
  Result, done, raised, release, World, Action, handle, ◌>>◌, ◌>>=◌, owned, pure, raise, invoke,
}
use mathlib.Core.Path.{subst}
use wasm_benchmark.Runtimes.Kept.{EndsIn}
use wasm_benchmark.Runtimes.Keeps.{Moves}
use wasm_benchmark.Runtimes.Zwasm.{
  trap_text, on_library, message_text, instance_trapped, Zwasm, Cell, Loaded, ExternVec, ZwasmError,
  delete_any, drop_loaded, release_instance, count_checked, with_exports, with_instance,
  instantiate, drop_engine, drop_store, drop_module, drop_instance, set_loaded, get_loaded,
  count_mismatch, on_state, engine_interp, set_loaded, get_loaded,
}

-- A pointer's object, unless it is NULL.
abbrev pub object : Kind → ℕ → List Handle → List Handle
object kind zero rest = rest
object kind (suc p) rest = handle kind (suc p) ∷ rest

-- The objects that a struct owns, the youngest first.
abbrev pub objects : Loaded → List Handle
objects l = object exports l.export_vec.data_pointer (
    object instance l.instance_pointer (
      object wasm_module l.module_pointer
        (object store l.store_pointer (object engine l.engine_pointer []))))

-- The struct owns what is alive, and it has exports only with an instance.
abbrev pub IsOwned : {S : Type 0} → World (Cell S) → Type 0
IsOwned w =
    let l = w.library.loaded in
    Legal w.log (objects l) × (l.instance_pointer ≡ 0 → l.export_vec.data_pointer ≡ 0)

module _ {S : Type 0} where
  delete_then :
      (kind : Kind) (delete : ℕ → S → S) (k : Action (Cell S) ZwasmError Unit)
      (rest end : List Handle)
      → Moves rest k end
      → (p : ℕ) → Moves (object kind p rest) (delete_any kind delete p >> k) end
  unfolding Moves
  delete_then kind delete k rest end h zero w l = h w l
  delete_then kind delete k rest end h (suc p) w l = h _ (closing _ l)

module _ {S : Type 0} where
  delete_last :
      (kind : Kind) (delete : ℕ → S → S) (p : ℕ)
      → Moves (object kind p []) (delete_any {E = ZwasmError} kind delete p) []
  unfolding Moves
  delete_last kind delete zero w l = l
  delete_last kind delete (suc p) w l = closing _ l

module _ {S : Type 0} (lib : Zwasm S) where
  -- Dropping the struct leaves nothing, whatever it holds.
  pub drop_loaded-Legal :
      (w : World (Cell S))
      → Legal w.log (objects w.library.loaded)
      → Legal (drop_loaded lib w).1.log []
  unfolding drop_loaded Moves
  drop_loaded-Legal w l =
      let k = w.library.loaded in
      delete_then exports lib.extern_vec_delete (drop_instance lib k) _ []
        (delete_then instance lib.instance_delete (drop_module lib k) _ []
          (delete_then wasm_module lib.module_delete (drop_store lib k) _ []
            (delete_then store lib.store_delete (drop_engine lib k) _ []
              (delete_last engine lib.engine_delete k.engine_pointer) k.store_pointer)
            k.module_pointer)
          k.instance_pointer)
        k.export_vec.data_pointer w l

abbrev pub base : ℕ → ℕ → ℕ → List Handle
base e st m = handle wasm_module (suc m) ∷ (handle store (suc st) ∷ (handle engine (suc e) ∷ []))

-- A world whose struct has an engine, a store and a module, and owns what is alive.
module _ {S : Type 0} where
  abbrev pub loaded_world :
      S → ℕ → ℕ → ℕ → ℕ → ExternVec → List String → List ℕ → List Event → World (Cell S)
  loaded_world s e st m i v names hosts log = record {
    library = record {
      state = s;
      loaded = record {
        engine_pointer = suc e;
        store_pointer = suc st;
        module_pointer = suc m;
        instance_pointer = i;
        export_vec = v;
        export_names = names;
        host_externs = hosts;
      };
    };
    log = log;
  }

pub data Holds {S : Type 0} (e st m : ℕ) : World (Cell S) → Type 0 where
  holds :
      (s : S) (i x : ℕ) (externs : List ℕ) (names : List String) (hosts : List ℕ) (log : List Event)
      → (i ≡ 0 → x ≡ 0)
      → Legal log (object exports x (object instance i (base e st m)))
      → Holds e st m
          (loaded_world s e st m i (record { data_pointer = x; externs = externs }) names hosts log)

pub Holds-IsOwned : {S : Type 0} (e st m : ℕ) (w : World (Cell S)) → Holds e st m w → IsOwned w
Holds-IsOwned e st m w (holds s i x externs names hosts log h l) = (l, h)

-- The struct has an instance whose exports are as many as their names.
pub data Ready {S : Type 0} (e st m i : ℕ) : World (Cell S) → Type 0 where
  ready :
      (s : S) (x : ℕ) (externs : List ℕ) (names : List String) (hosts : List ℕ) (log : List Event)
      → length externs ≡ length names
      → Legal log (object exports x (handle instance (suc i) ∷ base e st m))
      → Ready e st m i (
          loaded_world s e st m
            (suc i)
            (record { data_pointer = x; externs = externs })
            names
            hosts
            log)

pub Ready-Holds :
    {S : Type 0} (e st m i : ℕ) (w : World (Cell S)) → Ready e st m i w → Holds e st m w
Ready-Holds e st m i w (ready s x externs names hosts log same l) =
    holds s (suc i) x externs names hosts log (λ h. absurd (omega arith)) l

-- An answer of the library is an instance or a trap, and not both, as wasm.h says.
abbrev pub OneAnswer : {S : Type 0} → Zwasm S → Type 0
OneAnswer {S} lib =
    (st m : ℕ) (hosts : List ℕ) (kind : ℕ) (s : S)
    → (lib.instance_new_ex st m hosts kind s).0.0 ≢ 0
    → (lib.instance_new_ex st m hosts kind s).0.1 ≡ 0

module _ {S : Type 0} (lib : Zwasm S) where
  abbrev Deleted : Action (Cell S) ZwasmError String → World (Cell S) → List Handle → Type 0
  Deleted act w live =
      (s : S) × (log : List Event) × (text : String) × (act w ≡ (
        done text,
        record { library = record { state = s; loaded = w.library.loaded }; log = log },
      ))
      × Legal log live

  message_read :
      (t b : ℕ) (text : Option String) (w : World (Cell S)) (live : List Handle)
      → Legal w.log (handle trap (suc t) ∷ live)
      → Deleted
          (owned byte_copy b
            >> delete_any byte_copy lib.byte_vec_delete b
            >> release (handle trap (suc t)) (on_library (lib.trap_delete (suc t)))
            >> pure (message_text text))
          w
          live
  message_read t zero text w live l = (_, _, _, refl, closing _ l)
  message_read t (suc b) text w live l =
      (_, _, _, refl, closing _ (closing (handle byte_copy (suc b)) (opening _ l)))

  -- The text of a trap: its object and that of its message are gone.
  pub trap_text-Deleted :
      (t : ℕ) (w : World (Cell S)) (live : List Handle)
      → Legal w.log (handle trap (suc t) ∷ live)
      → Deleted (trap_text lib (suc t)) w live
  trap_text-Deleted t w live l =
      let msg = (lib.trap_message (suc t) w.library.state).0 in
      message_read t msg.0 msg.1 _ live (using (handle trap (suc t) ∷ []) (here, tt) l)

  -- What holds of every error and log that leave the same alive holds behind the trap.
  pub trapped :
      {A : Type 0} (error : String → ZwasmError) (t : ℕ) (w : World (Cell S)) (live : List Handle)
      → Legal w.log (handle trap (suc t) ∷ live)
      → (P : Result ZwasmError A × World (Cell S) → Type 0)
      → ((text : String) (s : S) (log : List Event)
          → Legal log live
          → P (
            raised (error text),
            record { library = record { state = s; loaded = w.library.loaded }; log = log },
          ))
      → P ((trap_text lib (suc t) >>= λ text. raise (error text)) w)
  trapped {A} error t w live l P k =
      let (s, log, text, e, legal) = trap_text-Deleted t w live l in
      subst
        (λ (r : Result ZwasmError String × World (Cell S)).
          P (((λ (_ : World (Cell S)). r) >>= λ text. raise (error text)) w))
        (sym e) (k text s log legal)

module _ {S : Type 0} (lib : Zwasm S) (e st m : ℕ) where
  -- What `instantiate` ends in.
  abbrev pub InstEnds : Result ZwasmError Unit × World (Cell S) → Type 0
  InstEnds = EndsIn (λ _ w. (i : ℕ) × Ready e st m i w) (Holds e st m)

  pub InstEnds-Holds :
      (r : Result ZwasmError Unit) (w : World (Cell S)) → InstEnds (r, w) → Holds e st m w
  InstEnds-Holds (done u) w (i, k) = Ready-Holds e st m i w k
  InstEnds-Holds (raised error) w k = k

  counted-Ends :
      (s : S) (i x : ℕ) (externs : List ℕ) (names : List String) (hosts : List ℕ) (log : List Event)
      → Legal log (object exports x (handle instance (suc i) ∷ base e st m))
      → InstEnds (
          count_checked lib (length externs) (length names) (
            loaded_world s e st m
              (suc i)
              (record { data_pointer = x; externs = externs })
              names
              hosts
              log))
  counted-Ends s i x externs names hosts log l = by_count (length externs == length names) refl
    where
      by_count :
          (b : Bool)
          → (length externs == length names) ≡ b
          → InstEnds (
              (if b then pure tt else raise (count_mismatch (length externs) (length names))) (
                loaded_world s e st m
                  (suc i)
                  (record { data_pointer = x; externs = externs })
                  names
                  hosts
                  log))
      by_count true same =
          (i, ready s x externs names hosts log ((==_iff (length externs) (length names)).0 same) l)
      by_count false other = holds s (suc i) x externs names hosts log (λ h. absurd (omega arith)) l

  exported-Ends :
      (before : List ℕ) (s : S) (i x : ℕ) (externs : List ℕ) (names : List String) (hosts : List ℕ)
      (log : List Event)
      → Legal log (handle instance (suc i) ∷ base e st m)
      → InstEnds (
          (owned exports x
              >> set_loaded
                  (λ l. record l { export_vec = record { data_pointer = x; externs = externs } })
              >> get_loaded
              >>= λ l. count_checked lib (length externs) (length l.export_names))
            (loaded_world s e st m
              (suc i)
              (record { data_pointer = 0; externs = before })
              names
              hosts
              log))
  exported-Ends before s i zero externs names hosts log l =
      counted-Ends s i zero externs names hosts log l
  exported-Ends before s i (suc x) externs names hosts log l =
      counted-Ends s i (suc x) externs names hosts _ (opening _ l)

  with_exports-Ends :
      (before : List ℕ) (s : S) (i : ℕ) (b : Bool) (names : List String) (hosts : List ℕ)
      (log : List Event)
      → Legal log (handle instance (suc i) ∷ base e st m)
      → InstEnds (
          with_exports lib (suc i) b (
            loaded_world s e st m
              (suc i)
              (record { data_pointer = 0; externs = before })
              names
              hosts
              log))
  with_exports-Ends before s i false names hosts log l =
      holds s (suc i) zero before names hosts log (λ h. refl) l
  with_exports-Ends before s i true names hosts log l =
      let v = (lib.instance_exports (suc i) s).0 in
      exported-Ends before _ i v.data_pointer v.externs names hosts _ (using _ (here, tt) l)

  with_instance-Ends :
      (before : List ℕ) (s : S) (i t : ℕ) (names : List String) (hosts : List ℕ) (log : List Event)
      → (i ≢ 0 → t ≡ 0)
      → Legal log (base e st m)
      → InstEnds (
          (owned trap t >> with_instance lib i t) (
            loaded_world s e st m 0
              (record { data_pointer = 0; externs = before })
              names
              hosts
              log))
  with_instance-Ends before s zero zero names hosts log one l =
      holds s 0 0 before names hosts log (λ h. refl) l
  with_instance-Ends before s zero (suc t) names hosts log one l =
      trapped lib instance_trapped t _ (base e st m) (opening (handle trap (suc t)) l) InstEnds
        (λ text s log l. holds s 0 0 before names hosts log (λ h. refl) l)
  with_instance-Ends before s (suc i) (suc t) names hosts log one l =
      absurd (omega (arith, one (λ z. absurd (omega arith))))
  with_instance-Ends before s (suc i) zero names hosts log one l =
      let answer = lib.instance_engine (suc i) s in
      with_exports-Ends before answer.1 i (answer.0.0 && answer.0.1 == engine_interp) names hosts _
        (using (handle instance (suc i) ∷ []) (here, tt) (opening (handle instance (suc i)) l))

  -- The steps of `instantiate` behind `release`.
  instance_new-Ends :
      (before : List ℕ) (s : S) (names : List String) (hosts : List ℕ) (log : List Event)
      → OneAnswer lib
      → Legal log (base e st m)
      → InstEnds (
          (invoke
                (handle wasm_module (suc m) ∷ (handle store (suc st) ∷ []))
                (on_state (lib.instance_new_ex (suc st) (suc m) hosts engine_interp))
              >>= λ answer. owned trap answer.1 >> with_instance lib answer.0 answer.1)
            (loaded_world s e st m 0
              (record { data_pointer = 0; externs = before })
              names
              hosts
              log))
  instance_new-Ends before s names hosts log one l =
      let answer = lib.instance_new_ex (suc st) (suc m) hosts engine_interp s in
      with_instance-Ends before answer.1 answer.0.0 answer.0.1 names hosts _
        (one (suc st) (suc m) hosts engine_interp s)
        (using (handle wasm_module (suc m) ∷ (handle store (suc st) ∷ [])) (here, (there here, tt))
          l)

  -- A struct that owns what is alive does so after `instantiate`, by an error too; and if there is
  -- none, it has an instance whose exports all have names.
  pub instantiate-Ends :
      OneAnswer lib → (w : World (Cell S)) → Holds e st m w → InstEnds (instantiate lib w)
  unfolding instantiate release_instance
  instantiate-Ends one w (holds s zero zero externs names hosts log h l) =
      instance_new-Ends externs s names hosts log one l
  instantiate-Ends one w (holds s zero (suc x) externs names hosts log h l) =
      absurd (omega (arith, h refl))
  instantiate-Ends one w (holds s (suc i) zero externs names hosts log h l) =
      instance_new-Ends [] (lib.instance_delete (suc i) s) names hosts _ one
        (closing (handle instance (suc i)) l)
  instantiate-Ends one w (holds s (suc i) (suc x) externs names hosts log h l) =
      instance_new-Ends [] (lib.instance_delete (suc i) (lib.extern_vec_delete (suc x) s)) names
        hosts _ one (closing (handle instance (suc i)) (closing (handle exports (suc x)) l))

  pub release_instance-Holds :
      (w : World (Cell S)) → Holds e st m w → Holds e st m (release_instance lib w).1
  unfolding release_instance
  release_instance-Holds w (holds s zero x externs names hosts log h l) =
      holds s zero x externs names hosts log h l
  release_instance-Holds w (holds s (suc i) zero externs names hosts log h l) =
      holds _ 0 0 [] names hosts _ (λ e'. refl) (closing _ l)
  release_instance-Holds w (holds s (suc i) (suc x) externs names hosts log h l) =
      holds _ 0 0 [] names hosts _ (λ e'. refl) (closing _ (closing _ l))
