-- ===== src/Runtimes/Wasmedge/Kept.antt =====
-- The steps of the executor-level runners of WasmEdge over the live objects.
use wasm_benchmark.Base.{get_or, ℕ, zero, suc, List, [], ◌∷◌, ◌++◌, Bool, true, false, Option, All}
use Prim.Native.String.{String}
use wasm_benchmark.Runtimes.Trace.{
  Kind, Handle, Live, here, there, opening, closing, using, configure, instance, store, executor,
  loader, ast, validator, functype, byte_copy,
}
use wasm_benchmark.Runtimes.Action.{
  Action, handle, unless_null, owned, ◌>>◌, clocked, Ending, invoke, own,
}
use wasm_benchmark.Runtimes.Keeps.{
  bind-Keeps, measuring_samples-Keeps, Keeps, Moves, clocked-Keeps, unless_zero-Keeps,
  measuring_samples-Keeps,
}
use wasm_benchmark.Runtimes.Zwasm.Owned.{object}
use wasm_benchmark.Runtimes.Wasmedge.{
  porf_func_null, alone, parsed_samples, validated_samples, with_porf_module, if_porf, Wasmedge,
  WasmedgeError, Outcome, present, err_from, guarded_any, with_guard, with_outcome, outcome_of,
  add_proposals, not_found, Window, executor_sample, After, porf_module_null, with_function,
  registered, function_made,
}

module _ {S E A : Type 0} (live : List Handle) where
  err_from-Keeps :
      (wrap : WasmedgeError → E) (ok : Bool) (message : Option String) (ctx : String)
      (body : Action S E A)
      → Keeps live body
      → Keeps live (err_from wrap ok message ctx body)
  unfolding Moves
  err_from-Keeps wrap true message ctx body k w l = k w l
  err_from-Keeps wrap false message ctx body k w l = l

  guarded-Keeps :
      (kind : Kind) (delete : ℕ → S → S) (body : ℕ → Action S E A)
      → ((p : ℕ) → Keeps (object kind p live) (body p))
      → (p : ℕ) → Keeps live (owned kind p >> guarded_any kind delete p (body p))
  unfolding Moves
  guarded-Keeps kind delete body k zero w l = k zero w l
  guarded-Keeps kind delete body k (suc p) w l =
      closing (handle kind (suc p)) (k (suc p) _ (opening (handle kind (suc p)) l))

  pub with_guard-Keeps :
      (kind : Kind) (hs : List Handle) (create : S → ℕ × S) (delete : ℕ → S → S)
      (body : ℕ → Action S E A)
      → All (λ h. Live h live) hs
      → ((p : ℕ) → Keeps (object kind p live) (body p))
      → Keeps live (with_guard kind hs create delete body)
  unfolding Moves with_guard
  with_guard-Keeps kind hs create delete body u k w l =
      guarded-Keeps kind delete body k (create w.library).0 _ (using hs u l)

  with_outcome-Keeps :
      (kind : Kind) (hs : List Handle) (create : S → (Outcome × ℕ) × S) (wrap : WasmedgeError → E)
      (ctx : String) (delete : ℕ → S → S) (body : ℕ → Action S E A)
      → All (λ h. Live h live) hs
      → ((p : ℕ) → Keeps (object kind p live) (body p))
      → Keeps live (with_outcome kind hs create wrap ctx delete body)
  unfolding Moves with_outcome
  with_outcome-Keeps kind hs create wrap ctx delete body u k w l =
      let answer = (create w.library).0 in
      err_from-Keeps wrap answer.0.is_ok answer.0.message ctx
        (owned kind answer.1 >> guarded_any kind delete answer.1 (body answer.1))
        (guarded-Keeps kind delete body k answer.1) _ (using hs u l)

module _ {S E A B : Type 0} (live : List Handle) where
  outcome_of-Keeps :
      (hs : List Handle) (call : S → (Outcome × B) × S) (wrap : WasmedgeError → E) (ctx : String)
      (body : B → Action S E A)
      → All (λ h. Live h live) hs
      → ((b : B) → Keeps live (body b))
      → Keeps live (outcome_of hs call wrap ctx body)
  unfolding Moves outcome_of
  outcome_of-Keeps hs call wrap ctx body u k w l =
      let answer = (call w.library).0 in
      err_from-Keeps live wrap answer.0.is_ok answer.0.message ctx (body answer.1) (k answer.1) _
        (using hs u l)

-- A pointer is not NULL behind its check.
module _ {S E A : Type 0} where
  pub unless_null-Keeps :
      (stack : ℕ → List Handle) (e : E) (body : ℕ → Action S E A)
      → ((p : ℕ) → Keeps (stack (suc p)) (body (suc p)))
      → (p : ℕ) → Keeps (stack p) (unless_null e p (body p))
  unfolding Moves
  unless_null-Keeps stack e body k zero w l = l
  unless_null-Keeps stack e body k (suc p) w l = k p w l

-- What is alive stays so below an object that may be there.
pub weaker :
    (k : Handle) (rest hs : List Handle)
    → All (λ h. Live h rest) hs
    → All (λ h. Live h (k ∷ rest)) hs
weaker k rest [] u = tt
weaker k rest (h ∷ hs) u = (there u.0, weaker k rest hs u.1)

present-Live :
    (kind : Kind) (p : ℕ) (rest hs : List Handle)
    → All (λ h. Live h rest) hs
    → All (λ h. Live h (object kind p rest)) (present kind p ++ hs)
present-Live kind zero rest hs u = u
present-Live kind (suc p) rest hs u = (here, weaker _ rest hs u)

pub object-All :
    (kind : Kind) (p : ℕ) (rest hs : List Handle)
    → All (λ h. Live h rest) hs
    → All (λ h. Live h (object kind p rest)) hs
object-All kind zero rest hs u = u
object-All kind (suc p) rest hs u = weaker _ rest hs u

present-All :
    (kind : Kind) (p : ℕ) (live : List Handle)
    → All (λ h. Live h (object kind p live)) (present kind p)
present-All kind zero live = tt
present-All kind (suc p) live = (here, tt)

module _ {S : Type 0} (lib : Wasmedge S) (clock : S → ℕ × S) where
  pub add_proposals-Keeps :
      {E A : Type 0} (conf : ℕ) (live : List Handle) (props : List ℕ) (body : Action S E A)
      → Keeps (handle configure conf ∷ live) body
      → Keeps (handle configure conf ∷ live) (add_proposals lib clock conf props body)
  unfolding Moves
  add_proposals-Keeps conf live [] body k w l = k w l
  add_proposals-Keeps conf live (prop ∷ rest) body k w l =
      add_proposals-Keeps conf live rest body k _ (using (handle configure conf ∷ []) (here, tt) l)

  called-Keeps :
      (live : List Handle) (ex f : ℕ) (name params : List ℕ) (n index inst : ℕ)
      → All (λ h. Live h live) (handle executor ex ∷ [])
      → Keeps (object instance inst live) (
          unless_null (not_found name) f (
            outcome_of
              (present instance inst ++ (handle executor ex ∷ []))
              (lib.executor_invoke ex f params n)
              (λ e. e)
              "ExecutorInvoke"
              λ returns. clocked clock (get_or returns index 0)))
  called-Keeps live ex f name params n index inst alive =
      unless_null-Keeps (λ _. object instance inst live) _
        (λ g.
          outcome_of (present instance inst ++ (handle executor ex ∷ []))
            (lib.executor_invoke ex g params n) (λ e. e) "ExecutorInvoke"
            λ returns. clocked clock (get_or returns index 0))
        (λ g.
          outcome_of-Keeps _ _ _ _ _ _ (present-Live instance inst live _ alive)
            λ returns. clocked-Keeps _ _ clock _)
        f

  executor_sample-Keeps :
      (live : List Handle) (ex st a : ℕ) (name params : List ℕ) (n index : ℕ)
      → All (λ h. Live h live) (handle store st ∷ (handle executor ex ∷ []))
      → Keeps (object ast a live) (executor_sample lib clock ex st a name params n index)
  unfolding Moves executor_sample
  executor_sample-Keeps live ex st a name params n index u =
      with_outcome-Keeps (object ast a live) instance
        (present ast a ++ (handle store st ∷ (handle executor ex ∷ []))) _ _ _ _ _
        (present-Live ast a live _ u)
        λ inst w l.
          called-Keeps (object ast a live) ex (lib.find_function inst name w.library).0 name params
            n index inst (object-All ast a live (handle executor ex ∷ []) (u.1.0, tt)) _
            (using (present instance inst) (present-All instance inst (object ast a live)) l)

  pub parsed_samples-Keeps :
      (env : Option ℕ) (window : Window) (after : After) (live : List Handle) (l v ex st : ℕ)
      (bytes name params : List ℕ) (n index : ℕ)
      → All (λ h. Live h live) (handle loader l ∷ [])
      → All (λ h. Live h live) (handle validator v ∷ [])
      → All (λ h. Live h live) (handle store st ∷ (handle executor ex ∷ []))
      → Keeps live (parsed_samples lib clock env window after l v ex st bytes name params n index)
  unfolding Moves parsed_samples
  parsed_samples-Keeps env window after live l v ex st bytes name params n index ul uv us w legal =
      let (b, s) = lib.bytes_create bytes w.library in
      let (answer, s') = lib.loader_parse_from_bytes l b s in
      err_from-Keeps live own answer.0.is_ok answer.0.message "LoaderParseFromBytes" _
        (guarded-Keeps live ast lib.ast_module_delete
          (λ a. validated_samples lib clock env window after v ex st a name params n index)
          (λ a.
            outcome_of-Keeps (object ast a live) (present ast a ++ handle validator v ∷ []) _ _ _ _
              (present-Live ast a live _ uv)
              λ _. unless_zero-Keeps _ _ _ _ (
                measuring_samples-Keeps _ clock env window after _
                  (executor_sample-Keeps live ex st a name params n index us)))
          answer.1)
        _
        (closing (handle byte_copy b) (
          using (handle byte_copy b ∷ (handle loader l ∷ []))
            (here, weaker (handle byte_copy b) live (handle loader l ∷ []) ul)
            (opening (handle byte_copy b) (using [] tt legal))))

  function_made-Keeps : (live : List Handle) → Keeps live (function_made lib clock)
  unfolding Moves
  function_made-Keeps live =
      with_guard-Keeps live functype [] lib.function_type_create lib.function_type_delete
        (λ fty. invoke (present functype fty) (lib.function_instance_create fty)) tt
        (λ fty w l. using _ (present-All functype fty live) l)

  module _ {A : Type 0} (live : List Handle) (ex st : ℕ) (body : Action S (Ending WasmedgeError) A)
      (alive : All (λ h. Live h live) (handle store st ∷ (handle executor ex ∷ [])))
      (keeps : (m : ℕ) → Keeps (handle instance m ∷ live) body) where
    registered-Keeps :
        (m f : ℕ) → Keeps (handle instance m ∷ live) (registered lib clock ex st body m f)
    unfolding Moves
    registered-Keeps m f w l =
        outcome_of-Keeps (handle instance m ∷ live)
          (handle instance m ∷ (handle store st ∷ (handle executor ex ∷ [])))
          (alone (lib.executor_register_import ex st m)) own "ExecutorRegisterImport(porf-b)"
          (λ _. body)
          (
            here,
            weaker (handle instance m) live (handle store st ∷ (handle executor ex ∷ [])) alive,
          )
          (λ _. keeps m) _ (using (handle instance m ∷ []) (here, tt) l)

    with_function-Keeps :
        (m : ℕ) → Keeps (handle instance m ∷ live) (with_function lib clock ex st body m)
    with_function-Keeps m =
        bind-Keeps (handle instance m ∷ live) (function_made lib clock)
          (λ f. unless_null (own porf_func_null) f (registered lib clock ex st body m f))
          (function_made-Keeps _)
          (unless_null-Keeps (λ _. handle instance m ∷ live) (own porf_func_null)
            (registered lib clock ex st body m) (λ f. registered-Keeps m (suc f)))

    with_porf_module-Keeps : Keeps live (with_porf_module lib clock ex st body)
    unfolding with_porf_module
    with_porf_module-Keeps =
        with_guard-Keeps live instance [] lib.module_instance_create lib.module_instance_delete
          (λ m. unless_null (own porf_module_null) m (with_function lib clock ex st body m)) tt
          (unless_null-Keeps (λ m. object instance m live) (own porf_module_null)
            (with_function lib clock ex st body) (λ m. with_function-Keeps (suc m)))

    pub if_porf-Keeps :
        (porf : Bool) → Keeps live body → Keeps live (if_porf lib clock porf ex st body)
    if_porf-Keeps false k = k
    if_porf-Keeps true k = with_porf_module-Keeps
