-- ===== src/Runtimes/Action.antt =====
-- What the adapters are written in: a state of the library with the log of what was done to it,
-- results as values, and the guards whose `drop` runs on every way out.
use wasm_benchmark.Base.{ℕ, zero, suc, List, [], ◌∷◌, Bool, true, false, Option}
use wasm_benchmark.Harness.Window.{Window, After, RunReport}
use wasm_benchmark.Harness.Measure.{
  measure_calls, measure_samples, Attempt, returned, failed, Failure, Answer, ok, err, panic,
}
use wasm_benchmark.Runtimes.Trace.{Kind, Handle, Event, opened, closed, used, error}

pub data Result (E A : Type 0) : Type 0 where
  done : A → Result E A
  raised : E → Result E A

-- How a function that measures fails: on an error of its own, on one of a measured call with the
-- context that it carries, or in a panic.
pub data Ending (E : Type 0) : Type 0 where
  own : E → Ending E
  measured : Failure E → Ending E
  panicked : Ending E

pub record World (S : Type 0) : Type 0 where
  pub library : S
  pub log : List Event

abbrev pub Action : Type 0 → Type 0 → Type 0 → Type 0
Action S E A = World S → Result E A × World S

abbrev pub begin : {S : Type 0} → S → World S
begin s = record { library = s; log = [] }

abbrev pub handle : Kind → ℕ → Handle
handle kind pointer = record { kind = kind; pointer = pointer }

module _ {S E : Type 0} where
  abbrev pub pure : {A : Type 0} → A → Action S E A
  pure a w = (done a, w)

  abbrev pub raise : {A : Type 0} → E → Action S E A
  raise e w = (raised e, w)

  -- A call of the library with the objects, and an entry in the log alone.
  abbrev pub invoke : {A : Type 0} → List Handle → (S → A × S) → Action S E A
  invoke hs f w =
      let (a, s') = f w.library in (done a, record { library = s'; log = used hs ∷ w.log })

  abbrev pub note : Event → Action S E Unit
  note event w = (done tt, record { library = w.library; log = event ∷ w.log })

  -- A deletion of an object.
  abbrev pub release : Handle → (S → S) → Action S E Unit
  release h delete w = (done tt, record { library = delete w.library; log = closed h ∷ w.log })

infixl 5 ◌>>=◌ ◌>>◌
abbrev pub ◌>>=◌ : {S E A B : Type 0} → Action S E A → (A → Action S E B) → Action S E B
◌>>=◌ m f w = let (r, w') = m w in elim r [ done a ↦ f a w' | raised e ↦ (raised e, w') ]

abbrev pub ◌>>◌ : {S E A B : Type 0} → Action S E A → Action S E B → Action S E B
m >> k = m >>= λ _. k

-- `std::ffi::CString::new(name)?`: a name with a zero byte in it has no C string.
abbrev pub has_zero : List ℕ → Bool
has_zero [] = false
has_zero (zero ∷ name) = true
has_zero (suc b ∷ name) = has_zero name

module _ {S E : Type 0} where
  -- A guard on an object: the body runs, and the object is deleted whatever comes of it.
  abbrev pub guarded : {A : Type 0} → Handle → (S → S) → Action S E A → Action S E A
  guarded h delete body w =
      let (r, w') = body w in (r, record { library = delete w'.library; log = closed h ∷ w'.log })

  -- The pointer that the library answers is an object, unless it is NULL.
  abbrev pub owned : Kind → ℕ → Action S E Unit
  owned kind zero = pure tt
  owned kind (suc p) = note (opened (handle kind (suc p)))

  abbrev pub unless_null : {A : Type 0} → E → ℕ → Action S E A → Action S E A
  unless_null e zero body = raise e
  unless_null e (suc p) body = body

  -- The error object of a call, which is deleted once its text is read.
  abbrev pub unless_error : {A : Type 0} → ℕ → Action S E A → Action S E A → Action S E A
  unless_error zero fail body = body
  unless_error (suc e) fail body = note (opened (handle error (suc e))) >> fail

  unfoldable pub unless_zero : {A : Type 0} → E → Bool → Action S E A → Action S E A
  unless_zero e true body = raise e
  unless_zero e false body = body

module _ {S E : Type 0} where
  -- A measurement over the world, whose answer is the function's result.
  abbrev pub of_answer : {A : Type 0} → Answer E A × World S → Result (Ending E) A × World S
  of_answer (ok a, w) = (done a, w)
  of_answer (err e, w) = (raised (measured e), w)
  of_answer (panic, w) = (raised panicked, w)

  -- A measured call: its time and its value, or its error.
  abbrev pub attempt_of : Result E (ℕ × ℕ) × World S → Attempt E × World S
  attempt_of (done (ns, v), w) = (returned v ns, w)
  attempt_of (raised e, w) = (failed e, w)

-- A duration that the clock gives; the log is of the library alone.
abbrev pub elapsed : {S E : Type 0} → (S → ℕ × S) → Action S E ℕ
elapsed clock w = let (ns, s') = clock w.library in (done ns, record { library = s'; log = w.log })

-- The error of a function without measured calls, as one of the function that has them.
abbrev pub outside : {S E A : Type 0} → Result E A × World S → Result (Ending E) A × World S
outside (done a, w) = (done a, w)
outside (raised e, w) = (raised (own e), w)

module _ {S E : Type 0} where
  -- A pointer that is checked, and a guard on the object:
  -- `let p = create(..); if p.is_null() { return Err(null) }; let _g = Guard(p);`
  unfoldable pub with_new :
      {A : Type 0}
      → Kind
      → List Handle
      → (S → ℕ × S)
      → E
      → (ℕ → S → S)
      → (ℕ → Action S E A)
      → Action S E A
  with_new kind hs create null delete body = invoke hs create >>= λ p.
      owned kind p >> unless_null null p (guarded (handle kind p) (delete p) (body p))

  -- A call that answers an error object, or NULL for none.
  unfoldable pub try_call :
      {A B : Type 0}
      → List Handle
      → (S → (ℕ × B) × S)
      → (ℕ → Action S E A)
      → (B → Action S E A)
      → Action S E A
  try_call hs call fail body =
      invoke hs call >>= λ answer. unless_error answer.0 (fail answer.0) (body answer.1)

  -- What a guard and the check for NULL make of a pointer that a `try_call` filled in, and the
  -- guard without the check.
  unfoldable pub with_filled :
      {A : Type 0} → Kind → E → (ℕ → S → S) → (ℕ → Action S E A) → ℕ → Action S E A
  with_filled kind null delete body p =
      owned kind p >> unless_null null p (guarded (handle kind p) (delete p) (body p))

  unfoldable pub with_unchecked :
      {A : Type 0} → Kind → (ℕ → S → S) → (ℕ → Action S E A) → ℕ → Action S E A
  with_unchecked kind delete body p = owned kind p >> guarded (handle kind p) (delete p) (body p)

module _ {S E : Type 0} (clock : S → ℕ × S) where
  -- The end of a measured call: the clock is read, before the guards of its objects drop.
  unfoldable pub clocked : ℕ → Action S E (ℕ × ℕ)
  clocked v = elapsed clock >>= λ ns. pure (ns, v)

-- The load time, and the measurement of a call or of a sample.
module _ {S E : Type 0} (clock : S → ℕ × S) (env : Option ℕ) (window : Window) (after : After) where
  unfoldable pub measuring_calls : ℕ → Action S E (ℕ × ℕ) → Action S (Ending E) RunReport
  measuring_calls iters call = elapsed clock >>= λ load w.
      of_answer (measure_calls (λ v. attempt_of (call v)) env window after load iters w)

  unfoldable pub measuring_samples : Action S E (ℕ × ℕ) → Action S (Ending E) RunReport
  measuring_samples sample = elapsed clock >>= λ load w.
      of_answer (measure_samples (λ v. attempt_of (sample v)) env window after load w)
