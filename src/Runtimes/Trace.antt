-- ===== src/Runtimes/Trace.antt =====
-- What an adapter does to the objects of a C library, as a list of events with the latest first,
-- and the discipline that such a list has to follow.
use wasm_benchmark.Base.{ℕ, ◌+◌, ◌≡◌, refl, arith, List, [], ◌∷◌, ◌==◌, ◌&&◌, if◌then◌else◌, All}

pub data Kind : Type 0 where
  engine store wasm_module linker instance error environment runtime exec_env exports trap functype
        configure loader validator executor ast machine byte_copy export_types :
      Kind

-- A pointer that the library gave out, never NULL.
pub record Handle : Type 0 where
  pub kind : Kind
  pub pointer : ℕ

-- An object is created, deleted, or given to another object that deletes it; or a function of the
-- library is called with the objects. A pointer into an object (a function of an instance) stands
-- for the object.
pub data Event : Type 0 where
  opened closed handed : Handle → Event
  used : List Handle → Event

pub data Live (h : Handle) : List Handle → Type 0 where
  here : {live : List Handle} → Live h (h ∷ live)
  there : {k : Handle} {live : List Handle} → Live h live → Live h (k ∷ live)

-- The events that leave the given objects alive, the youngest first: only the youngest is deleted
-- or given away, and only living objects are used.
pub data Legal : List Event → List Handle → Type 0 where
  start : Legal [] []
  opening :
      {log : List Event} {live : List Handle} (h : Handle)
      → Legal log live
      → Legal (opened h ∷ log) (h ∷ live)
  closing :
      {log : List Event} {live : List Handle} (h : Handle)
      → Legal log (h ∷ live)
      → Legal (closed h ∷ log) live
  handing :
      {log : List Event} {live : List Handle} (h : Handle)
      → Legal log (h ∷ live)
      → Legal (handed h ∷ log) live
  using :
      {log : List Event} {live : List Handle} (hs : List Handle)
      → All (λ h. Live h live) hs
      → Legal log live
      → Legal (used hs ∷ log) live

-- How often an object is created, and how often it is deleted or given away.
abbrev pub kind_code : Kind → ℕ
kind_code engine = 0
kind_code store = 1
kind_code wasm_module = 2
kind_code linker = 3
kind_code instance = 4
kind_code error = 5
kind_code environment = 6
kind_code runtime = 7
kind_code exec_env = 8
kind_code exports = 9
kind_code trap = 10
kind_code functype = 11
kind_code configure = 12
kind_code loader = 13
kind_code validator = 14
kind_code executor = 15
kind_code ast = 16
kind_code machine = 17
kind_code byte_copy = 18
kind_code export_types = 19

abbrev pub is_handle : Handle → Handle → ℕ
is_handle h k = if (kind_code h.kind == kind_code k.kind) && (h.pointer == k.pointer) then 1 else 0

abbrev pub creations : Handle → List Event → ℕ
creations h [] = 0
creations h (opened k ∷ log) = is_handle h k + creations h log
creations h (closed k ∷ log) = creations h log
creations h (handed k ∷ log) = creations h log
creations h (used hs ∷ log) = creations h log

abbrev pub releases : Handle → List Event → ℕ
releases h [] = 0
releases h (opened k ∷ log) = releases h log
releases h (closed k ∷ log) = is_handle h k + releases h log
releases h (handed k ∷ log) = is_handle h k + releases h log
releases h (used hs ∷ log) = releases h log

abbrev pub alive : Handle → List Handle → ℕ
alive h [] = 0
alive h (k ∷ live) = is_handle h k + alive h live

-- An object is released once for every time that it is created, less the times it is alive.
pub creations-releases :
    {log : List Event} {live : List Handle} (h : Handle)
    → Legal log live
    → creations h log ≡ releases h log + alive h live
creations-releases h start = refl
creations-releases h (opening k l) = omega (arith, creations-releases h l)
creations-releases h (closing k l) = omega (arith, creations-releases h l)
creations-releases h (handing k l) = omega (arith, creations-releases h l)
creations-releases h (using hs u l) = creations-releases h l

pub all_released : {log : List Event} (h : Handle) → Legal log [] → creations h log ≡ releases h log
all_released h l = omega (arith, creations-releases h l)
