-- ===== src/Femtovg/Driver.antt =====
-- run_e2e_on_this_thread of crates/benchmark-core/src/femtovg_e2e.rs: a guest draws the frames of a
-- zoom schedule in passes, the host replays each, and the last pass is reported. The guest, the GPU,
-- the clock, the kernel's counters and the file system are parameters; a duration is in ns, and
-- `elapsed` reads the one since its Instant::now().
pub mod Run
pub mod Ends
pub mod Frame
pub mod Start
pub mod Report
pub mod Works
pub mod Verdict
mod Runs
use wasm_benchmark.Base.{
  ℕ, zero, suc, ◌+◌, ◌*◌, ◌/◌, ◌%◌, ◌^◌, List, [], ◌∷◌, ◌++◌, Bool, true, false, Option, none, some,
  length, leb, ◌==◌, if◌then◌else◌, bit_xor, signed_ltb, max,
}
use Prim.Native.String.{String}
use wasm_benchmark.Harness.Cases.{Runtime}
use wasm_benchmark.Harness.Usage.{ProcUsage, since, no_usage}
use wasm_benchmark.Runtimes.Action.{Result, done, raised}
use wasm_benchmark.Femtovg.Host.{Variant, HostState, Host, fnv1a, fnv_offset, fnv_prime}

pub record E2eConfig : Type 0 where
  pub scene : ℕ
  pub frames : ℕ
  pub width : ℕ
  pub height : ℕ
  pub passes : ℕ

abbrev pub default_config : E2eConfig
default_config = record { scene = 0; frames = 121; width = 1024; height = 1024; passes = 2 }

pub record FrameStats : Type 0 where
  pub t_guest : ℕ
  pub t_encode : ℕ
  pub t_gpu : ℕ
  pub verts : ℕ
  pub commands : ℕ
  pub hash : ℕ

abbrev pub total : FrameStats → ℕ
total f = f.t_guest + f.t_encode + f.t_gpu

pub record E2eReport : Type 0 where
  pub runtime : Runtime
  pub variant : Variant
  pub config : E2eConfig
  pub paths : ℕ
  pub load_time : ℕ
  pub init_time : ℕ
  pub frames : List FrameStats
  pub all_hash : ℕ
  pub max_mem_pages : ℕ
  pub phys_footprint_peak : ℕ
  pub phys_footprint_before_guest : ℕ
  pub final_texture_hash : ℕ
  pub cpu_ns : ℕ
  pub p_cpu_ns : ℕ
  pub instructions : ℕ
  pub cycles : ℕ
  pub adapter : String

-- The errors with their contexts; an error of a parameter is an `E`.
pub data E2eError (E : Type 0) : Type 0 where
  gpu_failed instantiate_failed init_failed mem_pages_failed render_failed poll_failed
        read_back_failed png_failed :
      E → E2eError E
  init_returned : ℕ → E2eError E
  frame_failed : ℕ → E → E2eError E
  frame_returned : ℕ → ℕ → E2eError E
  did_not_render : ℕ → E2eError E
  host_missing : E2eError E

-- The thread's host state, and the rest of the world with the guest in it.
pub record Scenery (S R : Type 0) : Type 0 where
  pub host : Host R
  pub outside : S

abbrev pub Drive : Type 0 → Type 0 → Type 0 → Type 0 → Type 0
Drive S R E A = Scenery S R → Result (E2eError E) A × Scenery S R

-- What the driver calls. The guest may reach the host state through its imports; `B` is a command
-- buffer, and a submission is a number.
pub record Platform (S R B E : Type 0) : Type 0 where
  pub gpu : ℕ → ℕ → S → Result E String × S
  pub new_replayer : S → R × S
  pub elapsed : S → ℕ × S
  pub phys_footprint : S → Option (ℕ × ℕ) × S
  pub proc_usage : S → Option ProcUsage × S
  pub instantiate : Runtime → Variant → Scenery S R → Result E Unit × Scenery S R
  pub guest_init : ℕ → ℕ → ℕ → Scenery S R → Result E ℕ × Scenery S R
  pub guest_frame : ℕ → ℕ → Scenery S R → Result E ℕ × Scenery S R
  pub guest_mem_pages : Scenery S R → Result E ℕ × Scenery S R
  pub drop_guest : Scenery S R → Scenery S R
  pub render : List ℕ → List ℕ → R → Result E (Option B) × R
  pub submit : B → S → ℕ × S
  pub poll : ℕ → S → Option E × S
  pub read_back : ℕ → ℕ → S → Result E (List ℕ) × S
  pub write_png : ℕ → ℕ → List ℕ → S → Option E × S

abbrev pub context_of : {E A : Type 0} → (E → E2eError E) → Result E A → Result (E2eError E) A
context_of wrap (done a) = done a
context_of wrap (raised e) = raised (wrap e)

abbrev pub succeeded : {E : Type 0} → Option E → Result E Unit
succeeded none = done tt
succeeded (some e) = raised e

-- `with_host(|h| h.rendered = false)`
abbrev pub unrendered : {R : Type 0} → Host R → Host R
unrendered none = none
unrendered (some h) = some (record h { rendered = false })

module _ {S R E : Type 0} where
  abbrev pub pure : {A : Type 0} → A → Drive S R E A
  pure a w = (done a, w)

  abbrev pub bail : {A : Type 0} → E2eError E → Drive S R E A
  bail e w = (raised e, w)

  infixl 5 ◌>>=◌ ◌>>◌
  abbrev pub ◌>>=◌ : {A B : Type 0} → Drive S R E A → (A → Drive S R E B) → Drive S R E B
  ◌>>=◌ m f w = let (r, w') = m w in elim r [ done a ↦ f a w' | raised e ↦ (raised e, w') ]

  abbrev pub ◌>>◌ : {A B : Type 0} → Drive S R E A → Drive S R E B → Drive S R E B
  m >> k = m >>= λ _. k

  -- A call of the rest of the world, and one that can fail, with its context.
  abbrev pub outer : {A : Type 0} → (S → A × S) → Drive S R E A
  outer f w = let (a, s) = f w.outside in (done a, record w { outside = s })

  abbrev pub with_context :
      {A : Type 0} → (E → E2eError E) → (Scenery S R → Result E A × Scenery S R) → Drive S R E A
  with_context wrap f w = let (r, w') = f w in (context_of wrap r, w')

  abbrev pub outer_or : {A : Type 0} → (E → E2eError E) → (S → Result E A × S) → Drive S R E A
  outer_or wrap f w = let (r, s) = f w.outside in (context_of wrap r, record w { outside = s })

  abbrev pub checked : (E → E2eError E) → (S → Option E × S) → Drive S R E Unit
  checked wrap f = outer_or wrap λ s. let (e, s') = f s in (succeeded e, s')

  unfoldable pub clear_rendered : Drive S R E Unit
  clear_rendered w = (done tt, record w { host = unrendered w.host })

  -- A negative i32 is an error.
  abbrev pub unless_negative : {A : Type 0} → E2eError E → ℕ → Drive S R E A → Drive S R E A
  unless_negative e n body = if leb (2 ^ 31) n then bail e else body
