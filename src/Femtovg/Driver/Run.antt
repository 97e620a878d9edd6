-- ===== src/Femtovg/Driver/Run.antt =====
-- The frames, the passes and the report of run_e2e_on_this_thread in
-- crates/benchmark-core/src/femtovg_e2e.rs.
use wasm_benchmark.Base.{
  ℕ, zero, suc, ◌+◌, ◌*◌, ◌/◌, ◌%◌, ◌^◌, List, [], ◌∷◌, Bool, true, false, Option, none, some,
  length, if◌then◌else◌, bit_xor, signed_ltb,
}
use Prim.Native.String.{String}
use wasm_benchmark.Harness.Cases.{Runtime}
use wasm_benchmark.Harness.Usage.{ProcUsage, since, no_usage}
use wasm_benchmark.Runtimes.Action.{Result, done, raised}
use wasm_benchmark.Femtovg.Host.{Variant, HostState, Host, fnv1a, fnv_offset, fnv_prime}
use wasm_benchmark.Femtovg.Driver.{
  E2eConfig, FrameStats, E2eReport, gpu_failed, instantiate_failed, init_failed, mem_pages_failed,
  render_failed, poll_failed, read_back_failed, png_failed, init_returned, frame_failed,
  frame_returned, did_not_render, host_missing, Drive, Platform, pure, bail, ◌>>=◌, ◌>>◌, outer,
  with_context, outer_or, checked, clear_rendered, unless_negative,
}

-- `max_pages.max(pages)` of two i32s.
abbrev pub max_signed : ℕ → ℕ → ℕ
max_signed a b = if signed_ltb a b then b else a

abbrev pub usage_of : Option ProcUsage → Option ProcUsage → ProcUsage
usage_of none before = no_usage
usage_of (some after) none = no_usage
usage_of (some after) (some before) = since after before

abbrev pub current_footprint : Option (ℕ × ℕ) → ℕ
current_footprint none = 0
current_footprint (some (now, peak)) = now

abbrev pub peak_footprint : Option (ℕ × ℕ) → ℕ
peak_footprint none = 0
peak_footprint (some (now, peak)) = peak

-- `cfg.passes.max(1)`, less one.
abbrev pub passes_before_last : ℕ → ℕ
passes_before_last zero = 0
passes_before_last (suc n) = n

module _ {S R B E : Type 0} (p : Platform S R B E) where
  abbrev pub submitted : Option B → Drive S R E (Option ℕ)
  submitted none = pure none
  submitted (some buffer) = outer (p.submit buffer) >>= λ idx. pure (some idx)

  -- The replay of the frame that the host holds: the submission, the vertices and the hash.
  abbrev pub replay_held : HostState R → Result E (Option B) × R → Drive S R E (Option ℕ × ℕ × ℕ)
  replay_held h (raised e, r) w =
      (raised (render_failed e), record w { host = some (record h { replayer = r }) })
  replay_held h (done buffer, r) w =
      (submitted buffer >>= λ sub. pure (sub, length h.verts / 16, h.hash))
        (record w { host = some (record h { replayer = r }) })

  abbrev pub replay_host : ℕ → Host R → Drive S R E (Option ℕ × ℕ × ℕ)
  replay_host i none = bail host_missing
  replay_host i (some h) =
      if h.rendered
      then replay_held h (p.render h.verts h.commands h.replayer)
      else bail (did_not_render i)

  abbrev pub waited : Option ℕ → Drive S R E Unit
  waited none = pure tt
  waited (some idx) = checked poll_failed (p.poll idx)

  -- A frame behind the guest's call: the wait for the GPU, and the entry.
  unfoldable pub after_replay : ℕ → ℕ → Option ℕ × ℕ × ℕ → Drive S R E FrameStats
  after_replay n t_guest shown = outer p.elapsed >>= λ t_encode. waited shown.0 >>= λ _.
      outer p.elapsed >>= λ t_gpu. pure (record {
        t_guest = t_guest;
        t_encode = t_encode;
        t_gpu = t_gpu;
        verts = shown.1;
        commands = n;
        hash = shown.2;
      })

  unfoldable pub after_guest : ℕ → ℕ → Drive S R E FrameStats
  after_guest i n = outer p.elapsed >>= λ t_guest.
      unless_negative (frame_returned i n) n
        ((λ w. replay_host i w.host w) >>= after_replay n t_guest)

  -- One frame of a pass.
  unfoldable pub frame_step : ℕ → ℕ → Drive S R E FrameStats
  frame_step count i =
      clear_rendered >> with_context (frame_failed i) (p.guest_frame i count) >>= after_guest i

  -- The frames from i, with those left.
  unfoldable pub frames_loop : ℕ → ℕ → ℕ → Drive S R E (List FrameStats)
  frames_loop count zero i = pure []
  frames_loop count (suc left) i =
      frame_step count i >>= λ stats. frames_loop count left (i + 1) >>= λ rest. pure (stats ∷ rest)

  -- The passes, with those left behind this one: the last is measured.
  unfoldable pub passes_loop : ℕ → ℕ → ℕ → Drive S R E (List FrameStats × Option ProcUsage × ℕ)
  unfolding frames_loop
  passes_loop count zero pages = outer p.proc_usage >>= λ before.
      frames_loop count count 0 >>= λ frames.
      with_context mem_pages_failed p.guest_mem_pages >>= λ now.
      pure (frames, before, max_signed pages now)
  passes_loop count (suc left) pages = frames_loop count count 0 >>= λ frames.
      with_context mem_pages_failed p.guest_mem_pages >>= λ now.
      passes_loop count left (max_signed pages now)

  abbrev pub written : Bool → ℕ → ℕ → List ℕ → Drive S R E Unit
  written false width height pixels = pure tt
  written true width height pixels = checked png_failed (p.write_png width height pixels)

-- `frames.iter().fold(FNV_OFFSET, |a, f| (a ^ f.hash).wrapping_mul(FNV_PRIME))`
unfoldable pub hash_of_frames : ℕ → List FrameStats → ℕ
hash_of_frames a [] = a
hash_of_frames a (f ∷ frames) = hash_of_frames (bit_xor a f.hash * fnv_prime % 2 ^ 64) frames

module _ {S R B E : Type 0} (p : Platform S R B E) (rt : Runtime) (variant : Variant)
    (cfg : E2eConfig) (png : Bool) where
  -- The adapter, the footprint before the guest, and the load time.
  module _ (adapter : String) (footprint load_time : ℕ) where
    abbrev pub report_of :
        ℕ
        → ℕ
        → List FrameStats × Option ProcUsage × ℕ
        → Option ProcUsage
        → List ℕ
        → Option (ℕ × ℕ)
        → E2eReport
    report_of paths init_time measured after pixels last =
        let usage = usage_of after measured.1 in
        record {
          runtime = rt;
          variant = variant;
          config = cfg;
          paths = paths;
          load_time = load_time;
          init_time = init_time;
          frames = measured.0;
          all_hash = hash_of_frames fnv_offset measured.0;
          max_mem_pages = measured.2;
          phys_footprint_peak = peak_footprint last;
          phys_footprint_before_guest = footprint;
          final_texture_hash = fnv1a fnv_offset pixels;
          cpu_ns = usage.cpu_ns;
          p_cpu_ns = usage.p_cpu_ns;
          instructions = usage.instructions;
          cycles = usage.cycles;
          adapter = adapter;
        }

    unfoldable pub after_pixels :
        ℕ
        → ℕ
        → List FrameStats × Option ProcUsage × ℕ
        → Option ProcUsage
        → List ℕ
        → Drive S R E E2eReport
    after_pixels paths init_time measured after pixels =
        written p png cfg.width cfg.height pixels >>= λ _. outer p.phys_footprint >>= λ last.
        pure (report_of paths init_time measured after pixels last)

    unfoldable pub after_passes :
        ℕ → ℕ → List FrameStats × Option ProcUsage × ℕ → Drive S R E E2eReport
    after_passes paths init_time measured = outer p.proc_usage >>= λ after.
        outer_or read_back_failed (p.read_back cfg.width cfg.height)
        >>= after_pixels paths init_time measured after

    unfoldable pub after_pages : ℕ → ℕ → ℕ → Drive S R E E2eReport
    after_pages paths init_time pages =
        passes_loop p cfg.frames (passes_before_last cfg.passes) pages
        >>= after_passes paths init_time

    unfoldable pub after_init : ℕ → Drive S R E E2eReport
    after_init paths = outer p.elapsed >>= λ init_time.
        unless_negative (init_returned paths) paths
          (with_context mem_pages_failed p.guest_mem_pages >>= after_pages paths init_time)

    unfoldable pub drive_guest : Drive S R E E2eReport
    drive_guest =
        with_context init_failed (p.guest_init cfg.scene cfg.width cfg.height) >>= after_init

  -- The guest is dropped on every way out.
  abbrev pub dropping_guest : {A : Type 0} → Drive S R E A → Drive S R E A
  dropping_guest body w = let (r, w') = body w in (r, p.drop_guest w')

  -- `Uninstall`: so is the host state, behind the guest.
  abbrev pub uninstalling : {A : Type 0} → Drive S R E A → Drive S R E A
  uninstalling body w = let (r, w') = body w in (r, record w' { host = none })

  abbrev pub installed : R → HostState R
  installed r = record { replayer = r; verts = []; commands = []; hash = 0; rendered = false }

  abbrev pub install : Drive S R E Unit
  install w =
      let (r, s) = p.new_replayer w.outside in
      (done tt, record { host = some (installed r); outside = s })

  unfoldable pub with_guest : String → Option (ℕ × ℕ) → Drive S R E E2eReport
  with_guest adapter before =
      dropping_guest
        (outer p.elapsed >>= λ load_time. drive_guest adapter (current_footprint before) load_time)

  unfoldable pub with_gpu : String → Drive S R E E2eReport
  with_gpu adapter =
      install
      >> uninstalling (
          outer p.phys_footprint >>= λ before.
          with_context instantiate_failed (p.instantiate rt variant) >>= λ _.
          with_guest adapter before)

  unfoldable pub run_e2e_on_this_thread : Drive S R E E2eReport
  run_e2e_on_this_thread = outer_or gpu_failed (p.gpu cfg.width cfg.height) >>= with_gpu
