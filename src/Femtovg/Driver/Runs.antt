-- ===== src/Femtovg/Driver/Runs.antt =====
-- A platform whose calls work, with a guest that draws every frame and with one that draws none.
use wasm_benchmark.Base.{ℕ, ◌+◌, refl, ap, arith, Bool, true, false, none, some, replicate}
use wasm_benchmark.Harness.Cases.{pulley}
use wasm_benchmark.Runtimes.Action.{done}
use wasm_benchmark.Femtovg.Host.{simd128, Host}
use wasm_benchmark.Femtovg.Driver.{E2eConfig, Platform}
use wasm_benchmark.Femtovg.Driver.Run.{run_e2e_on_this_thread}
use wasm_benchmark.Femtovg.Driver.Frame.{Shown}
use wasm_benchmark.Femtovg.Driver.Start.{fresh_thread, RunEnd}
use wasm_benchmark.Femtovg.Driver.Report.{run_e2e-Reports}
use wasm_benchmark.Femtovg.Driver.Works.{Works}
use wasm_benchmark.Femtovg.Driver.Verdict.{
  GetsReport, GetsError, run_e2e-report, run_e2e-did_not_render,
}

abbrev two_frames : E2eConfig
two_frames = record { scene = 0; frames = 2; width = 1; height = 1; passes = 2 }

-- A frame of one vertex, if the guest draws.
abbrev after_frame : Bool → Host ℕ → Host ℕ
after_frame draws none = none
after_frame draws (some h) = some (record h { verts = replicate 16 0; hash = 5; rendered = draws })

-- The state counts the readings of the clock; the buffer is a number.
abbrev demo : Bool → Platform ℕ ℕ ℕ (Unit {0})
demo draws = record {
  gpu = λ w h s. (done "demo", s);
  new_replayer = λ s. (0, s);
  elapsed = λ s. (1000, s + 1);
  phys_footprint = λ s. (some (4096, 8192), s);
  proc_usage = λ s. (none, s);
  instantiate = λ rt variant w. (done tt, w);
  guest_init = λ scene width height w. (done 7, w);
  guest_frame = λ i count w. (done 3, record w { host = after_frame draws w.host });
  guest_mem_pages = λ w. (done 20, w);
  drop_guest = λ w. w;
  render = λ v c r. (done (some 9), r + 1);
  submit = λ b s. (b, s);
  poll = λ idx s. (none, s);
  read_back = λ w h s. (done (replicate 4 255), s);
  write_png = λ w h pixels s. (none, s);
}

demo-Works : (draws : Bool) → Works (demo draws) pulley simd128 two_frames (λ s. Unit) draws
demo-Works draws = record {
  gpu = λ s l. tt;
  new_replayer = λ s l. tt;
  elapsed = λ s l. tt;
  phys_footprint = λ s l. tt;
  proc_usage = λ s l. tt;
  submit = λ b s l. tt;
  poll = λ idx s l. (refl, tt);
  read_back = λ s l. tt;
  write_png = λ pixels s l. (refl, tt);
  render = λ v c r. tt;
  instantiate = λ w o. o;
  guest_init = λ w o. (o, omega arith);
  guest_mem_pages = λ w o. o;
  guest_frame = λ i w o. (
    (
      record o.0 { verts = replicate 16 0; hash = 5; rendered = draws },
      ap (after_frame draws) o.1,
      refl,
      tt,
    ),
    omega arith,
  );
}

run_e2e-Reports_example :
    RunEnd
      (demo true)
      pulley
      simd128
      two_frames
      false
      (Shown (demo true) two_frames.frames)
      (λ _. Unit)
      (run_e2e_on_this_thread (demo true) pulley simd128 two_frames false (fresh_thread 0))
run_e2e-Reports_example = run_e2e-Reports (demo true) pulley simd128 two_frames false 0

run_e2e-report_example :
    GetsReport
      (demo true)
      pulley
      simd128
      two_frames
      (λ s. Unit)
      (run_e2e_on_this_thread (demo true) pulley simd128 two_frames true (fresh_thread 0))
run_e2e-report_example =
    run_e2e-report (demo true) pulley simd128 two_frames (λ s. Unit) (demo-Works true) true 0 tt

run_e2e-did_not_render_example :
    GetsError
      (demo false)
      pulley
      simd128
      two_frames
      (λ s. Unit)
      (run_e2e_on_this_thread (demo false) pulley simd128 two_frames false (fresh_thread 0))
run_e2e-did_not_render_example =
    run_e2e-did_not_render (demo false) pulley simd128 two_frames (λ s. Unit) (demo-Works false)
      false 0 (omega arith) tt
