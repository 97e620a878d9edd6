-- ===== src/Femtovg/Driver/Verdict.antt =====
-- The two verdicts of the driver on a platform on which the calls work.
use wasm_benchmark.Base.{
  ℕ, ◌+◌, ◌<◌, ◌≡◌, refl, arith, List, [], ◌∷◌, Bool, true, false, none, length, ap,
}
use wasm_benchmark.Harness.Cases.{Runtime}
use wasm_benchmark.Runtimes.Action.{Result, done, raised}
use wasm_benchmark.Femtovg.Host.{Variant}
use wasm_benchmark.Femtovg.Driver.{
  E2eConfig, FrameStats, E2eReport, E2eError, did_not_render, Scenery, Platform,
}
use wasm_benchmark.Femtovg.Driver.Run.{run_e2e_on_this_thread}
use wasm_benchmark.Femtovg.Driver.Ends.{Reports, AllFrom}
use wasm_benchmark.Femtovg.Driver.Frame.{Shown}
use wasm_benchmark.Femtovg.Driver.Start.{fresh_thread, RunEnd}
use wasm_benchmark.Femtovg.Driver.Works.{Works, Fails, ShownIf, run_e2e-Works}

module _ {S R B E : Type 0} (p : Platform S R B E) (rt : Runtime) (variant : Variant)
    (cfg : E2eConfig) (Live : S → Type 0) where
  -- A report with the world behind it, and the error of a frame that was not rendered.
  abbrev pub GetsReport : Result (E2eError E) E2eReport × Scenery S R → Type 0
  GetsReport answer =
      (report : E2eReport) × (w : Scenery S R) × (answer ≡ (done report, w))
      × Reports (Shown p cfg.frames) cfg report
      × (w.host ≡ none)

  abbrev pub GetsError : Result (E2eError E) E2eReport × Scenery S R → Type 0
  GetsError answer =
      (i : ℕ) × (w : Scenery S R) × (answer ≡ (raised (did_not_render i), w)) × (w.host ≡ none)

  all-Shown :
      (i : ℕ) (frames : List FrameStats)
      → AllFrom (ShownIf p cfg.frames true) i frames
      → AllFrom (Shown p cfg.frames) i frames
  all-Shown i [] h = tt
  all-Shown i (f ∷ frames) h = (h.0.1, all-Shown (i + 1) frames h.1)

  none-Shown :
      (frames : List FrameStats)
      → 0 < length frames
      → AllFrom (ShownIf p cfg.frames false) 0 frames
      → ⊥
  none-Shown [] n h = omega arith
  none-Shown (f ∷ frames) n h = cc (h.0.0)

  report_of_end :
      (png : Bool) (answer : Result (E2eError E) E2eReport × Scenery S R)
      → RunEnd p rt variant cfg png (ShownIf p cfg.frames true) (Fails true) answer
      → GetsReport answer
  report_of_end png (done report, w) h = (
    report,
    w,
    refl,
    record {
      counted = h.0.counted;
      drawn = all-Shown 0 report.frames h.0.drawn;
      not_negative = h.0.not_negative;
    },
    h.1,
  )
  report_of_end png (raised e, w) h = absurd (cc (h.0.1))

  error_of_end :
      (png : Bool) (answer : Result (E2eError E) E2eReport × Scenery S R)
      → 0 < cfg.frames
      → RunEnd p rt variant cfg png (ShownIf p cfg.frames false) (Fails false) answer
      → GetsError answer
  error_of_end png (done report, w) n h =
      absurd (none-Shown report.frames (omega (arith, h.0.counted)) h.0.drawn)
  error_of_end png (raised e, w) n h = (h.0.0, w, ap (λ x. (raised x, w)) h.0.2, h.1)

  -- Where no call fails and the guest renders each frame, a run ends in a report, with an entry for
  -- each frame of the last pass, and no host state is left.
  pub run_e2e-report :
      Works p rt variant cfg Live true
      → (png : Bool) (s : S) → Live s
      → GetsReport (run_e2e_on_this_thread p rt variant cfg png (fresh_thread s))
  run_e2e-report works png s live =
      report_of_end png _ (run_e2e-Works p rt variant cfg Live true works png s live)

  -- Where no call fails, but the guest renders no frame, a run of one frame or more ends in the error
  -- of a frame that was not rendered, whatever the guest rendered before, and no host state is left.
  pub run_e2e-did_not_render :
      Works p rt variant cfg Live false
      → (png : Bool) (s : S) → 0 < cfg.frames
      → Live s
      → GetsError (run_e2e_on_this_thread p rt variant cfg png (fresh_thread s))
  run_e2e-did_not_render works png s n live =
      error_of_end png _ n (run_e2e-Works p rt variant cfg Live false works png s live)
