-- ===== src/Femtovg/Driver/Start.antt =====
-- A run of the driver from its start, with the host state installed and taken away.
use wasm_benchmark.Base.{◌≡◌, refl, Bool, none, some, ℕ}
use wasm_benchmark.Harness.Cases.{Runtime}
use wasm_benchmark.Runtimes.Action.{Result, done, raised}
use wasm_benchmark.Femtovg.Host.{Variant}
use wasm_benchmark.Femtovg.Driver.{
  E2eConfig, FrameStats, E2eReport, E2eError, gpu_failed, instantiate_failed, Scenery, Drive,
  Platform, ◌>>=◌, outer, outer_or, with_context,
}
use wasm_benchmark.Femtovg.Driver.Run.{
  drive_guest, installed, uninstalling, dropping_guest, current_footprint, with_gpu, with_guest,
  run_e2e_on_this_thread,
}
use wasm_benchmark.Femtovg.Driver.Ends.{
  Ends, bind-Ends, with_context-Ends, Reports, Steps, drive_guest-Ends,
}

-- The thread's start: no host state.
abbrev pub fresh_thread : {S R : Type 0} → S → Scenery S R
fresh_thread s = record { host = none; outside = s }

module _ {S R B E : Type 0} (p : Platform S R B E) (rt : Runtime) (variant : Variant)
    (cfg : E2eConfig) (png : Bool) where
  -- With the host state installed, a run ends as its steps do, and takes the host state away.
  abbrev pub RunEnd :
      (ℕ → FrameStats → Type 0)
      → (E2eError E → Type 0)
      → Result (E2eError E) E2eReport × Scenery S R
      → Type 0
  RunEnd D F =
      Ends (λ report w. Reports D cfg report × (w.host ≡ none)) (λ e w. F e × (w.host ≡ none))

  guarded-RunEnd :
      (D : ℕ → FrameStats → Type 0) (F : E2eError E → Type 0) (body : Drive S R E E2eReport)
      (w : Scenery S R)
      → Ends (λ report _. Reports D cfg report) (λ e _. F e) (body w)
      → RunEnd D F (uninstalling p rt variant cfg png body w)
  guarded-RunEnd D F body w h = after (body w) h
    where
      after :
          (r : Result (E2eError E) E2eReport × Scenery S R)
          → Ends (λ report _. Reports D cfg report) (λ e _. F e) r
          → RunEnd D F (r.0, record r.1 { host = none })
      after (done report, w') h = (h, refl)
      after (raised e, w') h = (h, refl)

  dropped-Ends :
      (D : ℕ → FrameStats → Type 0) (F : E2eError E → Type 0) (body : Drive S R E E2eReport)
      (w : Scenery S R)
      → Ends (λ report _. Reports D cfg report) (λ e _. F e) (body w)
      → Ends
          (λ report _. Reports D cfg report)
          (λ e _. F e)
          (dropping_guest p rt variant cfg png body w)
  dropped-Ends D F body w h = after (body w) h
    where
      after :
          (r : Result (E2eError E) E2eReport × Scenery S R)
          → Ends (λ report _. Reports D cfg report) (λ e _. F e) r
          → Ends (λ report _. Reports D cfg report) (λ e _. F e) (r.0, p.drop_guest r.1)
      after (done report, w') h = h
      after (raised e, w') h = h

  -- How a run starts: with a GPU, and then with a guest that P holds of.
  pub record Starts (Ready P : Scenery S R → Type 0) (F : E2eError E → Type 0) (s : S)
      : Type 0 where
    pub gpu :
        Ends
          (λ _. Ready)
          (λ e w. F e × (w.host ≡ none))
          (outer_or gpu_failed (p.gpu cfg.width cfg.height) (fresh_thread s))
    pub instantiate :
        (w : Scenery S R)
        → Ready w
        → Ends
            (λ _. P)
            (λ e _. F (instantiate_failed e))
            (p.instantiate rt variant (record {
              host = some (installed p rt variant cfg png (p.new_replayer w.outside).0);
              outside = (p.phys_footprint (p.new_replayer w.outside).1).1;
            }))

  pub run-RunEnd :
      (Ready P : Scenery S R → Type 0) (D : ℕ → FrameStats → Type 0) (F : E2eError E → Type 0)
      (s : S)
      → Steps p cfg png P D (λ e _. F e)
      → Starts Ready P F s
      → RunEnd D F (run_e2e_on_this_thread p rt variant cfg png (fresh_thread s))
  unfolding run_e2e_on_this_thread with_gpu with_guest
  run-RunEnd Ready P D F s steps starts =
      bind-Ends (λ e w. F e × (w.host ≡ none)) (λ _. Ready)
        (λ report w. Reports D cfg report × (w.host ≡ none))
        (outer_or gpu_failed (p.gpu cfg.width cfg.height)) (with_gpu p rt variant cfg png)
        (fresh_thread s) starts.gpu
        λ adapter w ready.
          let (r, s₁) = p.new_replayer w.outside in
          let (before, s₂) = p.phys_footprint s₁ in
          let w₁ : Scenery S R = record {
            host = some (installed p rt variant cfg png r);
            outside = s₂;
          } in
          guarded-RunEnd D F
            (λ w'.
              (with_context instantiate_failed (p.instantiate rt variant) >>= λ _.
              with_guest p rt variant cfg png adapter (p.phys_footprint w'.outside).0)
                (record w' { outside = (p.phys_footprint w'.outside).1 }))
            (record { host = some (installed p rt variant cfg png r); outside = s₁ })
            (bind-Ends (λ e _. F e) (λ _. P) (λ report _. Reports D cfg report)
              (with_context instantiate_failed (p.instantiate rt variant))
              (λ _. with_guest p rt variant cfg png adapter before) w₁
              (with_context-Ends (λ e _. F e) (λ _. P) instantiate_failed (p.instantiate rt variant)
                w₁ (starts.instantiate w ready))
              λ _ w₂ h.
                dropped-Ends D F
                  (outer p.elapsed >>= λ load_time.
                    drive_guest p rt variant cfg png adapter (current_footprint before) load_time)
                  w₂
                  (drive_guest-Ends p cfg png P D (λ e _. F e) steps rt variant adapter
                    (current_footprint before) (p.elapsed w₂.outside).0
                    (record w₂ { outside = (p.elapsed w₂.outside).1 }) (steps.elapsed w₂ h)))
