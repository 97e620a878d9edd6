-- ===== src/Femtovg/Driver/Ends.antt =====
-- A run of the driver from what holds of its steps.
use wasm_benchmark.Base.{
  [], ℕ, zero, suc, ◌+◌, ◌^◌, ◌<◌, ◌≤◌, ◌≡◌, refl, ap, arith, List, ◌∷◌, Bool, Option, length, leb,
  Bool-cases, inl, inr, leb→le,
}
use Prim.Native.String.{String}
use wasm_benchmark.Harness.Cases.{Runtime}
use wasm_benchmark.Harness.Usage.{ProcUsage}
use wasm_benchmark.Runtimes.Action.{Result, done, raised}
use wasm_benchmark.Femtovg.Host.{Variant}
use wasm_benchmark.Femtovg.Driver.{
  E2eConfig, FrameStats, E2eReport, E2eError, init_failed, mem_pages_failed, read_back_failed,
  init_returned, Scenery, Drive, Platform, ◌>>=◌, with_context, outer_or, context_of,
  unless_negative,
}
use wasm_benchmark.Femtovg.Driver.Run.{
  frame_step, frames_loop, passes_loop, passes_before_last, max_signed, drive_guest, report_of,
  after_pixels, after_passes, after_pages, after_init, written,
}

-- What holds of an answer, or of an error, and of the world behind it.
abbrev pub Ends : {W E A : Type 0} → (A → W → Type 0) → (E → W → Type 0) → Result E A × W → Type 0
Ends Q X (done a, w) = Q a w
Ends Q X (raised e, w) = X e w

module _ {S R E : Type 0} (X : E2eError E → Scenery S R → Type 0) where
  pub bind-Ends :
      {A B : Type 0} (Q : A → Scenery S R → Type 0) (Q' : B → Scenery S R → Type 0)
      (m : Drive S R E A) (f : A → Drive S R E B) (w : Scenery S R)
      → Ends Q X (m w)
      → ((a : A) (w' : Scenery S R) → Q a w' → Ends Q' X (f a w'))
      → Ends Q' X ((m >>= f) w)
  bind-Ends {A} {B} Q Q' m f w h k = after (m w) h
    where
      after :
          (r : Result (E2eError E) A × Scenery S R)
          → Ends Q X r
          → Ends Q' X (elim r.0 as (λ _. Result (E2eError E) B × Scenery S R) [
            | done a ↦ f a r.1
            | raised e ↦ (raised e, r.1)
          ])
      after (done a, w') h = k a w' h
      after (raised e, w') h = h

  pub with_context-Ends :
      {A : Type 0} (Q : A → Scenery S R → Type 0) (wrap : E → E2eError E)
      (f : Scenery S R → Result E A × Scenery S R) (w : Scenery S R)
      → Ends Q (λ e. X (wrap e)) (f w)
      → Ends Q X (with_context wrap f w)
  with_context-Ends {A} Q wrap f w h = after (f w) h
    where
      after :
          (r : Result E A × Scenery S R)
          → Ends Q (λ e. X (wrap e)) r
          → Ends Q X (context_of wrap r.0, r.1)
      after (done a, w') h = h
      after (raised e, w') h = h

  pub unless_negative-Ends :
      {A : Type 0} (Q : A → Scenery S R → Type 0) (e : E2eError E) (n : ℕ) (body : Drive S R E A)
      (w : Scenery S R)
      → (2 ^ 31 ≤ n → X e w)
      → (n < 2 ^ 31 → Ends Q X (body w))
      → Ends Q X (unless_negative e n body w)
  unless_negative-Ends Q e n body w negative rest = elim (Bool-cases (leb (2 ^ 31) n)) [
    | inl yes_neg ↦ rw yes_neg (negative (leb→le (2 ^ 31) n yes_neg))
    | inr no_neg ↦ rw no_neg (rest (ground arith))
  ]

  pub outer_or-Ends :
      {A : Type 0} (Q : A → Scenery S R → Type 0) (wrap : E → E2eError E) (f : S → Result E A × S)
      (w : Scenery S R)
      → Ends
          (λ a s. Q a (record w { outside = s }))
          (λ e s. X (wrap e) (record w { outside = s }))
          (f w.outside)
      → Ends Q X (outer_or wrap f w)
  outer_or-Ends {A} Q wrap f w h = after (f w.outside) h
    where
      after :
          (r : Result E A × S)
          → Ends
              (λ a s. Q a (record w { outside = s }))
              (λ e s. X (wrap e) (record w { outside = s }))
              r
          → Ends Q X (context_of wrap r.0, record w { outside = r.1 })
      after (done a, s) h = h
      after (raised e, s) h = h

module _ {W E A : Type 0} where
  pub weaken-Ends :
      (Q Q' : A → W → Type 0) (X X' : E → W → Type 0) (r : Result E A × W)
      → ((a : A) (w : W) → Q a w → Q' a w)
      → ((e : E) (w : W) → X e w → X' e w)
      → Ends Q X r
      → Ends Q' X' r
  weaken-Ends Q Q' X X' (done a, w) f g h = f a w h
  weaken-Ends Q Q' X X' (raised e, w) f g h = g e w h

  -- An answer or an error, of which nothing is said.
  pub any-Ends : (r : Result E A × W) → Ends (λ _ _. Unit {0}) (λ _ _. Unit {0}) r
  any-Ends (done a, w) = tt
  any-Ends (raised e, w) = tt

-- Of the entries, counted from i, holds what D says of each at its place.
abbrev pub AllFrom : (ℕ → FrameStats → Type 0) → ℕ → List FrameStats → Type 0
AllFrom D i [] = Unit
AllFrom D i (stats ∷ frames) = D i stats × AllFrom D (i + 1) frames

-- What a report holds: one entry for each frame, and a count of paths that is not negative.
pub record Reports (D : ℕ → FrameStats → Type 0) (cfg : E2eConfig) (report : E2eReport)
    : Type 0 where
  pub counted : length report.frames ≡ cfg.frames
  pub drawn : AllFrom D 0 report.frames
  pub not_negative : report.paths < 2 ^ 31

module _ {S R B E : Type 0} (p : Platform S R B E) (cfg : E2eConfig) (png : Bool) where
  -- The steps with a guest keep P, give frames of which D holds, and fail as X says.
  pub record Steps (P : Scenery S R → Type 0) (D : ℕ → FrameStats → Type 0)
      (X : E2eError E → Scenery S R → Type 0) : Type 0 where
    pub elapsed : (w : Scenery S R) → P w → P (record w { outside = (p.elapsed w.outside).1 })
    pub usage : (w : Scenery S R) → P w → P (record w { outside = (p.proc_usage w.outside).1 })
    pub init :
        (w : Scenery S R)
        → P w
        → Ends
            (λ n w'. P w' × ((w'' : Scenery S R) → 2 ^ 31 ≤ n → X (init_returned n) w''))
            (λ e. X (init_failed e))
            (p.guest_init cfg.scene cfg.width cfg.height w)
    pub pages :
        (w : Scenery S R) → P w → Ends (λ _. P) (λ e. X (mem_pages_failed e)) (p.guest_mem_pages w)
    pub frame :
        (i : ℕ) (w : Scenery S R)
        → P w
        → Ends (λ stats w'. D i stats × P w') X (frame_step p cfg.frames i w)
    pub texture :
        (w : Scenery S R)
        → P w
        → Ends (λ _. P) X (outer_or read_back_failed (p.read_back cfg.width cfg.height) w)
    pub saved :
        (pixels : List ℕ) (w : Scenery S R)
        → P w
        → Ends (λ _. P) X (written p png cfg.width cfg.height pixels w)

  module _ (P : Scenery S R → Type 0) (D : ℕ → FrameStats → Type 0)
      (X : E2eError E → Scenery S R → Type 0) (steps : Steps P D X) where
    abbrev FramesEnd : ℕ → ℕ → List FrameStats → Scenery S R → Type 0
    FramesEnd i n frames w = (length frames ≡ n) × AllFrom D i frames × P w

    frames_loop-Ends :
        (left i : ℕ) (w : Scenery S R)
        → P w
        → Ends (FramesEnd i left) X (frames_loop p cfg.frames left i w)
    unfolding frames_loop
    frames_loop-Ends zero i w h = (refl, tt, h)
    frames_loop-Ends (suc left) i w h =
        bind-Ends X (λ stats w'. D i stats × P w') (FramesEnd i (suc left))
          (frame_step p cfg.frames i)
          (λ stats.
            frames_loop p cfg.frames left (i + 1) >>= λ rest w''. (done (stats ∷ rest), w''))
          w (steps.frame i w h)
          λ stats w' d.
            bind-Ends X (FramesEnd (i + 1) left) (FramesEnd i (suc left))
              (frames_loop p cfg.frames left (i + 1)) (λ rest w''. (done (stats ∷ rest), w'')) w'
              (frames_loop-Ends left (i + 1) w' d.1) λ rest w'' r. (ap suc r.0, (d.0, r.1), r.2)

    abbrev PassesEnd : List FrameStats × Option ProcUsage × ℕ → Scenery S R → Type 0
    PassesEnd answer w = (length answer.0 ≡ cfg.frames) × AllFrom D 0 answer.0 × P w

    -- What a pass does behind its start: its frames, and the size of the memory.
    pass-Ends :
        {A : Type 0} (Q : A → Scenery S R → Type 0) (k : List FrameStats → ℕ → Drive S R E A)
        (w : Scenery S R)
        → P w
        → ((frames : List FrameStats) (now : ℕ) (w' : Scenery S R)
            → FramesEnd 0 cfg.frames frames w'
            → Ends Q X (k frames now w'))
        → Ends Q X (
            (frames_loop p cfg.frames cfg.frames 0 >>= λ frames.
            with_context mem_pages_failed p.guest_mem_pages >>= λ now. k frames now)
              w)
    pass-Ends Q k w h rest =
        bind-Ends X (FramesEnd 0 cfg.frames) Q (frames_loop p cfg.frames cfg.frames 0)
          (λ frames. with_context mem_pages_failed p.guest_mem_pages >>= λ now. k frames now) w
          (frames_loop-Ends cfg.frames 0 w h)
          λ frames w' f.
            bind-Ends X (λ _. P) Q (with_context mem_pages_failed p.guest_mem_pages)
              (λ now. k frames now) w'
              (with_context-Ends X (λ _. P) mem_pages_failed p.guest_mem_pages w'
                (steps.pages w' f.2))
              λ now w'' q. rest frames now w'' (f.0, f.1, q)

    passes_loop-Ends :
        (left pages : ℕ) (w : Scenery S R)
        → P w
        → Ends PassesEnd X (passes_loop p cfg.frames left pages w)
    unfolding passes_loop
    passes_loop-Ends zero pages w h =
        pass-Ends PassesEnd
          (λ frames now w'. (done (frames, (p.proc_usage w.outside).0, max_signed pages now), w'))
          (record w { outside = (p.proc_usage w.outside).1 }) (steps.usage w h) λ frames now w' f. f
    passes_loop-Ends (suc left) pages w h =
        pass-Ends PassesEnd (λ frames now. passes_loop p cfg.frames left (max_signed pages now)) w h
          λ frames now w' f. passes_loop-Ends left (max_signed pages now) w' f.2

    module _ (rt : Runtime) (variant : Variant) (adapter : String) (footprint load_time : ℕ) where
      abbrev ReportEnd : E2eReport → Scenery S R → Type 0
      ReportEnd report w = Reports D cfg report

      after_passes-Ends :
          (paths init_time : ℕ) (measured : List FrameStats × Option ProcUsage × ℕ)
          (w : Scenery S R)
          → paths < 2 ^ 31
          → PassesEnd measured w
          → Ends ReportEnd X (
              after_passes p rt variant cfg png adapter footprint load_time paths init_time measured
                w)
      unfolding after_passes after_pixels
      after_passes-Ends paths init_time measured w small m =
          let after = (p.proc_usage w.outside).0 in
          let w₁ : Scenery S R = record w { outside = (p.proc_usage w.outside).1 } in
          bind-Ends X (λ _. P) ReportEnd
            (outer_or read_back_failed (p.read_back cfg.width cfg.height))
            (after_pixels p rt variant cfg png adapter footprint load_time paths init_time measured
              after)
            w₁ (steps.texture w₁ (steps.usage w m.2))
            λ pixels w₂ q.
              bind-Ends X (λ _. P) ReportEnd (written p png cfg.width cfg.height pixels)
                (λ _ w₃. (
                  done (
                      report_of p rt variant cfg png adapter footprint load_time paths init_time
                        measured after pixels (p.phys_footprint w₃.outside).0),
                  record w₃ { outside = (p.phys_footprint w₃.outside).1 },
                ))
                w₂ (steps.saved pixels w₂ q)
                λ _ w₃ _. record { counted = m.0; drawn = m.1; not_negative = small }

      after_init-Ends :
          (paths : ℕ) (w : Scenery S R)
          → P w
          → ((w'' : Scenery S R) → 2 ^ 31 ≤ paths → X (init_returned paths) w'')
          → Ends ReportEnd X (after_init p rt variant cfg png adapter footprint load_time paths w)
      unfolding after_init after_pages
      after_init-Ends paths w h negative =
          let init_time = (p.elapsed w.outside).0 in
          let w₁ : Scenery S R = record w { outside = (p.elapsed w.outside).1 } in
          unless_negative-Ends X ReportEnd (init_returned paths) paths
            (with_context mem_pages_failed p.guest_mem_pages
              >>= after_pages p rt variant cfg png adapter footprint load_time paths init_time)
            w₁ (negative w₁)
            λ small.
              bind-Ends X (λ _. P) ReportEnd (with_context mem_pages_failed p.guest_mem_pages)
                (after_pages p rt variant cfg png adapter footprint load_time paths init_time) w₁
                (with_context-Ends X (λ _. P) mem_pages_failed p.guest_mem_pages w₁
                  (steps.pages w₁ (steps.elapsed w h)))
                λ pages w₂ q.
                  bind-Ends X PassesEnd ReportEnd
                    (passes_loop p cfg.frames (passes_before_last cfg.passes) pages)
                    (after_passes p rt variant cfg png adapter footprint load_time paths init_time)
                    w₂ (passes_loop-Ends (passes_before_last cfg.passes) pages w₂ q)
                    λ measured w₃ m. after_passes-Ends paths init_time measured w₃ small m

      -- A run with a guest ends in a report of which the steps' properties hold, or as they fail.
      pub drive_guest-Ends :
          (w : Scenery S R)
          → P w
          → Ends ReportEnd X (drive_guest p rt variant cfg png adapter footprint load_time w)
      unfolding drive_guest
      drive_guest-Ends w h =
          bind-Ends X (λ n w'. P w' × ((w'' : Scenery S R) → 2 ^ 31 ≤ n → X (init_returned n) w''))
            ReportEnd (with_context init_failed (p.guest_init cfg.scene cfg.width cfg.height))
            (after_init p rt variant cfg png adapter footprint load_time) w
            (with_context-Ends X
              (λ n w'. P w' × ((w'' : Scenery S R) → 2 ^ 31 ≤ n → X (init_returned n) w''))
              init_failed (p.guest_init cfg.scene cfg.width cfg.height) w (steps.init w h))
            λ paths w₁ q. after_init-Ends paths w₁ q.0 q.1
