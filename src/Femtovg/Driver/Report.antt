-- ===== src/Femtovg/Driver/Report.antt =====
-- What a report of the driver says, on any platform.
use wasm_benchmark.Base.{ℕ, ◌≡◌, refl, Bool, true, false, Option, none, some, if◌then◌else◌}
use wasm_benchmark.Harness.Cases.{Runtime}
use wasm_benchmark.Runtimes.Action.{Result, done, raised}
use wasm_benchmark.Femtovg.Host.{Variant, HostState, Host}
use wasm_benchmark.Femtovg.Driver.{
  E2eConfig, E2eError, did_not_render, gpu_failed, Scenery, Platform, bail, unrendered,
}
use wasm_benchmark.Femtovg.Driver.Run.{
  frame_step, replay_host, replay_held, waited, run_e2e_on_this_thread,
}
use wasm_benchmark.Femtovg.Driver.Ends.{Ends, any-Ends, weaken-Ends, outer_or-Ends, Steps}
use wasm_benchmark.Femtovg.Driver.Frame.{
  Shown, Shown-frame, Held, Drawn, left-Drawn, unrendered_again, Parts, FrameEnd, frame_step-Ends,
}
use wasm_benchmark.Femtovg.Driver.Start.{fresh_thread, RunEnd, run-RunEnd}

module _ {S R B E : Type 0} (p : Platform S R B E) where
  abbrev Anything : Scenery S R → Type 0
  Anything w = Unit

  abbrev Cleared : Scenery S R → Type 0
  Cleared w = unrendered w.host ≡ w.host

  abbrev AnyError : E2eError E → Scenery S R → Type 0
  AnyError e w = Unit

  -- Whatever is submitted and waited for, what is shown is what the host held.
  Held-Ends :
      (count i : ℕ) (h : HostState R) (drawn : Drawn p count i (some h)) (shows : h.rendered ≡ true)
      (answer : Result E (Option B) × R) (w : Scenery S R)
      → Ends (λ shown w'. Held p count i shown × Anything w') AnyError (replay_held p h answer w)
  Held-Ends count i h drawn shows (raised e, r) w = tt
  Held-Ends count i h drawn shows (done none, r) w =
      (record { held = h; drawn = drawn; rendered = shows; hash = refl; verts = refl }, tt)
  Held-Ends count i h drawn shows (done (some buffer), r) w =
      (record { held = h; drawn = drawn; rendered = shows; hash = refl; verts = refl }, tt)

  replay_host-Ends :
      (count i : ℕ) (host : Host R) (w : Scenery S R)
      → Drawn p count i host
      → Ends (λ shown w'. Held p count i shown × Anything w') AnyError (replay_host p i host w)
  replay_host-Ends count i none w drawn = tt
  replay_host-Ends count i (some h) w drawn = by_flag h.rendered refl
    where
      by_flag :
          (b : Bool)
          → h.rendered ≡ b
          → Ends
              (λ shown w'. Held p count i shown × Anything w')
              AnyError
              ((if b
                  then replay_held p h (p.render h.verts h.commands h.replayer)
                  else bail (did_not_render i))
                w)
      by_flag true shows =
          Held-Ends count i h drawn shows (p.render h.verts h.commands h.replayer) w
      by_flag false idle = tt

  any-Parts :
      (count i : ℕ)
      → Parts p Anything Cleared (λ w. Drawn p count i w.host) (Held p count i) AnyError count i
  any-Parts count i = record {
    cleared = λ w h. unrendered_again p count w.host;
    guest = λ w h.
        weaken-Ends (λ _ v. Unit {0} × Drawn p count i v.host) _ (λ _ _. Unit {0}) _
          (p.guest_frame i count w) (λ n w' q. (q.1, λ w'' m. tt)) (λ e w' q. tt)
          (left-Drawn p count (λ _ _. Unit {0}) (λ _ _. Unit {0}) i w _ h refl (any-Ends _));
    drawn = λ w h. h;
    elapsed = λ w h. tt;
    replay = λ w h. replay_host-Ends count i w.host w h;
    wait = λ idx w h. any-Ends (waited p idx w);
  }

  any-Steps :
      (cfg : E2eConfig) (png : Bool) → Steps p cfg png Anything (Shown p cfg.frames) AnyError
  any-Steps cfg png = record {
    elapsed = λ w h. tt;
    usage = λ w h. tt;
    init = λ w h.
        weaken-Ends (λ _ _. Unit {0}) _ (λ _ _. Unit {0}) _
          (p.guest_init cfg.scene cfg.width cfg.height w) (λ n w' q. (tt, λ w'' m. tt))
          (λ e w' q. tt) (any-Ends (p.guest_init cfg.scene cfg.width cfg.height w));
    pages = λ w h. any-Ends (p.guest_mem_pages w);
    frame = λ i w h.
        weaken-Ends
          (FrameEnd p Anything Cleared (λ v. Drawn p cfg.frames i v.host) (Held p cfg.frames i)
            AnyError)
          _ AnyError AnyError (frame_step p cfg.frames i w)
          (λ stats w' d. (Shown-frame p cfg.frames i stats d.0.0 d.0.1 d.0.2, tt)) (λ e w' q. tt)
          (frame_step-Ends p Anything Cleared (λ v. Drawn p cfg.frames i v.host)
            (Held p cfg.frames i) AnyError cfg.frames i w (any-Parts cfg.frames i) tt);
    texture = λ w h. any-Ends _;
    saved = λ pixels w h. any-Ends _;
  }

  -- On any platform: a report holds one entry for each frame of the configuration, and the
  -- one at place i has the hash and the number of vertices of a host state that the guest's call for
  -- frame i left and marked as rendered, from one not so marked; no count of paths or commands is
  -- negative; and after a report or an error no host state is installed.
  pub run_e2e-Reports :
      (rt : Runtime) (variant : Variant) (cfg : E2eConfig) (png : Bool) (s : S)
      → RunEnd p rt variant cfg png
          (Shown p cfg.frames)
          (λ _. Unit)
          (run_e2e_on_this_thread p rt variant cfg png (fresh_thread s))
  run_e2e-Reports rt variant cfg png s =
      run-RunEnd p rt variant cfg png Anything Anything (Shown p cfg.frames) (λ _. Unit) s
        (any-Steps cfg png)
        (record {
          gpu =
              outer_or-Ends (λ e w. Unit {0} × (w.host ≡ none)) (λ _. Anything) gpu_failed
                (p.gpu cfg.width cfg.height) (fresh_thread s)
                (weaken-Ends (λ _ _. Unit {0}) _ (λ _ _. Unit {0}) _ (p.gpu cfg.width cfg.height s)
                  (λ a s' q. tt) (λ e s' q. (tt, refl)) (any-Ends (p.gpu cfg.width cfg.height s)));
          instantiate = λ w h. any-Ends _;
        })
