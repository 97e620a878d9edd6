-- ===== src/Femtovg/Driver/Works.antt =====
-- A platform on which the calls work, with a guest that renders every frame, or none.
use wasm_benchmark.Base.{
  ℕ, ◌^◌, ◌<◌, ◌≡◌, refl, arith, sym, ◌∙◌, List, Bool, true, false, Option, none, some,
  if◌then◌else◌, ap,
}
use mathlib.Core.Path.{subst}
use wasm_benchmark.Harness.Cases.{Runtime}
use wasm_benchmark.Runtimes.Action.{Result, done, raised}
use wasm_benchmark.Femtovg.Host.{Variant, HostState}
use wasm_benchmark.Femtovg.Driver.{
  E2eConfig, FrameStats, E2eError, did_not_render, gpu_failed, read_back_failed, png_failed,
  poll_failed, Scenery, Platform, bail, unrendered, checked,
}
use wasm_benchmark.Femtovg.Driver.Run.{
  frame_step, replay_host, replay_held, waited, written, run_e2e_on_this_thread,
}
use wasm_benchmark.Femtovg.Driver.Ends.{Ends, weaken-Ends, outer_or-Ends, Steps}
use wasm_benchmark.Femtovg.Driver.Frame.{
  Shown, Shown-frame, Held, Drawn, left-Drawn, unrendered_again, Parts, FrameEnd, frame_step-Ends,
}
use wasm_benchmark.Femtovg.Driver.Start.{fresh_thread, Starts, RunEnd, run-RunEnd}

module _ {S R : Type 0} where
  -- The host state is installed, and the rest of the world is as it should be.
  abbrev pub On : (S → Type 0) → Scenery S R → Type 0
  On Live w = (h : HostState R) × (w.host ≡ some h) × Live w.outside

  -- And the guest's last frame was rendered, or was not.
  abbrev pub Drew : (S → Type 0) → Bool → Scenery S R → Type 0
  Drew Live b w = (h : HostState R) × (w.host ≡ some h) × (h.rendered ≡ b) × Live w.outside

module _ {S R B E : Type 0} where
  -- What a working platform does in the states of which Live holds: no call fails, and a frame of
  -- the guest renders (or, if `draws` is false, leaves the host as it was told to be).
  pub record Works (p : Platform S R B E) (rt : Runtime) (variant : Variant) (cfg : E2eConfig)
      (Live : S → Type 0) (draws : Bool) : Type 0 where
    pub gpu : (s : S) → Live s → Ends (λ _. Live) (λ _ _. ⊥) (p.gpu cfg.width cfg.height s)
    pub new_replayer : (s : S) → Live s → Live (p.new_replayer s).1
    pub elapsed : (s : S) → Live s → Live (p.elapsed s).1
    pub phys_footprint : (s : S) → Live s → Live (p.phys_footprint s).1
    pub proc_usage : (s : S) → Live s → Live (p.proc_usage s).1
    pub submit : (b : B) (s : S) → Live s → Live (p.submit b s).1
    pub poll : (idx : ℕ) (s : S) → Live s → ((p.poll idx s).0 ≡ none) × Live (p.poll idx s).1
    pub read_back :
        (s : S) → Live s → Ends (λ _. Live) (λ _ _. ⊥) (p.read_back cfg.width cfg.height s)
    pub write_png :
        (pixels : List ℕ) (s : S)
        → Live s
        → ((p.write_png cfg.width cfg.height pixels s).0 ≡ none)
          × Live (p.write_png cfg.width cfg.height pixels s).1
    pub render : (v c : List ℕ) (r : R) → Ends (λ _ _. Unit) (λ _ _. ⊥) (p.render v c r)
    pub instantiate :
        (w : Scenery S R) → On Live w → Ends (λ _. On Live) (λ _ _. ⊥) (p.instantiate rt variant w)
    pub guest_init :
        (w : Scenery S R)
        → On Live w
        → Ends
            (λ n w'. On Live w' × (n < 2 ^ 31))
            (λ _ _. ⊥)
            (p.guest_init cfg.scene cfg.width cfg.height w)
    pub guest_mem_pages :
        (w : Scenery S R) → On Live w → Ends (λ _. On Live) (λ _ _. ⊥) (p.guest_mem_pages w)
    pub guest_frame :
        (i : ℕ) (w : Scenery S R)
        → Drew Live false w
        → Ends (λ n w'. Drew Live draws w' × (n < 2 ^ 31)) (λ _ _. ⊥) (p.guest_frame i cfg.frames w)

-- How a run fails: in a frame that the guest did not render.
abbrev pub Fails : {E : Type 0} → Bool → E2eError E → Type 0
Fails draws e = (i : ℕ) × (draws ≡ false) × (e ≡ did_not_render i)

abbrev pub ShownIf : {S R B E : Type 0} → Platform S R B E → ℕ → Bool → ℕ → FrameStats → Type 0
ShownIf p count draws i stats = (draws ≡ true) × Shown p count i stats

abbrev HeldIf : {S R B E : Type 0} → Platform S R B E → ℕ → Bool → ℕ → Option ℕ × ℕ × ℕ → Type 0
HeldIf p count draws i shown = (draws ≡ true) × Held p count i shown

module _ {S R B E : Type 0} (p : Platform S R B E) (rt : Runtime) (variant : Variant)
    (cfg : E2eConfig) (Live : S → Type 0) (draws : Bool)
    (works : Works p rt variant cfg Live draws) where
  abbrev FailsAt : E2eError E → Scenery S R → Type 0
  FailsAt e _ = Fails draws e

  held-Works :
      (i : ℕ) (h : HostState R) (w : Scenery S R)
      → Drawn p cfg.frames i (some h)
      → h.rendered ≡ true
      → draws ≡ true
      → Live w.outside
      → (answer : Result E (Option B) × R) → Ends (λ _ _. Unit) (λ _ _. ⊥) answer
      → Ends
          (λ shown w'. HeldIf p cfg.frames draws i shown × On Live w')
          FailsAt
          (replay_held p h answer w)
  held-Works i h w drawn shows d live (raised e, r) bad = absurd bad
  held-Works i h w drawn shows d live (done none, r) good = (
    (d, record { held = h; drawn = drawn; rendered = shows; hash = refl; verts = refl }),
    (_, refl, live),
  )
  held-Works i h w drawn shows d live (done (some buffer), r) good = (
    (d, record { held = h; drawn = drawn; rendered = shows; hash = refl; verts = refl }),
    (_, refl, works.submit buffer w.outside live),
  )

  replay-Works :
      (i : ℕ) (w : Scenery S R)
      → Drew Live draws w × Drawn p cfg.frames i w.host
      → Ends
          (λ shown w'. HeldIf p cfg.frames draws i shown × On Live w')
          FailsAt
          (replay_host p i w.host w)
  replay-Works i w ((h, is_held, flag, live), drawn) =
      subst
        (λ host.
          Ends (λ shown w'. HeldIf p cfg.frames draws i shown × On Live w') FailsAt
            (replay_host p i host w))
        (sym is_held) (by_flag h.rendered refl)
    where
      by_flag :
          (b : Bool)
          → h.rendered ≡ b
          → Ends
              (λ shown w'. HeldIf p cfg.frames draws i shown × On Live w')
              FailsAt
              ((if b
                  then replay_held p h (p.render h.verts h.commands h.replayer)
                  else bail (did_not_render i))
                w)
      by_flag true shows =
          held-Works i h w (subst (Drawn p cfg.frames i) is_held drawn) shows (sym flag ∙ shows)
            live (p.render h.verts h.commands h.replayer)
            (works.render h.verts h.commands h.replayer)
      by_flag false idle = (i, sym flag ∙ idle, refl)

  -- A check that finds no error.
  checked-Works :
      (wrap : E → E2eError E) (f : S → Option E × S) (w : Scenery S R)
      → On Live w
      → ((f w.outside).0 ≡ none) × Live (f w.outside).1
      → Ends (λ _. On Live) FailsAt (checked wrap f w)
  checked-Works wrap f w o (e, live) = rw e (o.0, o.1, live)

  waited-Works :
      (idx : Option ℕ) (w : Scenery S R) → On Live w → Ends (λ _. On Live) FailsAt (waited p idx w)
  waited-Works none w o = o
  waited-Works (some idx) w o =
      checked-Works poll_failed (p.poll idx) w o (works.poll idx w.outside o.2)

  saved-Works :
      (b : Bool) (pixels : List ℕ) (w : Scenery S R)
      → On Live w
      → Ends (λ _. On Live) FailsAt (written p b cfg.width cfg.height pixels w)
  saved-Works false pixels w o = o
  saved-Works true pixels w o =
      checked-Works png_failed (p.write_png cfg.width cfg.height pixels) w o
        (works.write_png pixels w.outside o.2)

  abbrev Cleared : Scenery S R → Type 0
  Cleared w = Drew Live false w × (unrendered w.host ≡ w.host)

  abbrev Left : ℕ → Scenery S R → Type 0
  Left i w = Drew Live draws w × Drawn p cfg.frames i w.host

  frame-Parts :
      (i : ℕ)
      → Parts p (On Live) Cleared (Left i) (HeldIf p cfg.frames draws i) FailsAt cfg.frames i
  frame-Parts i = record {
    cleared = λ w o. (
      (record o.0 { rendered = false }, ap unrendered o.1, refl, o.2),
      unrendered_again p cfg.frames w.host,
    );
    guest = λ w o.
        weaken-Ends (λ n w'. (Drew Live draws w' × (n < 2 ^ 31)) × Drawn p cfg.frames i w'.host) _
          (λ _ _. ⊥) _ (p.guest_frame i cfg.frames w)
          (λ n w' q. ((q.0.0, q.1), λ w'' neg. absurd (omega (arith, q.0.1, neg))))
          (λ e w' bad. absurd bad)
          (left-Drawn p cfg.frames (λ n w'. Drew Live draws w' × (n < 2 ^ 31)) (λ _ _. ⊥) i w _ o.1
            refl (works.guest_frame i w o.0));
    drawn = λ w o. ((o.0.0, o.0.1, o.0.2, works.elapsed w.outside o.0.3), o.1);
    elapsed = λ w o. (o.0, o.1, works.elapsed w.outside o.2);
    replay = replay-Works i;
    wait = waited-Works;
  }

  all-Steps : (png : Bool) → Steps p cfg png (On Live) (ShownIf p cfg.frames draws) FailsAt
  all-Steps png = record {
    elapsed = λ w o. (o.0, o.1, works.elapsed w.outside o.2);
    usage = λ w o. (o.0, o.1, works.proc_usage w.outside o.2);
    init = λ w o.
        weaken-Ends (λ n w'. On Live w' × (n < 2 ^ 31)) _ (λ _ _. ⊥) _
          (p.guest_init cfg.scene cfg.width cfg.height w)
          (λ n w' q. (q.0, λ w'' neg. absurd (omega (arith, q.1, neg)))) (λ e w' bad. absurd bad)
          (works.guest_init w o);
    pages = λ w o.
        weaken-Ends (λ _. On Live) (λ _. On Live) (λ _ _. ⊥) _ (p.guest_mem_pages w) (λ n w' q. q)
          (λ e w' bad. absurd bad) (works.guest_mem_pages w o);
    frame = λ i w o.
        weaken-Ends (FrameEnd p (On Live) Cleared (Left i) (HeldIf p cfg.frames draws i) FailsAt) _
          FailsAt FailsAt (frame_step p cfg.frames i w)
          (λ stats w' d. ((d.0.1.0, Shown-frame p cfg.frames i stats d.0.0 d.0.1.1 d.0.2), d.1))
          (λ e w' q. q)
          (frame_step-Ends p (On Live) Cleared (Left i) (HeldIf p cfg.frames draws i) FailsAt
            cfg.frames i w (frame-Parts i) o);
    texture = λ w o.
        outer_or-Ends FailsAt (λ _. On Live) read_back_failed (p.read_back cfg.width cfg.height) w
          (weaken-Ends (λ _. Live) _ (λ _ _. ⊥) _ (p.read_back cfg.width cfg.height w.outside)
            (λ pixels s live. (o.0, o.1, live)) (λ e s bad. absurd bad)
            (works.read_back w.outside o.2));
    saved = λ pixels w o. saved-Works png pixels w o;
  }

  works-Starts :
      (png : Bool) (s : S)
      → Live s
      → Starts p rt variant cfg png (λ w. Live w.outside) (On Live) (Fails draws) s
  works-Starts png s live = record {
    gpu =
        outer_or-Ends (λ e w. Fails draws e × (w.host ≡ none)) (λ _ w. Live w.outside) gpu_failed
          (p.gpu cfg.width cfg.height) (fresh_thread s)
          (weaken-Ends (λ _. Live) _ (λ _ _. ⊥) _ (p.gpu cfg.width cfg.height s) (λ a s' q. q)
            (λ e s' bad. absurd bad) (works.gpu s live));
    instantiate = λ w live'.
        weaken-Ends (λ _. On Live) (λ _. On Live) (λ _ _. ⊥) _ (p.instantiate rt variant _)
          (λ a w' q. q) (λ e w' bad. absurd bad)
          (works.instantiate _ (
            _,
            refl,
            works.phys_footprint (p.new_replayer w.outside).1 (works.new_replayer w.outside live'),
          ));
  }

  pub run_e2e-Works :
      (png : Bool) (s : S)
      → Live s
      → RunEnd p rt variant cfg png
          (ShownIf p cfg.frames draws)
          (Fails draws)
          (run_e2e_on_this_thread p rt variant cfg png (fresh_thread s))
  run_e2e-Works png s live =
      run-RunEnd p rt variant cfg png (λ w. Live w.outside) (On Live) (ShownIf p cfg.frames draws)
        (Fails draws) s (all-Steps png) (works-Starts png s live)
