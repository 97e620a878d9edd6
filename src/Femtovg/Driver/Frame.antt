-- ===== src/Femtovg/Driver/Frame.antt =====
-- One frame of the driver, from what holds of the guest's call and of the replay.
use wasm_benchmark.Base.{ℕ, ◌/◌, ◌^◌, ◌<◌, ◌≤◌, ◌≡◌, true, Option, some, none, refl, length}
use wasm_benchmark.Runtimes.Action.{Result, done, raised}
use wasm_benchmark.Femtovg.Host.{HostState, Host}
use wasm_benchmark.Femtovg.Driver.{
  FrameStats, E2eError, frame_failed, frame_returned, Scenery, Platform, ◌>>=◌, with_context,
  unrendered, clear_rendered,
}
use wasm_benchmark.Femtovg.Driver.Run.{frame_step, after_guest, after_replay, replay_host, waited}
use wasm_benchmark.Femtovg.Driver.Ends.{Ends, bind-Ends, with_context-Ends, unless_negative-Ends}

module _ {S R B E : Type 0} (p : Platform S R B E) (count : ℕ) where
  -- The host state that the guest's call for frame i leaves, from one that is marked as not rendered.
  pub record Drawn (i : ℕ) (host : Host R) : Type 0 where
    pub before : Scenery S R
    pub cleared : unrendered before.host ≡ before.host
    pub left : (p.guest_frame i count before).1.host ≡ host

  -- What the replay of frame i gives: the hash and the vertices of a state that the guest's call
  -- left and marked as rendered.
  pub record Held (i : ℕ) (shown : Option ℕ × ℕ × ℕ) : Type 0 where
    pub held : HostState R
    pub drawn : Drawn i (some held)
    pub rendered : held.rendered ≡ true
    pub hash : shown.2 ≡ held.hash
    pub verts : shown.1 ≡ length held.verts / 16

  -- The same of the entry of frame i.
  pub record Shown (i : ℕ) (stats : FrameStats) : Type 0 where
    pub held : HostState R
    pub drawn : Drawn i (some held)
    pub rendered : held.rendered ≡ true
    pub hash : stats.hash ≡ held.hash
    pub verts : stats.verts ≡ length held.verts / 16
    pub not_negative : stats.commands < 2 ^ 31

  pub Shown-frame :
      (i : ℕ) (stats : FrameStats) (sub : Option ℕ)
      → Held i (sub, stats.verts, stats.hash)
      → stats.commands < 2 ^ 31
      → Shown i stats
  Shown-frame i stats sub h small = record {
    held = h.held;
    drawn = h.drawn;
    rendered = h.rendered;
    hash = h.hash;
    verts = h.verts;
    not_negative = small;
  }

  pub unrendered_again : (host : Host R) → unrendered (unrendered host) ≡ unrendered host
  unrendered_again none = refl
  unrendered_again (some h) = refl

  -- Behind the guest's call, the host state is the one that it left.
  pub left-Drawn :
      {A : Type 0} (Q : A → Scenery S R → Type 0) (X : E → Scenery S R → Type 0) (i : ℕ)
      (w : Scenery S R) (answer : Result E A × Scenery S R)
      → unrendered w.host ≡ w.host
      → (p.guest_frame i count w).1.host ≡ answer.1.host
      → Ends Q X answer
      → Ends (λ a v. Q a v × Drawn i v.host) X answer
  left-Drawn Q X i w (done a, v) c e h = (h, record { before = w; cleared = c; left = e })
  left-Drawn Q X i w (raised x, v) c e h = h

module _ {S R B E : Type 0} (p : Platform S R B E) (P C Q : Scenery S R → Type 0)
    (D : Option ℕ × ℕ × ℕ → Type 0) (X : E2eError E → Scenery S R → Type 0) where
  -- What holds of the parts of a frame: P before and behind it, C once it is
  -- marked as not rendered, Q once the guest has drawn.
  pub record Parts (count i : ℕ) : Type 0 where
    pub cleared : (w : Scenery S R) → P w → C (record w { host = unrendered w.host })
    pub guest :
        (w : Scenery S R)
        → C w
        → Ends
            (λ n w'. Q w' × ((w'' : Scenery S R) → 2 ^ 31 ≤ n → X (frame_returned i n) w''))
            (λ e. X (frame_failed i e))
            (p.guest_frame i count w)
    pub drawn : (w : Scenery S R) → Q w → Q (record w { outside = (p.elapsed w.outside).1 })
    pub elapsed : (w : Scenery S R) → P w → P (record w { outside = (p.elapsed w.outside).1 })
    pub replay :
        (w : Scenery S R) → Q w → Ends (λ shown w'. D shown × P w') X (replay_host p i w.host w)
    pub wait : (idx : Option ℕ) (w : Scenery S R) → P w → Ends (λ _. P) X (waited p idx w)

  abbrev pub FrameEnd : FrameStats → Scenery S R → Type 0
  FrameEnd stats w =
      ((sub : Option ℕ) × D (sub, stats.verts, stats.hash) × (stats.commands < 2 ^ 31)) × P w

  after_replay-Ends :
      (count i n t_guest : ℕ) (w : Scenery S R) (shown : Option ℕ × ℕ × ℕ)
      → Parts count i
      → n < 2 ^ 31
      → D shown
      → P w
      → Ends FrameEnd X (after_replay p n t_guest shown w)
  unfolding after_replay
  after_replay-Ends count i n t_guest w shown parts small d h =
      let w₁ : Scenery S R = record w { outside = (p.elapsed w.outside).1 } in
      bind-Ends X (λ _. P) FrameEnd (waited p shown.0)
        (λ _ w₂. (
          done (record {
            t_guest = t_guest;
            t_encode = (p.elapsed w.outside).0;
            t_gpu = (p.elapsed w₂.outside).0;
            verts = shown.1;
            commands = n;
            hash = shown.2;
          }),
          record w₂ { outside = (p.elapsed w₂.outside).1 },
        ))
        w₁ (parts.wait shown.0 w₁ (parts.elapsed w h))
        λ _ w₂ q. ((shown.0, d, small), parts.elapsed w₂ q)

  pub frame_step-Ends :
      (count i : ℕ) (w : Scenery S R)
      → Parts count i
      → P w
      → Ends FrameEnd X (frame_step p count i w)
  unfolding frame_step after_guest clear_rendered
  frame_step-Ends count i w parts h =
      bind-Ends X (λ n w'. Q w' × ((w'' : Scenery S R) → 2 ^ 31 ≤ n → X (frame_returned i n) w''))
        FrameEnd (with_context (frame_failed i) (p.guest_frame i count)) (after_guest p i)
        (record w { host = unrendered w.host })
        (with_context-Ends X
          (λ n w'. Q w' × ((w'' : Scenery S R) → 2 ^ 31 ≤ n → X (frame_returned i n) w''))
          (frame_failed i) (p.guest_frame i count) (record w { host = unrendered w.host })
          (parts.guest (record w { host = unrendered w.host }) (parts.cleared w h)))
        λ n w₁ q.
          let t_guest = (p.elapsed w₁.outside).0 in
          let w₂ : Scenery S R = record w₁ { outside = (p.elapsed w₁.outside).1 } in
          unless_negative-Ends X FrameEnd (frame_returned i n) n
            ((λ v. replay_host p i v.host v) >>= after_replay p n t_guest) w₂ (q.1 w₂)
            λ small.
              bind-Ends X (λ shown w'. D shown × P w') FrameEnd (λ v. replay_host p i v.host v)
                (after_replay p n t_guest) w₂ (parts.replay w₂ (parts.drawn w₁ q.0))
                λ shown w₃ d. after_replay-Ends count i n t_guest w₃ shown parts small d.0 d.1
