-- ===== src/Runtimes/Keeps.antt =====
-- The discipline of Runtimes/Trace for the combinators of Runtimes/Action.
use wasm_benchmark.Base.{ℕ, zero, suc, refl, List, ◌∷◌, Bool, true, false, All, ◌≢◌, Option, ◌≡◌}
use wasm_benchmark.Harness.Window.{Window, After}
use wasm_benchmark.Runtimes.Kept.{measuring_calls_keeps, measuring_samples_keeps, bind_keeps}
use wasm_benchmark.Runtimes.Trace.{Kind, Handle, error, Live, Legal, opening, closing, using}
use wasm_benchmark.Runtimes.Action.{
  Action, handle, guarded, unless_error, unless_zero, ◌>>=◌, try_call, with_new, with_filled,
  with_unchecked, measuring_samples, measuring_calls, clocked,
}

-- The action starts with the one list of living objects and ends with the other.
unfoldable pub Moves : {S E A : Type 0} → List Handle → Action S E A → List Handle → Type 0
Moves live m live' = (w : _) → Legal w.log live → Legal (m w).1.log live'

abbrev pub Keeps : {S E A : Type 0} → List Handle → Action S E A → Type 0
Keeps live m = Moves live m live

module _ {S E A : Type 0} (live : List Handle) where
  pub guarded-Keeps :
      (h : Handle) (delete : S → S) (body : Action S E A)
      → Keeps (h ∷ live) body
      → Moves (h ∷ live) (guarded h delete body) live
  unfolding Moves
  guarded-Keeps h delete body k w l = closing h (k w l)

  pub unless_zero-Keeps :
      (e : E) (b : Bool) (body : Action S E A) → Keeps live body → Keeps live (unless_zero e b body)
  unfolding Moves unless_zero
  unless_zero-Keeps e true body k w l = l
  unless_zero-Keeps e false body k w l = k w l

module _ {S E A B : Type 0} (live : List Handle) where
  pub bind-Keeps :
      (m : Action S E A) (f : A → Action S E B)
      → Keeps live m
      → ((a : A) → Keeps live (f a))
      → Keeps live (m >>= f)
  unfolding Moves
  bind-Keeps m f km kf = bind_keeps (λ w. Legal w.log live) m f km kf

module _ {S E A : Type 0} (live : List Handle) where
  pub with_filled-Keeps :
      (kind : Kind) (null : E) (delete : ℕ → S → S) (body : ℕ → Action S E A)
      → ((p : ℕ) → Keeps (handle kind p ∷ live) (body p))
      → (p : ℕ) → Keeps live (with_filled kind null delete body p)
  unfolding Moves with_filled
  with_filled-Keeps kind null delete body k zero w l = l
  with_filled-Keeps kind null delete body k (suc p) w l =
      closing (handle kind (suc p)) (k (suc p) _ (opening (handle kind (suc p)) l))

  pub with_unchecked-Keeps :
      (kind : Kind) (delete : ℕ → S → S) (body : ℕ → Action S E A)
      → ((p : ℕ) → Keeps (handle kind p ∷ live) (body p))
      → (p : ℕ) → p ≢ 0
      → Keeps live (with_unchecked kind delete body p)
  unfolding Moves with_unchecked
  with_unchecked-Keeps kind delete body k zero h w l = absurd (h refl)
  with_unchecked-Keeps kind delete body k (suc p) h w l =
      closing (handle kind (suc p)) (k (suc p) _ (opening (handle kind (suc p)) l))

  pub with_new-Keeps :
      (kind : Kind) (hs : List Handle) (create : S → ℕ × S) (null : E) (delete : ℕ → S → S)
      (body : ℕ → Action S E A)
      → All (λ h. Live h live) hs
      → ((p : ℕ) → Keeps (handle kind p ∷ live) (body p))
      → Keeps live (with_new kind hs create null delete body)
  unfolding Moves with_new with_filled
  with_new-Keeps kind hs create null delete body u k w l =
      with_filled-Keeps kind null delete body k (create w.library).0 _ (using hs u l)

  unless_error-Keeps :
      (fail : ℕ → Action S E A) (body : Action S E A)
      → ((e : ℕ) → Moves (handle error (suc e) ∷ live) (fail (suc e)) live)
      → Keeps live body
      → (e : ℕ) → Keeps live (unless_error e (fail e) body)
  unfolding Moves
  unless_error-Keeps fail body kf kb zero w l = kb w l
  unless_error-Keeps fail body kf kb (suc e) w l = kf e _ (opening (handle error (suc e)) l)

module _ {S E A B : Type 0} (live : List Handle) where
  pub try_call-Keeps :
      (hs : List Handle) (call : S → (ℕ × B) × S) (fail : ℕ → Action S E A)
      (body : B → Action S E A)
      → All (λ h. Live h live) hs
      → ((e : ℕ) → Moves (handle error (suc e) ∷ live) (fail (suc e)) live)
      → ((b : B) → Keeps live (body b))
      → Keeps live (try_call hs call fail body)
  unfolding Moves try_call
  try_call-Keeps hs call fail body u kf kb w l =
      let answer = (call w.library).0 in
      unless_error-Keeps live fail (body answer.1) kf (kb answer.1) answer.0 _ (using hs u l)

module _ {S E A : Type 0} (live : List Handle) where
  unchecked_from :
      (kind : Kind) (hs : List Handle) (fail : ℕ → Action S E A) (delete : ℕ → S → S)
      (body : ℕ → Action S E A)
      → ((e : ℕ) → Moves (handle error (suc e) ∷ live) (fail (suc e)) live)
      → ((p : ℕ) → Keeps (handle kind p ∷ live) (body p))
      → (e p : ℕ) → (e ≡ 0 → p ≢ 0)
      → Keeps live (unless_error e (fail e) (with_unchecked kind delete body p))
  unfolding Moves
  unchecked_from kind hs fail delete body kf kb zero p h w l =
      with_unchecked-Keeps live kind delete body kb p (h refl) w l
  unchecked_from kind hs fail delete body kf kb (suc e) p h w l =
      kf e _ (opening (handle error (suc e)) l)

  -- A call that creates an object whenever it gives no error, and a guard on the object.
  pub try_unchecked-Keeps :
      (kind : Kind) (hs : List Handle) (create : S → (ℕ × ℕ) × S) (fail : ℕ → Action S E A)
      (delete : ℕ → S → S) (body : ℕ → Action S E A)
      → All (λ h. Live h live) hs
      → ((e : ℕ) → Moves (handle error (suc e) ∷ live) (fail (suc e)) live)
      → ((s : S) → (create s).0.0 ≡ 0 → (create s).0.1 ≢ 0)
      → ((p : ℕ) → Keeps (handle kind p ∷ live) (body p))
      → Keeps live (try_call hs create fail (with_unchecked kind delete body))
  unfolding Moves try_call
  try_unchecked-Keeps kind hs create fail delete body u kf creates kb w l =
      unchecked_from kind hs fail delete body kf kb (create w.library).0.0 (create w.library).0.1
        (creates w.library) _ (using hs u l)

-- What a call keeps, its measurement keeps.
module _ {S E : Type 0} (live : List Handle) (clock : S → ℕ × S) (env : Option ℕ) (window : Window)
    (after : After) (call : Action S E (ℕ × ℕ)) (keeps : Keeps live call) where
  pub measuring_calls-Keeps :
      (iters : ℕ) → Keeps live (measuring_calls clock env window after iters call)
  unfolding Moves
  measuring_calls-Keeps =
      measuring_calls_keeps (λ w. Legal w.log live) clock (λ w l. l) env window after call keeps

  pub measuring_samples-Keeps : Keeps live (measuring_samples clock env window after call)
  unfolding Moves
  measuring_samples-Keeps =
      measuring_samples_keeps (λ w. Legal w.log live) clock (λ w l. l) env window after call keeps

-- The end of a measured call: the clock is read.
module _ {S : Type 0} (E : Type 0) (live : List Handle) (clock : S → ℕ × S) where
  pub clocked-Keeps : (v : ℕ) → Keeps live (clocked {E = E} clock v)
  unfolding Moves clocked
  clocked-Keeps v w l = l
