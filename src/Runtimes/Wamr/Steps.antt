-- ===== src/Runtimes/Wamr/Steps.antt =====
-- The steps that the WAMR adapter is made of, and what they keep.
use wasm_benchmark.Base.{ℕ, zero, suc, List, [], ◌∷◌, ◌++◌, Option, none, some, All}
use wasm_benchmark.Harness.Measure.{Failure, init_warmup, steady_warmup, timed, rounds_for}
use wasm_benchmark.Runtimes.Trace.{Kind, Handle, Live, Legal, opening, using}
use wasm_benchmark.Runtimes.Action.{◌>>◌, Result, done, raised, World, Action, handle, owned, pure}
use wasm_benchmark.Runtimes.Keeps.{Keeps, Moves, bind-Keeps}
use wasm_benchmark.Runtimes.Wamr.{on_null, try_new, in_context, timed_calls, sized, measured_part}

-- From the one list of living objects the action ends with a list that suits its result.
unfoldable pub Ends :
    {S E A : Type 0} → List Handle → Action S E A → (Result E A → List Handle → Type 0) → Type 0
Ends live m Q =
    (w : _) → Legal w.log live → (left : List Handle) × Legal (m w).1.log left × Q (m w).0 left

module _ {S E A B : Type 0} (live : List Handle) (kind : Kind) (hs : List Handle)
    (create : S → (ℕ × B) × S) (fail : B → Action S E A) (body : ℕ → Action S E A)
    (alive : All (λ h. Live h live) hs) where
  created-Ends :
      (Q : Result E A → List Handle → Type 0) (p : ℕ) (b : B) (w : World S)
      → ((b : B) → Ends live (fail b) Q)
      → ((p : ℕ) → Ends (handle kind p ∷ live) (body p) Q)
      → Legal w.log live
      → let end = (owned kind p >> on_null p (fail b) (body p)) w in
        (left : List Handle) × Legal end.1.log left × Q end.0 left
  unfolding Ends
  created-Ends Q zero b w kf kb l = kf b w l
  created-Ends Q (suc p) b w kf kb l = kb (suc p) _ (opening _ l)

  pub try_new-Ends :
      (Q : Result E A → List Handle → Type 0)
      → ((b : B) → Ends live (fail b) Q)
      → ((p : ℕ) → Ends (handle kind p ∷ live) (body p) Q)
      → Ends live (try_new kind hs create fail body) Q
  unfolding Ends try_new
  try_new-Ends Q kf kb w l =
      created-Ends Q (create w.library).0.0 (create w.library).0.1 _ kf kb (using hs alive l)

  created-Moves :
      (p : ℕ) (w : World S) (b : B) (end : List Handle)
      → ((b : B) → Moves live (fail b) end)
      → ((p : ℕ) → Moves (handle kind p ∷ live) (body p) end)
      → Legal w.log live
      → Legal ((owned kind p >> on_null p (fail b) (body p)) w).1.log end
  unfolding Moves
  created-Moves zero w b end kf kb l = kf b w l
  created-Moves (suc p) w b end kf kb l = kb (suc p) _ (opening _ l)

  pub try_new-Moves :
      (end : List Handle)
      → ((b : B) → Moves live (fail b) end)
      → ((p : ℕ) → Moves (handle kind p ∷ live) (body p) end)
      → Moves live (try_new kind hs create fail body) end
  unfolding Moves try_new
  try_new-Moves end kf kb w l =
      created-Moves (create w.library).0.0 _ (create w.library).0.1 end kf kb (using hs alive l)

module _ {S E A : Type 0} (live : List Handle) (context : E → Failure E) (call : Action S E A) where
  in_context-Keeps : Keeps live call → Keeps live (λ w. in_context context (call w))
  unfolding Moves
  in_context-Keeps k w l = from (call w).0 (call w).1 (k w l)
    where
      from :
          (r : Result E A) (v : World S)
          → Legal v.log live
          → Legal (in_context context (r, v)).1.log live
      from (done a) v h = h
      from (raised e) v h = h

module _ {S E : Type 0} (live : List Handle) (call : Action S E (ℕ × ℕ))
    (keeps : Keeps live call) where
  timed_calls-Keeps :
      (left result : ℕ) (samples : List ℕ) → Keeps live (timed_calls call left result samples)
  unfolding timed_calls Moves
  timed_calls-Keeps zero result samples w l = l
  timed_calls-Keeps (suc left) result samples w l =
      bind-Keeps live (λ v. in_context timed (call v))
        (λ r. timed_calls call left r.1 (samples ++ r.0 ∷ []))
        (in_context-Keeps live timed call keeps)
        (λ r. timed_calls-Keeps left r.1 (samples ++ r.0 ∷ [])) w l

  sized-Keeps : (n : Option ℕ) (result : ℕ) → Keeps live (sized call n result)
  unfolding Moves
  sized-Keeps none result w l = l
  sized-Keeps (some n) result w l =
      bind-Keeps live (timed_calls call n result []) (λ r. pure (n, r.0, r.1))
        (timed_calls-Keeps n result []) (λ r v h. h) w l

  pub measured_part-Keeps : (env : Option ℕ) (iters : ℕ) → Keeps live (measured_part call env iters)
  unfolding measured_part
  measured_part-Keeps env iters =
      bind-Keeps live _ _ (in_context-Keeps live init_warmup call keeps) λ _.
        bind-Keeps live _ _ (in_context-Keeps live steady_warmup call keeps)
          λ warm. sized-Keeps (rounds_for env iters warm.0) warm.1
