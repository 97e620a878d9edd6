-- ===== src/Femtovg/Bind/Traps.antt =====
-- The bindings of WasmEdge and tinywasm, at the edges of the memory too.
use wasm_benchmark.Base.{
  ℕ, ◌+◌, ◌^◌, ◌<◌, ◌≤◌, ◌≡◌, ◌⊎◌, inl, inr, refl, arith, List, [], Bool, true, false, Option, none,
  some, length, leb, ltb, ◌==◌, if◌then◌else◌, ap, le→leb, lt→ltb, ==_iff, ◌-◌, ◌*◌, take, ◌∷◌,
  drop, length-take, length-drop,
}
use wasm_benchmark.Femtovg.Host.{guest_span, get_range, HostState, max_zero, host_render, Host}
use wasm_benchmark.Femtovg.Bind.Pulley
use wasm_benchmark.Femtovg.Bind.Wasmedge
use wasm_benchmark.Femtovg.Bind.Tinywasm
use wasm_benchmark.Femtovg.Bind.Tinywasm.{ok, saturating_mul, render_read}

-- A copy of bytes that are no whole number of vertices does not fit.
copy_over :
    {R : Type 0} (verts commands : List ℕ) (h : HostState R)
    → length verts ≡ 2 ^ 31 - 1
    → host_render verts commands (some h) ≡ none
unfolding host_render
copy_over verts commands h e = rw e refl

module _ (mem : List ℕ) where
  -- What WasmEdge and tinywasm document: a range of the memory is its bytes, and any other is none.
  abbrev pub Reads : (ℕ → ℕ → Option (List ℕ)) → Type 0
  Reads f = (p n : ℕ) → f p n ≡ get_range mem p n

  -- WasmEdge's span is the checked one, unless it is empty and starts beyond the memory.
  wasmedge_span :
      (pointer : ℕ → ℕ → Option (List ℕ)) (p n : ℕ)
      → Reads pointer
      → (0 < n) ⊎ (p ≤ length mem)
      → n < 2 ^ 63
      → Wasmedge.span true pointer p n ≡ guest_span mem p n
  unfolding Wasmedge.span guest_span
  wasmedge_span pointer p n reads inside small = by_sign (ltb p (2 ^ 31)) refl
    where
      by_size : (b : Bool) → (n == 0) ≡ b → (if b then some [] else pointer p n) ≡ get_range mem p n
      by_size false e = reads p n
      by_size true e =
          let empty : n ≡ 0 = (==_iff n 0).0 e in
          let here : p ≤ length mem = elim inside [ inl pos ↦ absurd (omega arith) | inr h ↦ h ] in
          let fits : leb (p + n) (length mem) ≡ true = le→leb (p + n) (length mem) (omega arith) in
          rw (fits, empty) refl

      by_sign :
          (b : Bool)
          → ltb p (2 ^ 31) ≡ b
          → (if b then (if n == 0 then some [] else pointer p n) else none)
            ≡ (if b then (if ltb (p + n) (2 ^ 64) then get_range mem p n else none) else none)
      by_sign true e =
          let fits : ltb (p + n) (2 ^ 64) ≡ true = lt→ltb (p + n) (2 ^ 64) (ground arith) in
          rw fits (by_size (n == 0) refl)
      by_sign false e = refl

  max_zero_small : (b : ℕ) → max_zero b < 2 ^ 31
  max_zero_small b = ground arith

  -- What makes the two agree on a span: it is not empty, or starts in the memory.
  abbrev pub Starts : ℕ → ℕ → Type 0
  Starts p n = (0 < n) ⊎ (p ≤ length mem)

  -- For a WasmEdge that answers as documented its binding renders what Pulley's does, where each
  -- span is not empty or starts in the memory.
  pub wasmedge_render-pulley :
      {R : Type 0} (pointer : ℕ → ℕ → Option (List ℕ)) (host : Host R) (vp vn cp cn : ℕ)
      → Reads pointer
      → Starts vp (max_zero vn * 16)
      → Starts cp (max_zero cn * 4)
      → Wasmedge.render (Wasmedge.span true pointer) (vp ∷ vn ∷ cp ∷ cn ∷ []) host
        ≡ Pulley.render (some mem) vp vn cp cn host
  unfolding Wasmedge.render Wasmedge.args Pulley.render
  wasmedge_render-pulley pointer host vp vn cp cn reads v c =
      rw
        (
          wasmedge_span pointer vp (max_zero vn * 16) reads v (omega (arith, max_zero_small vn)),
          wasmedge_span pointer cp (max_zero cn * 4) reads c (omega (arith, max_zero_small cn)),
        )
        refl

  -- tinywasm's read is the checked span, for a pointer and a length that are not negative.
  tinywasm_read :
      (read_vec : ℕ → ℕ → Option (List ℕ)) (p n : ℕ)
      → Reads read_vec
      → p < 2 ^ 31
      → n < 2 ^ 31
      → Tinywasm.read read_vec p n ≡ guest_span mem p n
  unfolding Tinywasm.read guest_span
  tinywasm_read read_vec p n reads hp hn =
      let pos : ltb n (2 ^ 31) ≡ true = lt→ltb n (2 ^ 31) hn in
      let start : ltb p (2 ^ 31) ≡ true = lt→ltb p (2 ^ 31) hp in
      let fits : ltb (p + n) (2 ^ 64) ≡ true = lt→ltb (p + n) (2 ^ 64) (omega arith) in
      rw (pos, start, fits) (reads p n)

  -- For a tinywasm that reads as documented, pointers that are not negative, fewer than 2 ^ 27 vertices
  -- and fewer than 2 ^ 29 commands, its binding renders the spans that `guest_span` checks; where one
  -- is not in the memory its call is an error.
  pub tinywasm_render-spans :
      {R : Type 0} (read_vec : ℕ → ℕ → Option (List ℕ)) (host : Host R) (vp vn cp cn : ℕ)
      → Reads read_vec
      → vp < 2 ^ 31
      → cp < 2 ^ 31
      → vn < 2 ^ 27
      → cn < 2 ^ 29
      → Tinywasm.render (Tinywasm.read read_vec) vp vn cp cn host
        ≡ render_read (guest_span mem vp (vn * 16)) (guest_span mem cp (cn * 4)) host
  unfolding Tinywasm.render
  tinywasm_render-spans read_vec host vp vn cp cn reads hv hc sv sc =
      let v : saturating_mul vn 16 ≡ vn * 16 = ground arith in
      let c : saturating_mul cn 4 ≡ cn * 4 = ground arith in
      rw
        (
          v,
          c,
          tinywasm_read read_vec vp (vn * 16) reads hv (omega arith),
          tinywasm_read read_vec cp (cn * 4) reads hc (omega arith),
        )
        refl

  -- With 2 ^ 27 vertices or more the length stops at 2 ^ 31 - 1, which is no number of vertices: in a
  -- memory that holds so many bytes the host's copy runs over the end of its buffer.
  pub tinywasm_render-overflows :
      {R : Type 0} (read_vec : ℕ → ℕ → Option (List ℕ)) (h : HostState R) (vp vn cp cn : ℕ)
      → Reads read_vec
      → vp < 2 ^ 31
      → cp < 2 ^ 31
      → 2 ^ 27 ≤ vn
      → vn < 2 ^ 31
      → cn < 2 ^ 29
      → vp + (2 ^ 31 - 1) ≤ length mem
      → cp + cn * 4 ≤ length mem
      → Tinywasm.render (Tinywasm.read read_vec) vp vn cp cn (some h) ≡ ok none
  unfolding Tinywasm.render Tinywasm.read
  tinywasm_render-overflows read_vec h vp vn cp cn reads hv hc many pos sc inside cinside =
      let v : saturating_mul vn 16 ≡ 2 ^ 31 - 1 = ground arith in
      let c : saturating_mul cn 4 ≡ cn * 4 = ground arith in
      let vfits : leb (vp + (2 ^ 31 - 1)) (length mem) ≡ true = le→leb _ _ inside in
      let cfits : leb (cp + cn * 4) (length mem) ≡ true = le→leb _ _ cinside in
      let csmall : ltb (cn * 4) (2 ^ 31) ≡ true = lt→ltb _ _ (omega arith) in
      rw (v, c, csmall, reads vp (2 ^ 31 - 1), reads cp (cn * 4), vfits, cfits)
        (ap ok (
          copy_over (take (2 ^ 31 - 1) (drop vp mem)) (take (cn * 4) (drop cp mem)) h
            (omega (arith, length-take (2 ^ 31 - 1) (drop vp mem), length-drop vp mem))))
