-- ===== src/Femtovg/Bind/Agreement.antt =====
-- `render` of five of the bindings: wasm3, zwasm, wasmz, WAMR and Pulley.
use wasm_benchmark.Base.{
  not, ◌&&◌, ◌||◌, ap, true, false, ◌∙◌, some, none, ltb→lt, take, drop, ℕ, ◌*◌, ◌%◌, ◌^◌, ◌<◌, ◌≡◌,
  refl, arith, List, [], ◌∷◌, Option, map, Bool, leb, ltb, if◌then◌else◌, ◌+◌, length, lt→ltb,
}
use wasm_benchmark.Runtimes.Zwasm.{Val}
use wasm_benchmark.Runtimes.Wasmz.{as_i32, i32_val}
use wasm_benchmark.Runtimes.Wasmz.Values.{as_i32-i32_val}
use wasm_benchmark.Femtovg.Host.Frame.{Renders, render_with-Renders}
use wasm_benchmark.Femtovg.Host.{Host, guest_span, max_zero, get_range, HostState}
use wasm_benchmark.Femtovg.Bind.{render_with}
use wasm_benchmark.Femtovg.Bind.Wasm3
use wasm_benchmark.Femtovg.Bind.Wasmz
use wasm_benchmark.Femtovg.Bind.Zwasm
use wasm_benchmark.Femtovg.Bind.Wamr
use wasm_benchmark.Femtovg.Bind.Pulley

abbrev pub low : ℕ → ℕ
low s = s % 2 ^ 32

-- The values that zwasm and wasmz pass for an argument.
abbrev pub zwasm_value : ℕ → Val
zwasm_value a = record { kind = 0; of = a }

low_again : (s : ℕ) → low (low s) ≡ low s
low_again s = omega arith

low_small : (s : ℕ) → low s < 2 ^ 32
low_small s = omega arith

module _ (mem : List ℕ) {R : Type 0} (host : Host R) where
  abbrev pub render_at : ℕ → ℕ → ℕ → ℕ → Option (Host R)
  render_at a b c d =
      render_with (guest_span mem a (max_zero b * 16)) (guest_span mem c (max_zero d * 4)) host

  render_at_same :
      (f : ℕ → ℕ) (a b c d : ℕ)
      → ((s : ℕ) → f (low s) ≡ low s)
      → render_at (f (low a)) (f (low b)) (f (low c)) (f (low d))
        ≡ render_at (low a) (low b) (low c) (low d)
  render_at_same f a b c d h = rw (h a, h b, h c, h d) refl

  zwasm_render :
      (a b c d : ℕ)
      → Zwasm.render mem (map zwasm_value (low a ∷ (low b ∷ (low c ∷ (low d ∷ []))))) host
        ≡ render_at (low a) (low b) (low c) (low d)
  unfolding Zwasm.render Zwasm.arg
  zwasm_render a b c d = render_at_same low a b c d low_again

  wasmz_render :
      (a b c d : ℕ)
      → Wasmz.render mem (map i32_val (low a ∷ (low b ∷ (low c ∷ (low d ∷ []))))) host
        ≡ render_at (low a) (low b) (low c) (low d)
  unfolding Wasmz.render Wasmz.arg
  wasmz_render a b c d =
      render_at_same (λ s. as_i32 (i32_val s)) a b c d (λ s. as_i32-i32_val (low s) (low_small s))

-- What WAMR documents of its two functions: the first says whether a range lies in the memory, and
-- throws an exception on the instance where it does not; the second gives the bytes of a range that
-- does.
pub record Addresses {I : Type 0} (mem : List ℕ) (thrown : I → Bool)
    (validate : ℕ → ℕ → I → Bool × I) (native : ℕ → ℕ → I → Option (List ℕ)) : Type 0 where
  pub valid : (p n : ℕ) (inst : I) → (validate p n inst).0 ≡ leb (p + n) (length mem)
  pub throws :
      (p n : ℕ) (inst : I)
      → thrown (validate p n inst).1 ≡ (thrown inst || not (leb (p + n) (length mem)))
  pub given :
      (p n : ℕ) (inst : I)
      → leb (p + n) (length mem) ≡ true
      → native p n inst ≡ some (take n (drop p mem))

-- A pointer that is not negative, with a range that ends beyond the memory.
abbrev pub is_beyond : List ℕ → ℕ → ℕ → Bool
is_beyond mem p n = ltb p (2 ^ 31) && not (leb (p + n) (length mem))

max_zero_small : (b : ℕ) → max_zero b < 2 ^ 31
max_zero_small b = ground arith

or_false : (b : Bool) → b ≡ (b || false)
or_false true = refl
or_false false = refl

module _ {I : Type 0} (mem : List ℕ) (thrown : I → Bool) (validate : ℕ → ℕ → I → Bool × I)
    (native : ℕ → ℕ → I → Option (List ℕ)) (addresses : Addresses mem thrown validate native) where
  validated :
      (p n : ℕ) (inst : I) (b : Bool)
      → leb (p + n) (length mem) ≡ b
      → (if b then native p n inst else none) ≡ (if b then some (take n (drop p mem)) else none)
  validated p n inst true e = addresses.given p n inst e
  validated p n inst false e = refl

  -- What WAMR's span is: the checked one, with an exception for a range beyond the memory.
  span-guest_span :
      (p n : ℕ) (inst : I)
      → n < 2 ^ 63
      → ((Wamr.span validate native p n inst).0 ≡ guest_span mem p n)
        × (thrown (Wamr.span validate native p n inst).1 ≡ (thrown inst || is_beyond mem p n))
  unfolding Wamr.span guest_span
  span-guest_span p n inst h = by_sign (ltb p (2 ^ 31)) refl
    where
      by_sign :
          (b : Bool)
          → ltb p (2 ^ 31) ≡ b
          → let answer : Option (List ℕ) × I =
              if b
              then (
                (if (validate p n inst).0 then native p n (validate p n inst).1 else none),
                (validate p n inst).1,
              )
              else (none, inst) in
            (answer.0
              ≡ (if b then (if ltb (p + n) (2 ^ 64) then get_range mem p n else none) else none))
            × (thrown answer.1 ≡ (thrown inst || (b && not (leb (p + n) (length mem)))))
      by_sign true e =
          let fits : ltb (p + n) (2 ^ 64) ≡ true =
            lt→ltb (p + n) (2 ^ 64) (omega (arith, h, ltb→lt p (2 ^ 31) e)) in
          (
            rw (fits, addresses.valid p n inst)
                (validated p n (validate p n inst).1 (leb (p + n) (length mem)) refl),
            addresses.throws p n inst,
          )
      by_sign false e = (refl, or_false (thrown inst))

  -- The host does what it does for the others, and an exception is thrown for either span.
  wamr_render :
      {R : Type 0} (host : Host R) (a b c d : ℕ) (inst : I)
      → let answer = Wamr.render (Wamr.span validate native) a b c d host inst in
        (answer.0 ≡ render_at mem host a b c d)
        × (thrown answer.1 ≡ (
            (thrown inst || is_beyond mem a (max_zero b * 16)) || is_beyond mem c (max_zero d * 4)))
  unfolding Wamr.render
  wamr_render host a b c d inst =
      let small : max_zero b * 16 < 2 ^ 63 = omega (arith, max_zero_small b) in
      let few : max_zero d * 4 < 2 ^ 63 = omega (arith, max_zero_small d) in
      let verts = span-guest_span a (max_zero b * 16) inst small in
      let cmds =
        span-guest_span c (max_zero d * 4) (Wamr.span validate native a (max_zero b * 16) inst).1
          few in
      (
        rw (verts.0, cmds.0) refl,
        cmds.1 ∙ ap (λ (t : Bool). t || is_beyond mem c (max_zero d * 4)) verts.1,
      )

  -- For the same four arguments, which wasm3 finds in the low halves of its slots, `render` of the
  -- five bindings does the same to the host: with both spans in the memory it keeps their bytes, the
  -- words of the commands and the one hash over both lists; with one of them outside it changes
  -- nothing; and it never writes beyond the vertices. WAMR has to answer as its documentation says;
  -- it alone is left with an exception on the instance, which was there before, or when a pointer
  -- that is not negative has a range that ends beyond the memory.
  pub bindings_agree :
      {R : Type 0} (h : HostState R) (a b c d : ℕ) (inst : I)
      → let args : List ℕ = low a ∷ (low b ∷ (low c ∷ (low d ∷ []))) in
        let answer = Wasm3.render mem (a ∷ (b ∷ (c ∷ (d ∷ [])))) (some h) in
        let wamr =
          Wamr.render (Wamr.span validate native) (low a) (low b) (low c) (low d) (some h) inst in
        (Zwasm.render mem (map zwasm_value args) (some h) ≡ answer)
        × (Wasmz.render mem (map i32_val args) (some h) ≡ answer)
        × (wamr.0 ≡ answer)
        × (thrown wamr.1 ≡ (
            (thrown inst || is_beyond mem (low a) (max_zero (low b) * 16))
            || is_beyond mem (low c) (max_zero (low d) * 4)))
        × (Pulley.render (some mem) (low a) (low b) (low c) (low d) (some h) ≡ answer)
        × Renders mem (low a) (low b) (low c) (low d) h answer
  unfolding Wasm3.render Wasm3.arg Pulley.render
  bindings_agree h a b c d inst =
      let wamr = wamr_render (some h) (low a) (low b) (low c) (low d) inst in
      (
        zwasm_render mem (some h) a b c d,
        wasmz_render mem (some h) a b c d,
        wamr.0,
        wamr.1,
        refl,
        render_with-Renders mem (low a) (low b) (low c) (low d) h,
      )
