-- ===== src/Femtovg/Host/Frame.antt =====
-- What the host keeps of a frame.
use wasm_benchmark.Base.{
  le→leb, inl, inr, ◌⊎◌, sym, ◌+◌, leb→le, sym, ℕ, zero, suc, ◌+◌, ◌*◌, ◌/◌, ◌%◌, ◌^◌, ◌<◌, ◌≤◌,
  ◌≡◌, refl, ap, ap₂, ◌∙◌, arith, List, [], ◌∷◌, ◌++◌, Bool, true, false, Option, none, some,
  length, take, drop, get_or, leb, ltb, if◌then◌else◌, length-take, length-drop, inl, inr, ◌⊎◌, All,
}
use wasm_benchmark.Femtovg.Host.{
  HostState, Host, fnv1a, fnv_offset, words, guest_span, get_range, max_zero, host_render,
}
use wasm_benchmark.Femtovg.Bind.{render_with}

-- A hash of one list and then another is the hash of both.
pub fnv1a-append : (xs ys : List ℕ) (h : ℕ) → fnv1a h (xs ++ ys) ≡ fnv1a (fnv1a h xs) ys
unfolding fnv1a
fnv1a-append [] ys h = refl
fnv1a-append (x ∷ xs) ys h = fnv1a-append xs ys _

abbrev pub word_bytes : List ℕ → List ℕ
word_bytes [] = []
word_bytes (w ∷ ws) =
    w % 256 ∷ (w / 256 % 256 ∷ (w / 65536 % 256 ∷ (w / 16777216 % 256 ∷ word_bytes ws)))

word_of_bytes :
    (w : ℕ)
    → w < 2 ^ 32
    → w % 256 + 256 * (w / 256 % 256) + 65536 * (w / 65536 % 256) + 16777216 * (w / 16777216 % 256)
      ≡ w
word_of_bytes w h = omega arith

-- The words of the guest come back from their bytes.
pub words-word_bytes : (ws : List ℕ) → All (λ w. w < 2 ^ 32) ws → words (word_bytes ws) ≡ ws
unfolding words
words-word_bytes [] h = refl
words-word_bytes (w ∷ ws) h = ap₂ (λ x xs. x ∷ xs) (word_of_bytes w h.0) (words-word_bytes ws h.1)

get_or-drop : (xs : List ℕ) (n i : ℕ) → get_or (drop n xs) i 0 ≡ get_or xs (n + i) 0
get_or-drop xs zero i = let e : i ≡ zero + i = omega arith in ap (λ k. get_or xs k 0) e
get_or-drop [] (suc n) i = refl
get_or-drop (x ∷ xs) (suc n) i =
    let e : suc (n + i) ≡ suc n + i = omega arith in
    get_or-drop xs n i ∙ ap (λ k. get_or (x ∷ xs) k 0) e

get_or-take : (xs : List ℕ) (n i : ℕ) → i < n → get_or (take n xs) i 0 ≡ get_or xs i 0
get_or-take xs zero i h = absurd (omega arith)
get_or-take [] (suc n) i h = refl
get_or-take (x ∷ xs) (suc n) zero h = refl
get_or-take (x ∷ xs) (suc n) (suc i) h = get_or-take xs n i (omega arith)

-- The bytes of a range lie in the memory.
pub record InMemory (mem : List ℕ) (ptr len : ℕ) (bytes : List ℕ) : Type 0 where
  pub inside : ptr + len ≤ length mem
  pub full : length bytes ≡ len
  pub same : (i : ℕ) → i < len → get_or bytes i 0 ≡ get_or mem (ptr + i) 0

module _ (mem : List ℕ) (ptr len : ℕ) where
  range-InMemory :
      (bytes : List ℕ) (fits : Bool)
      → leb (ptr + len) (length mem) ≡ fits
      → (if fits then some (take len (drop ptr mem)) else none) ≡ some bytes
      → InMemory mem ptr len bytes
  range-InMemory bytes false e h = absurd (ground arith)
  range-InMemory bytes true e h =
      let inside = leb→le (ptr + len) (length mem) e in
      let bytes_are : take len (drop ptr mem) ≡ bytes =
        ap (λ (o : Option (List ℕ)). elim o [ none ↦ [] | some x ↦ x ]) h in
      record {
        inside = inside;
        full =
            rw (sym bytes_are)
              (omega (arith, inside, length-take len (drop ptr mem), length-drop ptr mem));
        same = λ i hi.
            rw (sym bytes_are) (get_or-take (drop ptr mem) len i hi ∙ get_or-drop mem ptr i);
      }

  -- A span that is given lies in the memory.
  pub guest_span-InMemory :
      (bytes : List ℕ) → guest_span mem ptr len ≡ some bytes → InMemory mem ptr len bytes
  unfolding guest_span
  guest_span-InMemory bytes h = span_from (ltb ptr (2 ^ 31)) (ltb (ptr + len) (2 ^ 64)) h
    where
      span_from :
          (b c : Bool)
          → (if b then (if c then get_range mem ptr len else none) else none) ≡ some bytes
          → InMemory mem ptr len bytes
      span_from true true e = range-InMemory bytes _ refl e
      span_from true false e = absurd (ground arith)
      span_from false c e = absurd (ground arith)

-- What a frame leaves in the host: the bytes of the vertices, the words of the commands, and one
-- hash over both.
pub record Shows {R : Type 0} (h h' : HostState R) (verts commands : List ℕ) : Type 0 where
  pub same_replayer : h'.replayer ≡ h.replayer
  pub copied : h'.verts ≡ verts
  pub decoded : h'.commands ≡ words commands
  pub hashed : h'.hash ≡ fnv1a fnv_offset (verts ++ commands)
  pub shown : h'.rendered ≡ true

module _ {R : Type 0} where
  pub host_render-Shows :
      (verts commands : List ℕ) (n : ℕ) (h : HostState R)
      → length verts ≡ n * 16
      → (h' : HostState R) × (host_render verts commands (some h) ≡ some (some h'))
        × Shows h h' verts commands
  unfolding host_render
  host_render-Shows verts commands n h e =
      let fits : leb (length verts) (length verts / 16 * 16) ≡ true =
        le→leb (length verts) (length verts / 16 * 16) (omega (arith, e)) in
      (
        _,
        rw fits refl,
        record {
          same_replayer = refl;
          copied = refl;
          decoded = refl;
          hashed = sym (fnv1a-append verts commands fnv_offset);
          shown = refl;
        },
      )

  -- What a render of two spans does: with both it shows their bytes, without one it changes
  -- nothing, and it never writes beyond the vertices.
  abbrev pub Renders : List ℕ → ℕ → ℕ → ℕ → ℕ → HostState R → Option (Host R) → Type 0
  Renders mem vp vn cp cn h answer =
      ((h' : HostState R) × (v : List ℕ) × (c : List ℕ) × (answer ≡ some (some h'))
        × InMemory mem vp (max_zero vn * 16) v
        × InMemory mem cp (max_zero cn * 4) c
        × Shows h h' v c)
      ⊎ (((guest_span mem vp (max_zero vn * 16) ≡ none)
            ⊎ (guest_span mem cp (max_zero cn * 4) ≡ none))
          × (answer ≡ some (some h)))

  pub render_with-Renders :
      (mem : List ℕ) (vp vn cp cn : ℕ) (h : HostState R)
      → Renders mem vp vn cp cn h (
          render_with
            (guest_span mem vp (max_zero vn * 16))
            (guest_span mem cp (max_zero cn * 4))
            (some h))
  render_with-Renders mem vp vn cp cn h =
      rendered (guest_span mem vp (max_zero vn * 16)) (guest_span mem cp (max_zero cn * 4)) refl
        refl
    where
      rendered :
          (v c : Option (List ℕ))
          → guest_span mem vp (max_zero vn * 16) ≡ v
          → guest_span mem cp (max_zero cn * 4) ≡ c
          → Renders mem vp vn cp cn h (render_with v c (some h))
      rendered none c e e' = inr (inl e, refl)
      rendered (some v) none e e' = inr (inr e', refl)
      rendered (some v) (some c) e e' =
          let spanned = guest_span-InMemory mem vp (max_zero vn * 16) v e in
          let r = host_render-Shows v c (max_zero vn) h spanned.full in
          inl (r.0, v, c, r.1, spanned, guest_span-InMemory mem cp (max_zero cn * 4) c e', r.2)
