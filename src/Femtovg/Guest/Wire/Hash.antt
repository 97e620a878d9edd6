-- ===== src/Femtovg/Guest/Wire/Hash.antt =====
-- frame_hash of workloads-rs-cargo/femtovg-guest/src/lib.rs, which the native build of the guest
-- takes, and the hash that the host takes of the same frame.
use wasm_benchmark.Base.{
  ℕ, ◌*◌, ◌/◌, ◌%◌, ◌^◌, ◌<◌, ◌≡◌, refl, ap, sym, ◌∙◌, arith, List, [], ◌∷◌, ◌++◌, some, length,
  bit_xor, All, true,
}
use wasm_benchmark.Femtovg.Host.{HostState, fnv1a, fnv_offset, fnv_prime, host_render}
use wasm_benchmark.Femtovg.Host.Frame.{
  word_bytes, words-word_bytes, fnv1a-append, host_render-Shows,
}
use wasm_benchmark.Femtovg.Guest.Wire.{Vertex}

abbrev pub eat : ℕ → ℕ → ℕ
eat h b = bit_xor h b * fnv_prime % 2 ^ 64

-- `f.to_bits().to_le_bytes().into_iter().for_each(&mut eat)`
abbrev pub eat_word : ℕ → ℕ → ℕ
eat_word h w =
    eat (eat (eat (eat h (w % 256)) (w / 256 % 256)) (w / 65536 % 256)) (w / 16777216 % 256)

unfoldable pub eat_words : ℕ → List ℕ → ℕ
eat_words h [] = h
eat_words h (w ∷ ws) = eat_words (eat_word h w) ws

unfoldable pub eat_vertices : ℕ → List Vertex → ℕ
unfolding eat_words
eat_vertices h [] = h
eat_vertices h (p ∷ verts) = eat_vertices (eat_words h (p.x ∷ p.y ∷ p.u ∷ p.v ∷ [])) verts

unfoldable pub frame_hash : List Vertex → List ℕ → ℕ
unfolding eat_words eat_vertices
frame_hash verts commands = eat_words (eat_vertices fnv_offset verts) commands

-- The vertices in memory: sixteen bytes each.
abbrev pub vertex_words : List Vertex → List ℕ
vertex_words [] = []
vertex_words (p ∷ verts) = p.x ∷ p.y ∷ p.u ∷ p.v ∷ vertex_words verts

eat_words-fnv1a : (h : ℕ) (ws : List ℕ) → eat_words h ws ≡ fnv1a h (word_bytes ws)
unfolding eat_words fnv1a
eat_words-fnv1a h [] = refl
eat_words-fnv1a h (w ∷ ws) = eat_words-fnv1a (eat_word h w) ws

eat_vertices-fnv1a :
    (h : ℕ) (verts : List Vertex) → eat_vertices h verts ≡ fnv1a h (word_bytes (vertex_words verts))
unfolding eat_vertices eat_words fnv1a
eat_vertices-fnv1a h [] = refl
eat_vertices-fnv1a h (p ∷ verts) =
    eat_vertices-fnv1a (eat_words h (p.x ∷ p.y ∷ p.u ∷ p.v ∷ [])) verts

length-vertex_bytes :
    (verts : List Vertex) → length (word_bytes (vertex_words verts)) ≡ length verts * 16
length-vertex_bytes [] = refl
length-vertex_bytes (p ∷ verts) = omega (arith, length-vertex_bytes verts)

-- On the bytes of a frame's vertices and of its commands, which are u32s, the host keeps the bytes of
-- the vertices and the commands themselves, and its hash is the guest's.
pub host_render-frame_hash :
    {R : Type 0} (verts : List Vertex) (commands : List ℕ) (h : HostState R)
    → All (λ w. w < 2 ^ 32) commands
    → let bytes = word_bytes (vertex_words verts) in
      (h' : HostState R) × (host_render bytes (word_bytes commands) (some h) ≡ some (some h'))
      × (h'.hash ≡ frame_hash verts commands)
      × (h'.verts ≡ bytes)
      × (h'.commands ≡ commands)
      × (h'.rendered ≡ true)
unfolding frame_hash
host_render-frame_hash verts commands h u =
    let bytes = word_bytes (vertex_words verts) in
    let r =
      host_render-Shows bytes (word_bytes commands) (length verts) h (length-vertex_bytes verts) in
    let guest : frame_hash verts commands ≡ fnv1a fnv_offset (bytes ++ word_bytes commands) =
      eat_words-fnv1a (eat_vertices fnv_offset verts) commands
      ∙ ap (λ x. fnv1a x (word_bytes commands)) (eat_vertices-fnv1a fnv_offset verts)
      ∙ sym (fnv1a-append bytes (word_bytes commands) fnv_offset) in
    (
      r.0,
      r.1,
      r.2.hashed ∙ sym guest,
      r.2.copied,
      r.2.decoded ∙ words-word_bytes commands u,
      r.2.shown,
    )
