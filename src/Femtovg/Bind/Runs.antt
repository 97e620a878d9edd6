-- ===== src/Femtovg/Bind/Runs.antt =====
-- A memory of twenty bytes: one vertex, and one command behind it.
use wasm_benchmark.Base.{
  not, ◌||◌, ℕ, ◌+◌, ◌≡◌, refl, List, [], ◌∷◌, ◌++◌, Bool, false, Option, true, inl, arith, some,
  leb, map, take, drop, replicate, ◌*◌,
}
use wasm_benchmark.Runtimes.Wasmz.{i32_val}
use wasm_benchmark.Femtovg.Host.{HostState}
use wasm_benchmark.Femtovg.Host.Frame.{Renders}
use wasm_benchmark.Femtovg.Bind.Wasm3
use wasm_benchmark.Femtovg.Bind.Wasmz
use wasm_benchmark.Femtovg.Bind.Zwasm
use wasm_benchmark.Femtovg.Bind.Wamr
use wasm_benchmark.Femtovg.Bind.Pulley
use wasm_benchmark.Femtovg.Bind.Wasmedge
use wasm_benchmark.Femtovg.Bind.Tinywasm
use wasm_benchmark.Femtovg.Bind.Tinywasm.{render_read}
use wasm_benchmark.Femtovg.Host.{guest_span, get_range, max_zero}
use wasm_benchmark.Femtovg.Bind.Traps.{wasmedge_render-pulley, tinywasm_render-spans}
use wasm_benchmark.Femtovg.Bind.Agreement.{low, zwasm_value, Addresses, is_beyond, bindings_agree}

abbrev demo_memory : List ℕ
demo_memory = replicate 16 3 ++ 7 ∷ (0 ∷ (0 ∷ (1 ∷ [])))

-- The instance is whether it has an exception.
abbrev validate : ℕ → ℕ → Bool → Bool × Bool
validate p n thrown = (leb (p + n) 20, thrown || not (leb (p + n) 20))

abbrev native : ℕ → ℕ → Bool → Option (List ℕ)
native p n thrown = some (take n (drop p demo_memory))

demo_memory-Addresses : Addresses demo_memory (λ thrown. thrown) validate native
demo_memory-Addresses = record {
  valid = λ p n inst. refl;
  throws = λ p n inst. refl;
  given = λ p n inst h. refl;
}

abbrev idle : HostState ℕ
idle = record { replayer = 0; verts = []; commands = []; hash = 0; rendered = false }

bindings_agree_example :
    let args : List ℕ = low 0 ∷ (low 1 ∷ (low 16 ∷ (low 4294967297 ∷ []))) in
    let answer = Wasm3.render demo_memory (0 ∷ (1 ∷ (16 ∷ (4294967297 ∷ [])))) (some idle) in
    let wamr =
      Wamr.render
        (Wamr.span validate native)
        (low 0)
        (low 1)
        (low 16)
        (low 4294967297)
        (some idle)
        false in
    (Zwasm.render demo_memory (map zwasm_value args) (some idle) ≡ answer)
    × (Wasmz.render demo_memory (map i32_val args) (some idle) ≡ answer)
    × (wamr.0 ≡ answer)
    × (wamr.1 ≡ (
        (false || is_beyond demo_memory (low 0) (max_zero (low 1) * 16))
        || is_beyond demo_memory (low 16) (max_zero (low 4294967297) * 4)))
    × (Pulley.render (some demo_memory) (low 0) (low 1) (low 16) (low 4294967297) (some idle)
        ≡ answer)
    × Renders demo_memory (low 0) (low 1) (low 16) (low 4294967297) idle answer
bindings_agree_example =
    bindings_agree demo_memory (λ thrown. thrown) validate native demo_memory-Addresses idle 0 1 16
      4294967297 false

-- A library that reads the memory as documented.
abbrev reading : ℕ → ℕ → Option (List ℕ)
reading = get_range demo_memory

wasmedge_render-pulley_example :
    Wasmedge.render (Wasmedge.span true reading) (0 ∷ 1 ∷ 16 ∷ 1 ∷ []) (some idle)
    ≡ Pulley.render (some demo_memory) 0 1 16 1 (some idle)
wasmedge_render-pulley_example =
    wasmedge_render-pulley demo_memory reading (some idle) 0 1 16 1 (λ p n. refl)
      (inl (omega arith)) (inl (omega arith))

tinywasm_render-spans_example :
    Tinywasm.render (Tinywasm.read reading) 0 1 16 1 (some idle)
    ≡ render_read
        (guest_span demo_memory 0 (1 * 16))
        (guest_span demo_memory 16 (1 * 4))
        (some idle)
tinywasm_render-spans_example =
    tinywasm_render-spans demo_memory reading (some idle) 0 1 16 1 (λ p n. refl) (omega arith)
      (omega arith) (omega arith) (omega arith)
