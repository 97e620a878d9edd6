-- ===== src/Harness/Table.antt =====
-- The case table of crates/benchmark-core/src/cases.rs, with the constants of lib.rs that it
-- names. A WASM constant is the constructor of its name: the bytes, which the build includes, are
-- read by the runtimes only. An i32 is its 32-bit pattern.
use wasm_benchmark.Base.{ℕ, ◌-◌, ◌^◌, List, [], ◌∷◌, Option, some, none}
use Prim.Native.String.{String}

pub data Wasm : Type 0 where
  fib_wasm fib_tail_wasm factorial_wasm sieve_wasm crc32_wasm matmul_simd_wasm : Wasm
  matmul_fma_wasm convolution_wasm audio_dsp_wasm bulk_memory_wasm call_indirect_wasm : Wasm
  factorial_scalar_wasm sieve_scalar_wasm crc32_scalar_wasm convolution_scalar_wasm : Wasm
  bulk_memory_scalar_wasm xmrsplayer_wasm vtable_dispatch_wasm graphql_validation_as_wasm : Wasm
  tailcall_fsm_wasm eh_parser_exnref_wasm eh_parser_legacy_wasm gc_trees_wasm : Wasm
  callref_dispatch_wasm callref_dispatch_indirect_wasm relaxed_kernels_wasm : Wasm
  mem64_chase_wasm mem64_chase_mem32_wasm multimem_transform_wasm : Wasm
  multimem_transform_single_wasm extconst_init_wasm extconst_init_mvp_wasm : Wasm
  graphql_validation_porf_wasm graphql_validation_porf_accurate_wasm sqlite3_wasm : Wasm

-- How a case is driven.
pub data Shape : Type 0 where
  i32_to_i32 porffor_main sqlite3_shape instantiate_each : Shape

pub record Case : Type 0 where
  pub id : String
  pub label : String
  pub wasm : Wasm
  pub func : String
  pub arg : ℕ
  pub expected : Option ℕ
  pub shape : Shape

abbrev pub c : String → String → Wasm → String → ℕ → Option ℕ → Case
c the_id the_label the_wasm the_func the_arg the_expected = record {
  id = the_id;
  label = the_label;
  wasm = the_wasm;
  func = the_func;
  arg = the_arg;
  expected = the_expected;
  shape = i32_to_i32;
}

-- The EXPECTED constants.
abbrev pub expected_fib_30 : ℕ
expected_fib_30 = 832040

abbrev pub expected_fib_tail_100k : ℕ
expected_fib_tail_100k = 873876091

abbrev pub expected_factorial_20 : ℕ
expected_factorial_20 = 2 ^ 32 - 2102132736

abbrev pub expected_sieve_10k : ℕ
expected_sieve_10k = 1229

abbrev pub expected_crc32_c0ffee : ℕ
expected_crc32_c0ffee = 2 ^ 32 - 1910355869

abbrev pub expected_matmul_simd : ℕ
expected_matmul_simd = 48907

abbrev pub expected_matmul_fma : ℕ
expected_matmul_fma = 48907

abbrev pub expected_convolution : ℕ
expected_convolution = 8190685

abbrev pub expected_audio_dsp : ℕ
expected_audio_dsp = 761667740

abbrev pub expected_bulk_memory : ℕ
expected_bulk_memory = 8698902

abbrev pub expected_call_indirect : ℕ
expected_call_indirect = 2 ^ 32 - 9175573

abbrev pub expected_vtable_mono : ℕ
expected_vtable_mono = 2 ^ 32 - 318559695

abbrev pub expected_vtable_bi : ℕ
expected_vtable_bi = 2 ^ 32 - 208336512

abbrev pub expected_vtable_poly4 : ℕ
expected_vtable_poly4 = 2 ^ 32 - 126115384

abbrev pub expected_vtable_poly6 : ℕ
expected_vtable_poly6 = 579248763

abbrev pub expected_graphql_as : ℕ
expected_graphql_as = 5

abbrev pub expected_tailcall_fsm : ℕ
expected_tailcall_fsm = 2 ^ 32 - 1841735369

abbrev pub expected_eh_parser : ℕ
expected_eh_parser = 830008030

abbrev pub expected_gc_trees : ℕ
expected_gc_trees = 2 ^ 32 - 81253392

abbrev pub expected_callref_dispatch : ℕ
expected_callref_dispatch = 2 ^ 32 - 750120562

abbrev pub expected_relaxed_dot : ℕ
expected_relaxed_dot = 2 ^ 32 - 551922832

abbrev pub expected_relaxed_madd : ℕ
expected_relaxed_madd = 2 ^ 32 - 1435646925

abbrev pub expected_mem64_chase : ℕ
expected_mem64_chase = 433527714

abbrev pub expected_multimem_transform : ℕ
expected_multimem_transform = 902712413

abbrev pub expected_extconst_init : ℕ
expected_extconst_init = 2 ^ 32 - 1152068691

abbrev pub cases : List Case
cases =
    c "fib" "fib(30)" fib_wasm "fib" 30 (some expected_fib_30)
    ∷ c "fib_tail" "fib_tail(100000) [return_call]" fib_tail_wasm "fib_tail" 100000
        (some expected_fib_tail_100k)
    ∷ c "factorial" "factorial(20)" factorial_wasm "factorial" 20 (some expected_factorial_20)
    ∷ c "sieve" "sieve(10000)" sieve_wasm "sieve" 10000 (some expected_sieve_10k)
    ∷ c "crc32" "crc32(64KB)" crc32_wasm "crc32" 0xC0FFEE (some expected_crc32_c0ffee)
    ∷ c "matmul_simd" "matmul simd128 (64×64 f32)" matmul_simd_wasm "matmul" 0xBEEF
        (some expected_matmul_simd)
    ∷ c "matmul_fma" "matmul relaxed-simd FMA" matmul_fma_wasm "matmul_fma" 0xBEEF
        (some expected_matmul_fma)
    ∷ c "convolution" "convolution 256×256" convolution_wasm "convolve" 0xCAFE
        (some expected_convolution)
    ∷ c "audio_dsp" "audio DSP (1000 frames × 512)" audio_dsp_wasm "audio_dsp" 0x5C7
        (some expected_audio_dsp)
    ∷ c "bulk_memory" "bulk_memory (memory.copy/fill)" bulk_memory_wasm "bulk_memory" 0xB0CC
        (some expected_bulk_memory)
    ∷ c "call_indirect" "call_indirect (200K dispatches)" call_indirect_wasm "call_indirect" 0xC1AA
        (some expected_call_indirect)
    ∷ c "factorial.scalar" "factorial(20) [scalar build]" factorial_scalar_wasm "factorial" 20
        (some expected_factorial_20)
    ∷ c "sieve.scalar" "sieve(10000) [scalar build]" sieve_scalar_wasm "sieve" 10000
        (some expected_sieve_10k)
    ∷ c "crc32.scalar" "crc32(64KB) [scalar build]" crc32_scalar_wasm "crc32" 0xC0FFEE
        (some expected_crc32_c0ffee)
    ∷ c "convolution.scalar" "convolution 256×256 [scalar build]" convolution_scalar_wasm "convolve"
        0xCAFE (some expected_convolution)
    ∷ c "bulk_memory.scalar" "bulk_memory (memory.copy/fill) [scalar build]" bulk_memory_scalar_wasm
        "bulk_memory" 0xB0CC (some expected_bulk_memory)
    ∷ c "xmrsplayer" "xmrsplayer (1024-frame buffer)" xmrsplayer_wasm "play_buffer" 0 none
    ∷ c "vtable_mono" "vtable_mono (200K)" vtable_dispatch_wasm "vtable_mono" 0xC1AA
        (some expected_vtable_mono)
    ∷ c "vtable_bi" "vtable_bi (200K)" vtable_dispatch_wasm "vtable_bi" 0xC1AA
        (some expected_vtable_bi)
    ∷ c "vtable_poly4" "vtable_poly4 (200K)" vtable_dispatch_wasm "vtable_poly4" 0xC1AA
        (some expected_vtable_poly4)
    ∷ c "vtable_poly6" "vtable_poly6 (200K)" vtable_dispatch_wasm "vtable_poly6" 0xC1AA
        (some expected_vtable_poly6)
    ∷ c "graphql_as" "graphql-validation (AS)" graphql_validation_as_wasm "validate_once" 0
        (some expected_graphql_as)
    ∷ c "tailcall_fsm" "tail-call FSM (65536 return_call)" tailcall_fsm_wasm "tailcall_fsm" 7
        (some expected_tailcall_fsm)
    ∷ c "eh_parser_exnref" "EH parser, exnref (4096 stmts, 25% throw)" eh_parser_exnref_wasm
        "eh_parser_exnref" 7 (some expected_eh_parser)
    ∷ c "eh_parser_legacy" "EH parser, legacy try/catch (4096 stmts)" eh_parser_legacy_wasm
        "eh_parser_legacy" 7 (some expected_eh_parser)
    ∷ c "gc_trees" "GC binary trees (~130K struct.new)" gc_trees_wasm "gc_trees" 7
        (some expected_gc_trees)
    ∷ c "callref_dispatch" "call_ref dispatch (200K, typed table)" callref_dispatch_wasm
        "callref_dispatch" 7 (some expected_callref_dispatch)
    ∷ c "callref_dispatch.indirect" "call_ref twin: call_indirect (200K)"
        callref_dispatch_indirect_wasm "callref_dispatch" 7 (some expected_callref_dispatch)
    ∷ c "relaxed_dot" "relaxed-SIMD int8 dot (64×64×256)" relaxed_kernels_wasm "relaxed_dot" 7
        (some expected_relaxed_dot)
    ∷ c "relaxed_madd" "relaxed-SIMD FMA Horner (16K pts)" relaxed_kernels_wasm "relaxed_madd" 7
        (some expected_relaxed_madd)
    ∷ c "mem64_chase" "memory64 pointer chase (64 MiB, 256K hops)" mem64_chase_wasm "mem64_chase" 7
        (some expected_mem64_chase)
    ∷ c "mem64_chase.mem32" "memory64 twin: 32-bit memory" mem64_chase_mem32_wasm "mem64_chase" 7
        (some expected_mem64_chase)
    ∷ c "multimem_transform" "multi-memory transform (3 memories)" multimem_transform_wasm
        "multimem_transform" 7 (some expected_multimem_transform)
    ∷ c "multimem_transform.single" "multi-memory twin: one memory" multimem_transform_single_wasm
        "multimem_transform" 7 (some expected_multimem_transform)
    ∷ record {
      id = "extconst_init";
      label = "extended-const instantiate (2560 globals)";
      wasm = extconst_init_wasm;
      func = "extconst_init";
      arg = 7;
      expected = some expected_extconst_init;
      shape = instantiate_each;
    }
    ∷ record {
      id = "extconst_init.mvp";
      label = "extended-const twin: MVP consts";
      wasm = extconst_init_mvp_wasm;
      func = "extconst_init";
      arg = 7;
      expected = some expected_extconst_init;
      shape = instantiate_each;
    }
    ∷ record {
      id = "graphql_porf";
      label = "graphql-validation (Porffor)";
      wasm = graphql_validation_porf_wasm;
      func = "m";
      arg = 0;
      expected = none;
      shape = porffor_main;
    }
    ∷ record {
      id = "graphql_porf_trycatch";
      label = "graphql-validation (Porffor try/catch)";
      wasm = graphql_validation_porf_accurate_wasm;
      func = "m";
      arg = 0;
      expected = none;
      shape = porffor_main;
    }
    ∷ record {
      id = "sqlite3";
      label = "sqlite3 speedtest1 (in-mem)";
      wasm = sqlite3_wasm;
      func = "_start";
      arg = 0;
      expected = none;
      shape = sqlite3_shape;
    }
    ∷ []
