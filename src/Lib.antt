-- ===== src/Lib.antt =====
-- wasm-benchmark: a harness that measures the same WebAssembly workloads on seven runtimes.
--
-- The program has two halves. The guests (workloads-rs/*.rs) are compiled to WebAssembly, and some
-- are computed again on the host, by the *_reference functions of crates/benchmark-core/src/lib.rs.
-- The harness (crates/benchmark-core/src) sizes a run, calls the guest in a measured window, makes
-- a report of the samples, and refuses a report whose result is not the reference. Its callers come
-- in through a table of cases (cases.rs) or through C functions (lib.rs).
--
-- Files:
--   Base/      machine words as natural numbers (a w-bit integer is its residue, an i32 its 32-bit
--              pattern), lists with indices, panics as `none`, bit operations.
--   Workload/  Lcg and Crc (workloads-rs/crc32.rs, crc32_reference, the crc32 of write_png in
--              femtovg_e2e.rs), Fib (fib.rs, fib_tail.rs, fib_reference), Factorial
--              (factorial.rs, factorial_reference), Sieve (sieve.rs, sieve_reference), Vtable
--              (vtable_dispatch.rs), Indirect (call_indirect.rs, call_indirect_reference),
--              Convolution (convolution.rs, convolution_reference), Bulk (bulk_memory.rs,
--              bulk_memory_reference), Checksum (the sums that these two end with).
--   Harness/   Iters (pick_iters), Usage (residency.rs), Window (Window::finish), Measure
--              (measure_calls, measure_samples), Table (the CASES of cases.rs and the constants
--              they name), Cases (run_case and the dispatch functions), Abi (BenchReport,
--              bench_run_case and the bench_run_* entries, a file for each runtime).
--   Femtovg/   Imports (import_names of femtovg_e2e.rs, the reader of a module's import section),
--              Png (write_png of the same file, up to the write), Host (the host_* functions and
--              guest_span), Bind (the `fvg` imports in wasm3.rs, wasmz.rs, zwasm.rs, wamr.rs,
--              wasmedge.rs, tinywasm.rs and pulley_guest), Guest (the guest itself,
--              workloads-rs-cargo/femtovg-guest/src/lib.rs: Walk and Draw make the display list and
--              a frame's calls, Canvas and Picture say what these paint, Wire is the sink of the
--              imports with fvg_init and fvg_frame), Driver (run_e2e_on_this_thread of
--              femtovg_e2e.rs: Run has its steps, the other files what their outcome is).
--   Runtimes/  Trace (what is done to the objects of a C library, with the discipline that it has
--              to follow), Action (the state, the log, results and guards), Kept and Keeps (what an
--              action keeps), Thread (run_on_thread), and one module for each adapter with what it
--              leaves alive: Wasmz (wasmz.rs), Wasm3 (wasm3.rs), Wamr (wamr.rs), Zwasm (zwasm.rs),
--              Wasmedge (executor_samples of wasmedge.rs and its two callers; Vm is the
--              runner over the VM).
--
-- A static buffer is passed in and out. A loop takes its number of rounds left where the source
-- fixes it, and fuel where it does not: fib and fib_tail take n + 1 nested calls, factorial n + 1
-- tests, the loops of the sieve n + 1 rounds each, the chunks of bulk_memory N + 1, and the reader of
-- imports one for each byte;
-- that this is enough is part of the theorems.
-- Environment, clock, kernel counters and the runtimes behind their C libraries are parameters: a
-- guest is a function on a state, which may fail, and an adapter is a function from a state to a
-- report or an error and the next state, so that what is called, and how often, can be stated. An
-- error stands for its text. In Runtimes a C library is a record of functions on its state that may
-- answer anything; an adapter's calls of it are logged, the latest first, with the objects that they
-- create, use and delete. A pointer is a number, NULL is 0, and usize has 64 bits.
--
-- Not modelled: the runners of tinywasm, how the adapters make their
-- guests for the femtovg driver, the GPU and the JSON text of that driver's report, what a thread
-- is named and how it is scheduled, the SIMD and audio guests, the guests in other languages,
-- command-line drivers, apps and scripts.
mod Base
pub mod Workload
pub mod Harness
pub mod Femtovg
pub mod Runtimes
