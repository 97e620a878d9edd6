-- ===== src/Harness/Usage.antt =====
-- crates/benchmark-core/src/residency.rs: the counters of a process, their difference, and the
-- conversion from Mach absolute time. The kernel's answers are parameters.
use wasm_benchmark.Base.{ℕ, ◌+◌, ◌-◌, ◌*◌, ◌/◌, ◌%◌, ◌^◌, Option, none, some, ◌==◌, if◌then◌else◌}

pub record ProcUsage : Type 0 where
  pub cpu_ns : ℕ
  pub p_cpu_ns : ℕ
  pub instructions : ℕ
  pub cycles : ℕ
  pub p_instructions : ℕ
  pub p_cycles : ℕ

-- saturating_sub is the subtraction on ℕ.
unfoldable pub since : ProcUsage → ProcUsage → ProcUsage
since after before = record {
  cpu_ns = after.cpu_ns - before.cpu_ns;
  p_cpu_ns = after.p_cpu_ns - before.p_cpu_ns;
  instructions = after.instructions - before.instructions;
  cycles = after.cycles - before.cycles;
  p_instructions = after.p_instructions - before.p_instructions;
  p_cycles = after.p_cycles - before.p_cycles;
}

abbrev pub no_usage : ProcUsage
no_usage = record {
  cpu_ns = 0;
  p_cpu_ns = 0;
  instructions = 0;
  cycles = 0;
  p_instructions = 0;
  p_cycles = 0;
}

-- The fields of `struct rusage_info_v6` that are read.
pub record RusageInfo : Type 0 where
  pub ri_user_time : ℕ
  pub ri_system_time : ℕ
  pub ri_user_ptime : ℕ
  pub ri_system_ptime : ℕ
  pub ri_instructions : ℕ
  pub ri_cycles : ℕ
  pub ri_pinstructions : ℕ
  pub ri_pcycles : ℕ

pub record MachTimebaseInfo : Type 0 where
  pub numer : ℕ
  pub denom : ℕ

-- The product is a u128, which holds it; the quotient is cut to a u64.
unfoldable pub to_ns : MachTimebaseInfo → ℕ → ℕ
to_ns tb t = if tb.denom == 0 then t else t * tb.numer / tb.denom % 2 ^ 64

-- `proc_usage_of`, on what proc_pid_rusage answered (its return code and structure).
unfoldable pub proc_usage_of : ℕ → RusageInfo → MachTimebaseInfo → Option ProcUsage
unfolding to_ns
proc_usage_of rc ri tb =
    if rc == 0
    then some (record {
      cpu_ns = to_ns tb ((ri.ri_user_time + ri.ri_system_time) % 2 ^ 64);
      p_cpu_ns = to_ns tb ((ri.ri_user_ptime + ri.ri_system_ptime) % 2 ^ 64);
      instructions = ri.ri_instructions;
      cycles = ri.ri_cycles;
      p_instructions = ri.ri_pinstructions;
      p_cycles = ri.ri_pcycles;
    })
    else none
