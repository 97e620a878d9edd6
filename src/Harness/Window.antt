-- ===== src/Harness/Window.antt =====
-- `Window` of crates/benchmark-core/src/lib.rs: what `finish` makes of the samples and of the
-- kernel's counters. The counters before and after are parameters; `none` is a panic of an index.
pub mod Scale
pub mod Rank
pub mod Finish
mod Runs
use wasm_benchmark.Base.{
  ℕ, zero, suc, ◌+◌, ◌-◌, ◌*◌, ◌/◌, ◌%◌, ◌^◌, List, [], ◌∷◌, Option, none, some, ◌>>=◌, get_elem?,
  length, leb, ltb, ◌==◌, if◌then◌else◌, min, ◌||◌, ◌&&◌,
}
use wasm_benchmark.Harness.Usage.{ProcUsage, no_usage, since}

pub record TimeValue : Type 0 where
  pub seconds : ℕ
  pub microseconds : ℕ

pub record ThreadTimes : Type 0 where
  pub user_time : TimeValue
  pub system_time : TimeValue

unfoldable pub time_value_to_ns : TimeValue → ℕ
time_value_to_ns t = t.seconds * 1_000_000_000 + t.microseconds * 1_000

-- A Window holds the counters at its start; `none` is a counter that the kernel did not give.
-- `events` is the field `faults` of TaskEventsInfo.
pub record Window : Type 0 where
  pub cpu : Option ThreadTimes
  pub events : Option ℕ
  pub usage : Option ProcUsage

-- The counters that `finish` reads; `rss` is `resident_size_max` of the basic info.
pub record After : Type 0 where
  pub cpu : Option ThreadTimes
  pub events : Option ℕ
  pub usage : Option ProcUsage
  pub rss : Option ℕ

-- Durations are their nanoseconds.
pub record RunReport : Type 0 where
  pub result : ℕ
  pub iterations : ℕ
  pub load_time : ℕ
  pub run_min : ℕ
  pub run_median : ℕ
  pub run_p99 : ℕ
  pub cpu_user_ns : ℕ
  pub cpu_system_ns : ℕ
  pub rss_peak_bytes : ℕ
  pub page_faults : ℕ
  pub p_cpu_ns : ℕ
  pub instructions : ℕ
  pub cycles : ℕ

-- `sort_unstable`; equal numbers are the same, so any sort gives this list.
unfoldable pub insert : ℕ → List ℕ → List ℕ
insert x [] = x ∷ []
insert x (y ∷ ys) = if leb x y then x ∷ (y ∷ ys) else y ∷ insert x ys

unfoldable pub sort_unstable : List ℕ → List ℕ
sort_unstable [] = []
sort_unstable (x ∷ xs) = insert x (sort_unstable xs)

-- The f64 nearest to a natural number p, as a natural number: p itself below 2 ^ 53, else the
-- nearest multiple of the power 2 ^ e that leaves 53 digits, a tie going to the even digit.
unfoldable pub excess_digits : ℕ → ℕ → ℕ
excess_digits zero p = 0
excess_digits (suc fuel) p =
    let rest = excess_digits fuel (p / 2) in if ltb p (2 ^ 53) then 0 else suc rest

unfoldable pub round_even : ℕ → ℕ → ℕ
round_even p unit =
    let q = p / unit in
    let r = p % unit in
    if ltb unit (2 * r) || (2 * r == unit && q % 2 == 1) then (q + 1) * unit else q * unit

unfoldable pub round_f64 : ℕ → ℕ
unfolding excess_digits round_even
round_f64 p = round_even p (2 ^ excess_digits 64 p)

-- ((n as f64) * 0.99) as usize: the f64 0.99 is 8917127262193582 / 2 ^ 53.
unfoldable pub scale_p99 : ℕ → ℕ
unfolding round_f64
scale_p99 n = round_f64 (n * 8917127262193582) / 2 ^ 53

-- The three counters of the apple branch: user and system time, and page faults.
pub record Deltas : Type 0 where
  pub user : ℕ
  pub system : ℕ
  pub faults : ℕ

unfoldable pub deltas : Option ThreadTimes → Option ThreadTimes → Option ℕ → Option ℕ → Deltas
unfolding time_value_to_ns
deltas (some b) (some a) (some eb) (some ea) = record {
  user = time_value_to_ns a.user_time - time_value_to_ns b.user_time;
  system = time_value_to_ns a.system_time - time_value_to_ns b.system_time;
  faults = ea - eb;
}
deltas _ _ _ _ = record { user = 0; system = 0; faults = 0 }

unfoldable pub usage_delta : Option ProcUsage → Option ProcUsage → ProcUsage
usage_delta (some a) (some b) = since a b
usage_delta _ _ = no_usage

unfoldable pub rss_peak : Option ℕ → ℕ
rss_peak (some b) = b
rss_peak none = 0

-- The report's fields, from the three times and the counters.
unfoldable pub build_report : Window → After → ℕ → ℕ → ℕ → ℕ → ℕ → ℕ → RunReport
build_report w after result iterations load_time run_min run_median run_p99 =
    let d = deltas w.cpu after.cpu w.events after.events in
    let usage = usage_delta after.usage w.usage in
    record {
      result = result;
      iterations = iterations;
      load_time = load_time;
      run_min = run_min;
      run_median = run_median;
      run_p99 = run_p99;
      cpu_user_ns = d.user;
      cpu_system_ns = d.system;
      rss_peak_bytes = rss_peak after.rss;
      page_faults = d.faults;
      p_cpu_ns = usage.p_cpu_ns;
      instructions = usage.instructions;
      cycles = usage.cycles;
    }

unfoldable pub finish : Window → After → ℕ → ℕ → ℕ → List ℕ → Option RunReport
finish w after result iterations load_time samples = do
  let sorted = sort_unstable samples
  run_min ← get_elem? sorted 0
  run_median ← get_elem? sorted (length sorted / 2)
  let p99_idx = scale_p99 (length sorted)
  run_p99 ← get_elem? sorted (min p99_idx (length sorted - 1))
  some (build_report w after result iterations load_time run_min run_median run_p99)
