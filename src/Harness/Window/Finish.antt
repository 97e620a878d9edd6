-- ===== src/Harness/Window/Finish.antt =====
-- What a report says of the samples.
use wasm_benchmark.Base.{
  ℕ, ◌-◌, ◌/◌, ◌≤◌, ◌<◌, ◌≡◌, refl, arith, List, [], Option, some, none, length, get_elem?,
  get_elem?-get_or, get_or, min,
}
use wasm_benchmark.Harness.Window.{
  Window, After, RunReport, finish, build_report, scale_p99, sort_unstable,
}
use wasm_benchmark.Harness.Window.Scale.{median-le-scale_p99}
use wasm_benchmark.Harness.Window.Rank.{
  HasRank, count_lt-sort, count_le-sort, length-sort, IsSorted-sort, IsSorted-HasRank, HasRank-le,
}

-- An element of the sorted samples has its index for its rank among the samples as they came.
sort-HasRank :
    (samples : List ℕ) (k v : ℕ)
    → get_elem? (sort_unstable samples) k ≡ some v
    → HasRank k v samples
sort-HasRank samples k v e = omega (
  arith,
  IsSorted-HasRank (sort_unstable samples) k v (IsSorted-sort samples) e,
  count_lt-sort v samples,
  count_le-sort v samples,
)

-- `result` is a report whose three times have the ranks of the minimum, of the upper median and
-- of the 0.99 index, and do not fall.
pub record Reports (samples : List ℕ) (result iterations load_time : ℕ) (answer : Option RunReport)
    : Type 0 where
  pub report : RunReport
  pub returns : answer ≡ some report
  pub min_rank : HasRank 0 report.run_min samples
  pub median_rank : HasRank (length samples / 2) report.run_median samples
  pub p99_rank :
      HasRank (min (scale_p99 (length samples)) (length samples - 1)) report.run_p99 samples
  pub min_median : report.run_min ≤ report.run_median
  pub median_p99 : report.run_median ≤ report.run_p99
  pub same_result : report.result ≡ result
  pub same_iterations : report.iterations ≡ iterations
  pub same_load : report.load_time ≡ load_time

-- On one sample or more `finish` panics nowhere. The samples may come in any order: the times of
-- its report are the least of them, their upper median, and the one that the f64 index picks.
pub finish-Reports :
    (w : Window) (after : After) (result iterations load_time : ℕ) (samples : List ℕ)
    → 0 < length samples
    → Reports samples result iterations load_time
        (finish w after result iterations load_time samples)
unfolding finish build_report
finish-Reports w after result iterations load_time samples h =
    let sorted = sort_unstable samples in
    let n = length samples in
    let k = min (scale_p99 n) (n - 1) in
    let same : length sorted ≡ n = length-sort samples in
    let at0 : get_elem? sorted 0 ≡ some (get_or sorted 0 0) =
      get_elem?-get_or sorted 0 0 (omega (arith, same)) in
    let at_median : get_elem? sorted (n / 2) ≡ some (get_or sorted (n / 2) 0) =
      get_elem?-get_or sorted (n / 2) 0 (omega (arith, same)) in
    let at_p99 : get_elem? sorted k ≡ some (get_or sorted k 0) =
      get_elem?-get_or sorted k 0 (omega (arith, same)) in
    let r0 = sort-HasRank samples 0 _ at0 in
    let r1 = sort-HasRank samples (n / 2) _ at_median in
    let r2 = sort-HasRank samples k _ at_p99 in
    record {
      report =
          build_report w after result iterations load_time (get_or sorted 0 0)
            (get_or sorted (n / 2) 0) (get_or sorted k 0);
      returns = rw (same, at0, at_median, at_p99) refl;
      min_rank = r0;
      median_rank = r1;
      p99_rank = r2;
      min_median = HasRank-le 0 (n / 2) _ _ samples r0 r1 (omega arith);
      median_p99 = HasRank-le (n / 2) k _ _ samples r1 r2 (omega (arith, median-le-scale_p99 n));
      same_result = refl;
      same_iterations = refl;
      same_load = refl;
    }

-- With no sample `finish` panics.
pub finish_empty :
    (w : Window) (after : After) (result iterations load_time : ℕ)
    → finish w after result iterations load_time [] ≡ none
unfolding finish sort_unstable
finish_empty w after result iterations load_time = refl
