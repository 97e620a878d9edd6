-- ===== src/Harness/Window/Runs.antt =====
-- `finish` on concrete input, and its theorem there.
use wasm_benchmark.Base.{ℕ, ◌≡◌, refl, arith, List, [], ◌∷◌, none, some}
use wasm_benchmark.Harness.Window.{
  Window, After, finish, insert, sort_unstable, scale_p99, round_f64, round_even, excess_digits,
}
use wasm_benchmark.Harness.Window.Finish.{Reports, finish-Reports}

abbrev no_counters : Window
no_counters = record { cpu = none; events = none; usage = none }

abbrev no_after : After
no_after = record { cpu = none; events = none; usage = none; rss = some 4096 }

abbrev four_times : List ℕ
four_times = 30 ∷ 10 ∷ 40 ∷ 20 ∷ []

sorted_four : sort_unstable four_times ≡ 10 ∷ 20 ∷ 30 ∷ 40 ∷ []
unfolding sort_unstable insert
sorted_four = refl

-- The 0.99 index of 200 samples is 198.
p99_of_two_hundred : scale_p99 200 ≡ 198
unfolding scale_p99 round_f64 round_even excess_digits
p99_of_two_hundred = refl

finish-Reports_example : Reports four_times 7 4 900 (finish no_counters no_after 7 4 900 four_times)
finish-Reports_example = finish-Reports no_counters no_after 7 4 900 four_times (omega arith)
