-- ===== src/Upcall/Monitor/Tests.antt =====
-- Two workers with two buckets each.
use upcalls.Prelude.{ℕ, ◌+◌, ◌≡◌, refl, true, false, List, [], ◌∷◌, arith, u64}
use upcalls.Upcall.Stats.{Shape, batch_at}
use upcalls.Upcall.Monitor.{Interval, range_from, counter_of, columns, rows, section, Monitor}
use upcalls.Upcall.Stats.Layout.{IsShape}
use upcalls.Upcall.Monitor.Deltas.{shown, missed, growth, shown-missed}

abbrev shape : Shape
shape = record { batch_hist_len = 2; time_hist_len = 1; batch_stride = 8 }

abbrev counters : List ℕ
counters = 3 ∷ 0 ∷ 3 ∷ 2 ∷ 3 ∷ 0 ∷ 0 ∷ 0 ∷ 5 ∷ 0 ∷ 5 ∷ 4 ∷ 5 ∷ 0 ∷ 0 ∷ 0 ∷ []

abbrev earlier : List ℕ
earlier = 1 ∷ 0 ∷ 1 ∷ 1 ∷ 1 ∷ 0 ∷ 0 ∷ 0 ∷ 2 ∷ 0 ∷ 2 ∷ 1 ∷ 2 ∷ 0 ∷ 0 ∷ 0 ∷ []

rows_run : rows shape 1 (λ _. counters) earlier ≡ (2 ∷ 0 ∷ 2 ∷ 1 ∷ 2 ∷ []) ∷ []
unfolding rows columns
rows_run = refl

-- Two intervals: in the first, the second worker counts between its row and the copy, and then comes
-- a reset; after it, both workers count again.
abbrev intervals : List Interval
intervals =
    record { seen = λ _. earlier; copied = λ _. counters; reset = true }
    ∷ record { seen = λ _. earlier; copied = λ _. earlier; reset = false }
    ∷ []

shape-IsShape : IsShape shape
shape-IsShape = record {
  batch_some = omega arith;
  time_some = omega arith;
  room = omega arith;
  aligned = omega arith;
}

shown-missed_example :
    u64 (shown shape 2 1 2 intervals [] + missed shape 1 2 intervals)
    ≡ growth shape 1 2 intervals (counter_of shape 1 [] 2) (counter_of shape 1 [] 2)
shown-missed_example =
    shown-missed shape shape-IsShape 2 1 2 (omega arith) (omega arith) intervals []
      (omega arith, omega arith, (omega arith, omega arith, tt)) (omega arith)

growth_runs : growth shape 1 2 intervals 0 0 ≡ 7
unfolding growth
growth_runs = refl

section_runs : section shape (λ b. b) batch_at 2 counters (range_from 0 2) ≡ (1, 8) ∷ []
unfolding section
section_runs = refl

abbrev monitor : Monitor
monitor = record { prev = earlier; last = [] }
