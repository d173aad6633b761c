-- ===== src/Report/Tests.antt =====
-- A thread with its five counters, and a connection that hangs.
use upcalls.Prelude.{
  ℕ, ◌≡◌, refl, Option, none, some, List, [], ◌∷◌, ◌++◌, arith, done, pos, replicate,
  length-replicate, get_or, zero, suc,
}
use upcalls.Report.{
  Thread, Reading, store_readings, Write, takes, write_perf_stats, on_stats, Message, Conn,
  on_error,
}
use upcalls.Report.Text.{Line, stats_header, reading, print_row}
use upcalls.Report.Fetch.{Read, gives}
use upcalls.Report.Send.{Taking, joined}
use upcalls.Report.Receive.{Giving}
use upcalls.Report.RoundTrip.{Delivered, on_stats-Delivered}
use upcalls.Report.Perf.{value_of, AreDistinct, store_readings-value}
use upcalls.Report.Filling.{lines_of}
use upcalls.Report.Errors.{Reported, on_error-Reported}

abbrev thread : Thread
thread = record {
  index = 0;
  perf_ids = 11 ∷ 12 ∷ 13 ∷ 14 ∷ 15 ∷ [];
  accept_count = 3;
  conn_count = 2;
}

abbrev reading_of : ℕ → ℕ → Reading
reading_of v id = record { value = v; id = id }

abbrev readings : List Reading
readings =
    reading_of 7 13 ∷ reading_of 100 11 ∷ reading_of 200 12 ∷ reading_of 8 14 ∷ reading_of 9 15 ∷ []

-- 0, 100, 200, 7, 8, 9, 3, 2
abbrev row : Line
row = print_row (0 ∷ 100 ∷ 200 ∷ 7 ∷ 8 ∷ 9 ∷ 3 ∷ 2 ∷ [])

rows_run : write_perf_stats ((thread, some readings) ∷ []) (replicate 5 0) ≡ done (row ∷ [])
unfolding write_perf_stats store_readings
rows_run = refl

distinct : AreDistinct (11 ∷ 12 ∷ 13 ∷ 14 ∷ 15 ∷ [])
distinct i j l m e = ground arith

store_readings-value_example :
    get_or (store_readings thread.perf_ids readings (replicate 5 0)) 2 0 ≡ value_of 13 readings 0
store_readings-value_example =
    store_readings-value thread.perf_ids readings (replicate 5 0) 2 distinct refl (omega arith)

Taking-replicate : (n k : ℕ) → Taking (replicate n (takes k))
Taking-replicate zero k = tt
Taking-replicate (suc n) k = Taking-replicate n k

Giving-replicate : (n k : ℕ) → Giving (replicate n (gives k))
Giving-replicate zero k = tt
Giving-replicate (suc n) k = Giving-replicate n k

abbrev table : List ℕ
table = stats_header ++ joined (row ∷ [])

abbrev writes : ℕ → List Write
writes k = replicate 200 (takes k)

abbrev junk : List ℕ
junk = replicate 8 255

abbrev reads : List Read
reads = replicate 200 (gives 30)

on_stats-Delivered_example :
    (m : Message) × (on_stats (pos 9) ((thread, some readings) ∷ []) (writes 6) ≡ done m)
    × Delivered m junk (gives 7 ∷ reads) (writes 0) table
on_stats-Delivered_example =
    on_stats-Delivered 9 ((thread, some readings) ∷ []) (row ∷ []) (writes 6) junk 7 reads
      (writes 0) rows_run (omega arith) refl (omega arith) (Taking-replicate 200 6)
      (Giving-replicate 200 30) (Taking-replicate 200 0) (omega arith) (omega arith) (omega arith)

abbrev hanging : List (Option Conn)
hanging =
    none ∷ some (record { port = 0; state = reading; cursor = 17; event_count = 4 }) ∷ none ∷ []

on_error-Reported_example :
    (m : Message) × (on_error (pos 9) hanging (1 ∷ []) (replicate 8192 (takes 99)) ≡ some m)
    × Reported (lines_of 3 hanging) m
on_error-Reported_example =
    on_error-Reported 9 hanging (1 ∷ []) (replicate 8192 (takes 99)) (omega arith) (omega arith, tt)
      (Taking-replicate 8192 99) (omega (arith, length-replicate 8192 (takes 99)))
