-- ===== src/Threads/Tests.antt =====
-- A message in two parts, written back in two parts, and the start of the next one.
use upcalls.Prelude.{◌≡◌, refl, List, [], ◌∷◌, arith, ℤ, pos}
use upcalls.Threads.{reading, conn_loop, conn_handler, place, in_call}
use upcalls.Threads.Balance.{IsBalanced, conn_handler-IsBalanced}

abbrev results : List ℤ
results = pos 3 ∷ pos 1 ∷ pos 2 ∷ pos 2 ∷ pos 1 ∷ []

conn_handler-IsBalanced_example : IsBalanced 4 (place (conn_handler 4 results))
conn_handler-IsBalanced_example =
    conn_handler-IsBalanced 4 results (omega arith)
      (omega arith, (omega arith, (omega arith, (omega arith, (omega arith, tt)))))

conn_handler_run :
    conn_handler 4 results
    ≡ in_call (record { phase = reading; cursor = 1; bytes_read = 5; bytes_written = 4 })
unfolding conn_loop
conn_handler_run = refl
