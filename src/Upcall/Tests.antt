-- ===== src/Upcall/Tests.antt =====
-- Runs of the library at concrete inputs, and its theorems there.
use upcalls.Prelude.{
  ℕ, zero, suc, ◌+◌, ◌-◌, ◌^◌, ◌≤◌, ◌<◌, ◌≡◌, refl, Option, some, List, [], ◌∷◌, arith, pos, negsuc,
  Outcome, done, exit, if◌then◌else◌, length, replicate, length-replicate, is_neg,
}
use upcalls.Upcall.Event.{UpEvent, zeroed, Iovec, up_vec}
use upcalls.Upcall.Worker.{Worker, Libc, IsLibc, IsValid}
use upcalls.Upcall.Queue.{read, accept, enqueue}
use upcalls.Upcall.Queue.Append.{Queued, enqueue-Queued}
use upcalls.Upcall.Pool.{return_buffer}
use upcalls.Upcall.Pool.Return.{Returned, return_buffer-Returned}
use upcalls.Upcall.Stats.{Shape, time_bucket}
use upcalls.Upcall.Stats.Buckets.{time_bucket_lem}
use upcalls.Upcall.Loop.{
  Call, request, give_back, Handlers, Outside, Thread, dispatch, run_event_loop, worker_rounds,
}
use upcalls.Upcall.Loop.Calls.{Dispatched, reactions, dispatch-Dispatched}
use upcalls.Upcall.Loop.Round.{IsKernel, Rounded, run_event_loop-Rounded}
use upcalls.Upcall.Loop.History.{Ended}
use upcalls.Upcall.Loop.Turns.{worker_rounds-Ended}

-- What memory holds before it is written.
abbrev junk : UpEvent
junk = record zeroed { fd = pos 77; buf = 99; len = 5; type = up_vec }

abbrev no_iovec : Iovec
no_iovec = record { iov_base = 13; iov_len = 13 }

-- Memory that never runs out.
abbrev libc : Libc
libc = record {
  realloc_events = λ old new. some (replicate (new - old) junk);
  realloc_iovecs = λ old new. some (500, replicate (new - old) no_iovec);
  calloc = λ k n size. some (1000 + k);
}

libc-IsLibc : IsLibc libc
libc-IsLibc = record {
  events_room = λ old new fresh h e. ground (arith, length-replicate (new - old) junk);
  iovecs_room = λ old new at fresh h e. ground (arith, length-replicate (new - old) no_iovec);
}

abbrev one_buffer : Iovec
one_buffer = record { iov_base = 1003; iov_len = 32 }

-- A worker of batch size 1 whose queue is full.
abbrev full : Worker
full = record {
  work = record zeroed { buf = 1002; len = 1; type = up_vec } ∷ [];
  work_cnt = 1;
  work_max = 1;
  receive = zeroed ∷ [];
  recv_cnt = 1;
  buffers = one_buffer ∷ [];
  buffers_at = 1002;
  buf_cnt = 1;
  buf_max = 1;
  my_batch_slot = some 0;
  proc_start = 0;
}

full-IsValid : IsValid full
full-IsValid = omega arith

enqueue-Queued_example : Queued libc (accept (pos 5) 7) full (enqueue libc (accept (pos 5) 7) full)
enqueue-Queued_example = enqueue-Queued libc (accept (pos 5) 7) full libc-IsLibc full-IsValid

return_buffer-Returned_example : Returned libc one_buffer full (return_buffer libc 1003 32 full)
return_buffer-Returned_example =
    return_buffer-Returned libc one_buffer full libc-IsLibc full-IsValid

time_bucket_lem_example :
    (time_bucket 40 1000 < 40)
    × (0 < 1000 → 2 ^ time_bucket 40 1000 ≤ 1000)
    × (0 < 1000 → suc (time_bucket 40 1000) < 40 → 1000 < 2 ^ (time_bucket 40 1000 + 1))
    × (◌≡◌ {A = ℕ} 1000 0 → time_bucket 40 1000 ≡ 0)
time_bucket_lem_example = time_bucket_lem 40 1000 (omega arith) (omega arith)

-- 1 submit counter, 2 sizes, 2 and 2 times, and a counter of padding.
abbrev shape : Shape
shape = record { batch_hist_len = 2; time_hist_len = 2; batch_stride = 8 }

abbrev counters : List ℕ
counters = replicate 8 0

-- A program that counts what it reads, gives the buffer back, and reads again.
abbrev handlers : Handlers ℕ
handlers fn e s =
    if is_neg e.result
    then exit 3
    else done (give_back e.buf e.len ∷ request (read e.fd fn) ∷ [], s + 1)

abbrev arrived : UpEvent
arrived = record zeroed { fd = pos 4; result = pos 10; buf = 1003; len = 32; work_fn = 8 }

-- A failed close comes back with no handler.
abbrev unhandled : UpEvent
unhandled = record zeroed { fd = pos 6; result = negsuc 8 }

dispatch_runs :
    reactions handlers (unhandled ∷ arrived ∷ []) 0
    ≡ done (give_back 1003 32 ∷ request (read (pos 4) 8) ∷ [], 1)
unfolding reactions
dispatch_runs = refl

dispatch-Dispatched_example :
    Dispatched handlers libc full
      (reactions handlers (unhandled ∷ arrived ∷ []) 0)
      (dispatch libc handlers (unhandled ∷ arrived ∷ []) (full, 0))
dispatch-Dispatched_example =
    dispatch-Dispatched handlers libc-IsLibc (unhandled ∷ arrived ∷ []) 0 full-IsValid

-- A kernel that answers with one event where there is room.
abbrev answer : ℕ → Option (List UpEvent)
answer zero = some []
answer (suc n) = some (arrived ∷ [])

abbrev outside : Outside
outside = record { submit = λ sub. answer sub.out_cnt; t0 = 10; t1 = 30 }

outside-IsKernel : IsKernel outside
outside-IsKernel sub es e = room sub.out_cnt e
  where
    room : (n : ℕ) → answer n ≡ some es → length es ≤ n
    room zero e = ground arith
    room (suc n) e = ground arith

abbrev thread : Thread ℕ
thread = record { worker = full; slots = counters; app = 0 }

run_event_loop-Rounded_example :
    Rounded shape libc handlers outside thread (run_event_loop shape libc handlers outside thread)
run_event_loop-Rounded_example =
    run_event_loop-Rounded shape libc handlers outside thread libc-IsLibc outside-IsKernel
      full-IsValid

-- A `loop_fn` that asks for a read in each turn.
abbrev asks_more : ℕ → Outcome (List Call × ℕ)
asks_more n = done (request (read (pos 7) 500) ∷ [], n + 1)

worker_rounds-Ended_example :
    Ended shape libc handlers
      (some asks_more)
      (outside ∷ outside ∷ [])
      thread
      (worker_rounds shape libc handlers (some asks_more) (outside ∷ outside ∷ []) thread)
worker_rounds-Ended_example =
    worker_rounds-Ended shape libc handlers (some asks_more) (outside ∷ outside ∷ []) thread
      libc-IsLibc (outside-IsKernel, (outside-IsKernel, tt)) full-IsValid
