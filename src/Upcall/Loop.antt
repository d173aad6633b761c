-- ===== src/Upcall/Loop.antt =====
-- libupcall/upcall.c: the event loop of a worker, `run_event_loop`.
pub mod Calls
pub mod Round
pub mod History
pub mod Turns
use upcalls.Prelude.{
  ℕ, ◌+◌, Option, none, some, List, [], ◌∷◌, ◌++◌, Outcome, done, exit, ◌>>=◌, ◌==◌, ltb,
  if◌then◌else◌, length, take, drop, replicate,
}
use upcalls.Upcall.Event.{Ptr, null, UpEvent, zeroed, Iovec}
use upcalls.Upcall.Worker.{Worker, Libc}
use upcalls.Upcall.Queue.{Request, enqueue, add_buffers}
use upcalls.Upcall.Queue.Append.{pending}
use upcalls.Upcall.Pool.{return_buffer}
use upcalls.Upcall.Stats.{Shape, count_utime, count_submit}

-- What a handler can ask of the library.
pub data Call : Type 0 where
  request : Request → Call
  give_back : Ptr → ℕ → Call

-- The functions that `work_fn` points to: from the state `σ` of the program, the calls that the
-- handler makes, in order, and the new state. The calls return nothing, so the state of the
-- library has no part in what a handler does.
abbrev pub Handlers : Type 0 → Type 0
Handlers σ = Ptr → UpEvent → σ → Outcome (List Call × σ)

unfoldable pub call : Libc → Call → Worker → Outcome Worker
call libc (request r) w = enqueue libc r w
call libc (give_back buf len) w = return_buffer libc buf len w

unfoldable pub calls : Libc → List Call → Worker → Outcome Worker
unfolding call
calls libc [] w = done w
calls libc (c ∷ cs) w = do w' ← call libc c w; calls libc cs w'

-- What `upcall_submit` is given: `in_cnt` events, room for `out_cnt`, and the memory that an UP_VEC
-- event points to, `buffers` at its address.
pub record Submission : Type 0 where
  pub events : List UpEvent
  pub out_cnt : ℕ
  pub pool_at : Ptr
  pub pool : List Iovec

-- What comes from outside in one round: the answer of `upcall_submit`, `none` for a negative one,
-- and the clock before and after it.
pub record Outside : Type 0 where
  pub submit : Submission → Option (List UpEvent)
  pub t0 : ℕ
  pub t1 : ℕ

module _ {σ : Type 0} (libc : Libc) (handlers : Handlers σ) where
  -- `if (receive[i].work_fn) receive[i].work_fn(&receive[i]);`
  unfoldable pub dispatch_one : UpEvent → Worker × σ → Outcome (Worker × σ)
  unfolding calls
  dispatch_one e (w, s) =
      if e.work_fn == null
      then done (w, s)
      else do (cs, s') ← handlers e.work_fn e s; w' ← calls libc cs w; done (w', s')

  -- The loop over the received events.
  unfoldable pub dispatch : List UpEvent → Worker × σ → Outcome (Worker × σ)
  unfolding dispatch_one
  dispatch [] st = done st
  dispatch (e ∷ es) st = do st' ← dispatch_one e st; dispatch es st'

-- `if (buf_cnt > 0) add_buffers(buffers, buf_cnt);`
unfoldable pub flush : Libc → Worker → Outcome Worker
flush libc w = if ltb 0 w.buf_cnt then add_buffers libc w.buffers_at w.buf_cnt w else done w

abbrev pub submission : Worker → Submission
submission w = record {
  events = pending w;
  out_cnt = w.recv_cnt;
  pool_at = w.buffers_at;
  pool = w.buffers;
}

-- The worker once `upcall_submit` has filled `receive`; with the statistics on, the clock is kept.
unfoldable pub submitted : Outside → List UpEvent → Worker → Worker
submitted o events w = record w {
  receive = events ++ drop (length events) w.receive;
  buf_cnt = 0;
  work_cnt = 0;
  proc_start = elim w.my_batch_slot [ none ↦ w.proc_start | some _ ↦ o.t1 ];
}

-- The counters of a round, if the statistics are on.
unfoldable pub counted : Shape → Outside → ℕ → Worker → List ℕ → List ℕ
counted g o ret w slots = elim w.my_batch_slot [
  | none ↦ slots
  | some slot ↦ count_submit g slot o.t0 o.t1 ret (count_utime g slot w.proc_start o.t0 slots)
]

-- A worker with the array of statistics and the state of the program.
pub record Thread (σ : Type 0) : Type 0 where
  pub worker : Worker
  pub slots : List ℕ
  pub app : σ

module _ {σ : Type 0} (g : Shape) (libc : Libc) (handlers : Handlers σ) where
  -- From the return of `upcall_submit` to the end of the round.
  unfoldable pub receive_events : Outside → List UpEvent → Worker → List ℕ → σ → Outcome (Thread σ)
  unfolding submitted counted dispatch
  receive_events o events w slots app = do
    let got = submitted o events w
    (w', app') ← dispatch libc handlers (take (length events) got.receive) (got, app)
    done (record {
      worker = record w' { receive = replicate w'.recv_cnt zeroed };
      slots = counted g o (length events) w slots;
      app = app';
    })

  -- One round of `run_event_loop`.
  unfoldable pub run_event_loop : Outside → Thread σ → Outcome (Thread σ)
  unfolding flush receive_events
  run_event_loop o t = do
    w ← flush libc t.worker
    elim (o.submit (submission w)) [
      | none ↦ exit 1
      | some events ↦ receive_events o events w t.slots t.app
    ]

  -- The body of the `for (;;)` in `upcall_worker_fn`: a round, then `g_loop_fn` if there is one.
  unfoldable pub worker_round :
      Option (σ → Outcome (List Call × σ)) → Outside → Thread σ → Outcome (Thread σ)
  worker_round loop_fn o t = do
    t' ← run_event_loop o t
    elim loop_fn [
      | none ↦ done t'
      | some f ↦ do
        (cs, app) ← f t'.app
        w ← calls libc cs t'.worker
        done (record t' { worker = w; app = app })
    ]

  -- As many turns of that loop as there are answers from outside.
  unfoldable pub worker_rounds :
      Option (σ → Outcome (List Call × σ)) → List Outside → Thread σ → Outcome (Thread σ)
  worker_rounds loop_fn [] t = done t
  worker_rounds loop_fn (o ∷ os) t = do t' ← worker_round loop_fn o t; worker_rounds loop_fn os t'
