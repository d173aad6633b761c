-- ===== src/Upcall/Loop/Round.antt =====
-- One round of `run_event_loop`: what the kernel is given, and what is queued for the next round.
use upcalls.Prelude.{
  ℕ, ◌≤◌, ◌≡◌, refl, sym, ◌∙◌, ap, ap₂, inl, inr, true, Option, none, some, List, [], ◌∷◌, ◌++◌,
  append-nil, map, arith, Outcome, done, exit, ◌>>=◌, ltb, if◌then◌else◌, Bool-cases, length, take,
  drop, replicate, length-replicate, length-append-drop, take-length-append,
}
use upcalls.Upcall.Event.{UpEvent, zeroed}
use upcalls.Upcall.Worker.{Worker, Libc, IsLibc, IsValid}
use upcalls.Upcall.Queue.{vec, requested, enqueue}
use upcalls.Upcall.Queue.Append.{view, payload_of, Queued, queued, out_of_memory, enqueue-Queued}
use upcalls.Upcall.Pool.Return.{returned}
use upcalls.Upcall.Stats.{Shape}
use upcalls.Upcall.Loop.{
  Call, Handlers, Submission, Outside, flush, submission, submitted, counted, Thread,
  receive_events, run_event_loop,
}
use upcalls.Upcall.Loop.Calls.{
  requests, givens, Starved, no_events, Dispatched, dispatched, handler_exit, no_memory, reactions,
  dispatch-Dispatched,
}

-- The event that passes the returned buffers on, if there are any.
abbrev pub vec_part : Worker → List UpEvent
vec_part w = if ltb 0 w.buf_cnt then requested (vec w.buffers_at w.buf_cnt) ∷ [] else []

-- What a worker submits: its queue, then its pool, at the address that the last event names.
pub record Sent (w : Worker) (sub : Submission) : Type 0 where
  pub queue : map payload_of sub.events ≡ view w ++ vec_part w
  pub pool : take w.buf_cnt sub.pool ≡ returned w
  pub pool_at : sub.pool_at ≡ w.buffers_at
  pub out_cnt : sub.out_cnt ≡ w.recv_cnt

-- What the code relies on: the kernel writes no more events than there is room for.
abbrev pub IsKernel : Outside → Type 0
IsKernel o =
    (sub : Submission) (events : List UpEvent)
    → o.submit sub ≡ some events
    → length events ≤ sub.out_cnt

-- Ready to submit.
record Flush (w w' : Worker) : Type 0 where
  valid : IsValid w'
  sent : Sent w (submission w')
  my_batch_slot : w'.my_batch_slot ≡ w.my_batch_slot
  proc_start : w'.proc_start ≡ w.proc_start

data Flushed (libc : Libc) (w : Worker) : Outcome Worker → Type 0 where
  flushed : {w' : Worker} → Flush w w' → Flushed libc w (done w')
  starved : Starved libc → Flushed libc w (exit 1)

module _ {libc : Libc} (c : IsLibc libc) {w : Worker} (v : IsValid w) where
  Queued-Flushed :
      {o : Outcome Worker}
      → ltb 0 w.buf_cnt ≡ true
      → Queued libc (vec w.buffers_at w.buf_cnt) w o
      → Flushed libc w o
  Queued-Flushed some_there (queued v' q same) = flushed (record {
    valid = v';
    sent = record {
      queue = rw some_there q;
      pool = ap (take w.buf_cnt) same.buffers;
      pool_at = same.buffers_at;
      out_cnt = same.recv_cnt;
    };
    my_batch_slot = same.my_batch_slot;
    proc_start = same.proc_start;
  })
  Queued-Flushed some_there (out_of_memory full e) = starved (no_events _ _ e)

  flush-Flushed : Flushed libc w (flush libc w)
  unfolding flush enqueue
  flush-Flushed = elim (Bool-cases (ltb 0 w.buf_cnt)) [
    | inl there ↦
        rw there (Queued-Flushed there (enqueue-Queued libc (vec w.buffers_at w.buf_cnt) w c v))
    | inr nothing ↦ rw nothing (
        flushed (record {
          valid = v;
          sent = record {
            queue = rw nothing (sym (append-nil (view w)));
            pool = refl;
            pool_at = refl;
            out_cnt = refl;
          };
          my_batch_slot = refl;
          proc_start = refl;
        }))
  ]

submitted-IsValid :
    (o : Outside) (es : List UpEvent) {w : Worker}
    → IsValid w
    → length es ≤ w.recv_cnt
    → IsValid (submitted o es w)
unfolding submitted
submitted-IsValid o es {w} v fits = record {
  work_room = v.work_room;
  work_fits = omega arith;
  pool_room = v.pool_room;
  pool_fits = omega arith;
  pool_some = v.pool_some;
  recv_room = length-append-drop es w.receive (omega (arith, v.recv_room)) ∙ v.recv_room;
}

counted-Flush :
    (g : Shape) (o : Outside) (n : ℕ) {u w : Worker} (slots : List ℕ)
    → Flush u w
    → counted g o n w slots ≡ counted g o n u slots
unfolding counted
counted-Flush g o n {w} slots f =
    ap₂
      (λ (m : Option ℕ) (p : ℕ).
        counted g o n (record w { my_batch_slot = m; proc_start = p }) slots)
      f.my_batch_slot f.proc_start

module _ {σ : Type 0} (g : Shape) (libc : Libc) (handlers : Handlers σ) (o : Outside) where
  -- A round that ends: the kernel took the queue and the pool, and answered by some events; the
  -- handlers of those events made the calls `cs`, and these alone are queued and pooled now.
  pub record Round (t t' : Thread σ) : Type 0 where
    pub sub : Submission
    pub sent : Sent t.worker sub
    pub events : List UpEvent
    pub cs : List Call
    pub answered : o.submit sub ≡ some events
    pub reacted : reactions handlers events t.app ≡ done (cs, t'.app)
    pub valid : IsValid t'.worker
    pub queue : view t'.worker ≡ requests cs
    pub pool : returned t'.worker ≡ givens cs
    pub recv_cnt : t'.worker.recv_cnt ≡ t.worker.recv_cnt
    pub receive : t'.worker.receive ≡ replicate t.worker.recv_cnt zeroed
    pub my_batch_slot : t'.worker.my_batch_slot ≡ t.worker.my_batch_slot
    pub slots : t'.slots ≡ counted g o (length events) t.worker t.slots

  -- How a round ends.
  pub data Rounded (t : Thread σ) : Outcome (Thread σ) → Type 0 where
    rounded : {t' : Thread σ} → Round t t' → Rounded t (done t')
    submit_failed :
        (sub : Submission) → Sent t.worker sub → o.submit sub ≡ none → Rounded t (exit 1)
    handler_exited :
        (sub : Submission) (events : List UpEvent) (code : ℕ)
        → Sent t.worker sub
        → o.submit sub ≡ some events
        → reactions handlers events t.app ≡ exit code
        → Rounded t (exit code)
    out_of_room : Starved libc → Rounded t (exit 1)

  module _ (c : IsLibc libc) (kernel : IsKernel o) (t : Thread σ) where
    module _ {es : List UpEvent} {w : Worker} (f : Flush t.worker w)
        (answered : o.submit (submission w) ≡ some es) where
      Dispatched-Rounded :
          {r : Outcome (List Call × σ)} {d : Outcome (Worker × σ)}
          → Dispatched handlers libc (submitted o es w) r d
          → reactions handlers es t.app ≡ r
          → Rounded t (
              d >>= λ (w', app'). done (record {
                worker = record w' { receive = replicate w'.recv_cnt zeroed };
                slots = counted g o (length es) w t.slots;
                app = app';
              }))
      unfolding submitted
      Dispatched-Rounded (dispatched {cs} {w'} a) e = rounded (record {
        sub = submission w;
        sent = f.sent;
        events = es;
        cs = cs;
        answered = answered;
        reacted = e;
        valid = record {
          work_room = a.valid.work_room;
          work_fits = a.valid.work_fits;
          pool_room = a.valid.pool_room;
          pool_fits = a.valid.pool_fits;
          pool_some = a.valid.pool_some;
          recv_room = length-replicate w'.recv_cnt zeroed;
        };
        queue = a.queue;
        pool = a.pool;
        recv_cnt = a.recv_cnt ∙ f.sent.out_cnt;
        receive = ap (λ n. replicate n zeroed) (a.recv_cnt ∙ f.sent.out_cnt);
        my_batch_slot = a.my_batch_slot ∙ f.my_batch_slot;
        slots = counted-Flush g o (length es) t.slots f;
      })
      Dispatched-Rounded (handler_exit code) e = handler_exited _ es code f.sent answered e
      Dispatched-Rounded (no_memory s) e = out_of_room s

      receive_events-Rounded : Rounded t (receive_events g libc handlers o es w t.slots t.app)
      unfolding receive_events submitted
      receive_events-Rounded = rw (take-length-append es (drop (length es) w.receive)) (
          Dispatched-Rounded
            (dispatch-Dispatched handlers c es t.app
              (submitted-IsValid o es f.valid (omega (arith, kernel (submission w) es answered))))
            refl)

    Flushed-Rounded :
        {d : Outcome Worker}
        → Flushed libc t.worker d
        → Rounded t (
            d >>= λ w. elim (o.submit (submission w)) [
              | none ↦ exit 1
              | some es ↦ receive_events g libc handlers o es w t.slots t.app
            ])
    Flushed-Rounded (flushed {w'} f) = go _ refl
      where
        go :
            (a : Option (List UpEvent))
            → o.submit (submission w') ≡ a
            → Rounded t (elim a [
              | none ↦ exit 1
              | some es ↦ receive_events g libc handlers o es w' t.slots t.app
            ])
        go none e = submit_failed _ f.sent e
        go (some es) e = receive_events-Rounded f e
    Flushed-Rounded (starved s) = out_of_room s

-- One round of `run_event_loop` from a valid worker submits the queue and, behind it, one UP_VEC
-- event for the buffers that were returned, if any; then exactly what the handlers of the received
-- events asked for, in order, is queued and pooled, `receive` is zero, and the counters are
-- updated. Otherwise the process exits: `upcall_submit` or `realloc` failed, or a handler exits.
pub run_event_loop-Rounded :
    {σ : Type 0} (g : Shape) (libc : Libc) (handlers : Handlers σ) (o : Outside) (t : Thread σ)
    → IsLibc libc
    → IsKernel o
    → IsValid t.worker
    → Rounded g libc handlers o t (run_event_loop g libc handlers o t)
unfolding run_event_loop
run_event_loop-Rounded g libc handlers o t c kernel v =
    Flushed-Rounded g libc handlers o c kernel t (flush-Flushed c v)
