-- ===== src/Upcall/Loop/Calls.antt =====
-- What the handlers of a batch do to the queue and the pool.
use upcalls.Prelude.{
  ℕ, ◌≡◌, refl, sym, ◌∙◌, ap, ap₂, map, take, inl, inr, none, List, [], ◌∷◌, ◌++◌, append-nil,
  append_assoc, Outcome, done, exit, ◌>>=◌, ◌==◌, if◌then◌else◌, Bool-cases,
}
use upcalls.Upcall.Event.{null, UpEvent, Iovec}
use upcalls.Upcall.Worker.{Worker, Libc, IsLibc, IsValid}
use upcalls.Upcall.Queue.{Request, requested}
use upcalls.Upcall.Queue.Append.{view, payload_of, Queued, queued, out_of_memory, enqueue-Queued}
use upcalls.Upcall.Pool.Return.{returned, Returned, back, return_buffer-Returned}
use upcalls.Upcall.Loop.{Call, request, give_back, Handlers, call, calls, dispatch_one, dispatch}

-- The events that calls add, and the buffers that they give back, in order.
abbrev pub requests : List Call → List UpEvent
requests [] = []
requests (request r ∷ cs) = requested r ∷ requests cs
requests (give_back buf len ∷ cs) = requests cs

abbrev pub givens : List Call → List Iovec
givens [] = []
givens (request r ∷ cs) = givens cs
givens (give_back buf len ∷ cs) = record { iov_base = buf; iov_len = len } ∷ givens cs

pub requests-append : (cs ds : List Call) → requests (cs ++ ds) ≡ requests cs ++ requests ds
requests-append [] ds = refl
requests-append (request r ∷ cs) ds = ap (λ t. requested r ∷ t) (requests-append cs ds)
requests-append (give_back buf len ∷ cs) ds = requests-append cs ds

pub givens-append : (cs ds : List Call) → givens (cs ++ ds) ≡ givens cs ++ givens ds
givens-append [] ds = refl
givens-append (request r ∷ cs) ds = givens-append cs ds
givens-append (give_back buf len ∷ cs) ds =
    ap (λ t. record { iov_base = buf; iov_len = len } ∷ t) (givens-append cs ds)

-- A `realloc` that fails.
pub data Starved (libc : Libc) : Type 0 where
  no_events : (old new : ℕ) → libc.realloc_events old new ≡ none → Starved libc
  no_iovecs : (old new : ℕ) → libc.realloc_iovecs old new ≡ none → Starved libc

-- `w'` is `w` after the calls `cs`.
pub record After (cs : List Call) (w w' : Worker) : Type 0 where
  pub valid : IsValid w'
  pub queue : view w' ≡ view w ++ requests cs
  pub pool : returned w' ≡ returned w ++ givens cs
  pub receive : w'.receive ≡ w.receive
  pub recv_cnt : w'.recv_cnt ≡ w.recv_cnt
  pub my_batch_slot : w'.my_batch_slot ≡ w.my_batch_slot
  pub proc_start : w'.proc_start ≡ w.proc_start

pub data Called (libc : Libc) (cs : List Call) (w : Worker) : Outcome Worker → Type 0 where
  called : {w' : Worker} → After cs w w' → Called libc cs w (done w')
  starved : Starved libc → Called libc cs w (exit 1)

After-nil : {w : Worker} → IsValid w → After [] w w
After-nil {w} v = record {
  valid = v;
  queue = sym (append-nil (view w));
  pool = sym (append-nil (returned w));
  receive = refl;
  recv_cnt = refl;
  my_batch_slot = refl;
  proc_start = refl;
}

pub After-append :
    {cs ds : List Call} {u v w : Worker} → After cs u v → After ds v w → After (cs ++ ds) u w
After-append {cs} {ds} {u} a b = record {
  valid = b.valid;
  queue =
      b.queue
      ∙ ap (λ t. t ++ requests ds) a.queue
      ∙ append_assoc (view u) (requests cs) (requests ds)
      ∙ ap (λ t. view u ++ t) (sym (requests-append cs ds));
  pool =
      b.pool
      ∙ ap (λ t. t ++ givens ds) a.pool
      ∙ append_assoc (returned u) (givens cs) (givens ds)
      ∙ ap (λ t. returned u ++ t) (sym (givens-append cs ds));
  receive = b.receive ∙ a.receive;
  recv_cnt = b.recv_cnt ∙ a.recv_cnt;
  my_batch_slot = b.my_batch_slot ∙ a.my_batch_slot;
  proc_start = b.proc_start ∙ a.proc_start;
}

Queued-Called :
    {libc : Libc} (r : Request) {w : Worker} (o : Outcome Worker)
    → Queued libc r w o
    → Called libc (request r ∷ []) w o
Queued-Called r {w} (done w') (queued v q same) = called (record {
  valid = v;
  queue = q;
  pool = ap₂ take same.buf_cnt same.buffers ∙ sym (append-nil (returned w));
  receive = same.receive;
  recv_cnt = same.recv_cnt;
  my_batch_slot = same.my_batch_slot;
  proc_start = same.proc_start;
})
Queued-Called r (exit c) (out_of_memory full e) = starved (no_events _ _ e)

Returned-Called :
    {libc : Libc} (b : Iovec) {w : Worker} (o : Outcome Worker)
    → Returned libc b w o
    → Called libc (give_back b.iov_base b.iov_len ∷ []) w o
Returned-Called b {w} (done w') (back v p same) = called (record {
  valid = v;
  queue = ap (map payload_of) (ap₂ take same.work_cnt same.work) ∙ sym (append-nil (view w));
  pool = p;
  receive = same.receive;
  recv_cnt = same.recv_cnt;
  my_batch_slot = same.my_batch_slot;
  proc_start = same.proc_start;
})
Returned-Called b (exit c) (Returned.out_of_memory full e) = starved (no_iovecs _ _ e)

module _ {libc : Libc} (c : IsLibc libc) where
  call-Called : (k : Call) {w : Worker} → IsValid w → Called libc (k ∷ []) w (call libc k w)
  unfolding call
  call-Called (request r) {w} v = Queued-Called r _ (enqueue-Queued libc r w c v)
  call-Called (give_back buf len) {w} v =
      Returned-Called (record { iov_base = buf; iov_len = len }) _
        (return_buffer-Returned libc _ w c v)

  After-Called :
      {cs ds : List Call} {w w' : Worker} (o : Outcome Worker)
      → After cs w w'
      → Called libc ds w' o
      → Called libc (cs ++ ds) w o
  After-Called (done u) a (called b) = called (After-append a b)
  After-Called (exit e) a (starved s) = starved s

  then_Called :
      {cs ds : List Call} {w : Worker} (o : Outcome Worker) (f : Worker → Outcome Worker)
      → Called libc cs w o
      → ((w' : Worker) → IsValid w' → Called libc ds w' (f w'))
      → Called libc (cs ++ ds) w (o >>= f)
  then_Called (done w') f (called a) next = After-Called (f w') a (next w' a.valid)
  then_Called (exit e) f (starved s) next = starved s

  pub calls-Called : (cs : List Call) {w : Worker} → IsValid w → Called libc cs w (calls libc cs w)
  unfolding calls
  calls-Called [] v = called (After-nil v)
  calls-Called (k ∷ cs) {w} v =
      then_Called (call libc k w) (calls libc cs) (call-Called k v) (λ w' v'. calls-Called cs v')

module _ {σ : Type 0} (handlers : Handlers σ) where
  abbrev pub react : UpEvent → σ → Outcome (List Call × σ)
  react e s = if e.work_fn == null then done ([], s) else handlers e.work_fn e s

  -- The calls that the handlers of some events make, all in order, and the last state of the
  -- program: an event with no handler makes none.
  unfoldable pub reactions : List UpEvent → σ → Outcome (List Call × σ)
  reactions [] s = done ([], s)
  reactions (e ∷ es) s = do (cs, s') ← react e s; (ds, s'') ← reactions es s'; done (cs ++ ds, s'')

  -- How the loop over the received events ends, if the handlers together react by `r`.
  pub data Dispatched (libc : Libc) (w : Worker)
      : Outcome (List Call × σ) → Outcome (Worker × σ) → Type 0 where
    dispatched :
        {cs : List Call} {s : σ} {w' : Worker}
        → After cs w w'
        → Dispatched libc w (done (cs, s)) (done (w', s))
    handler_exit : (code : ℕ) → Dispatched libc w (exit code) (exit code)
    no_memory : {r : Outcome (List Call × σ)} → Starved libc → Dispatched libc w r (exit 1)

  module _ {libc : Libc} (c : IsLibc libc) where
    Called-Dispatched :
        {cs : List Call} {w : Worker} (s : σ) (o : Outcome Worker)
        → Called libc cs w o
        → Dispatched libc w (done (cs, s)) (o >>= λ w'. done (w', s))
    Called-Dispatched s (done w') (called a) = dispatched a
    Called-Dispatched s (exit e) (starved f) = no_memory f

    handler-Dispatched :
        {w : Worker} (r : Outcome (List Call × σ))
        → IsValid w
        → Dispatched libc w r (r >>= λ (cs, s). calls libc cs w >>= λ w'. done (w', s))
    handler-Dispatched (done (cs, s)) v = Called-Dispatched s _ (calls-Called c cs v)
    handler-Dispatched (exit e) v = handler_exit e

    dispatch_one-Dispatched :
        (e : UpEvent) {w : Worker} (s : σ)
        → IsValid w
        → Dispatched libc w (react e s) (dispatch_one libc handlers e (w, s))
    unfolding dispatch_one
    dispatch_one-Dispatched e {w} s v = elim (Bool-cases (e.work_fn == null)) [
      | inl none_there ↦ rw none_there (dispatched (After-nil v))
      | inr there ↦ rw there (handler-Dispatched (handlers e.work_fn e s) v)
    ]

    After-Dispatched :
        {cs : List Call} {w w' : Worker} {r : Outcome (List Call × σ)} {o : Outcome (Worker × σ)}
        → After cs w w'
        → Dispatched libc w' r o
        → Dispatched libc w (r >>= λ (ds, s). done (cs ++ ds, s)) o
    After-Dispatched a (dispatched b) = dispatched (After-append a b)
    After-Dispatched a (handler_exit code) = handler_exit code
    After-Dispatched a (no_memory f) = no_memory f

    then_Dispatched :
        {w : Worker} {r : Outcome (List Call × σ)} {o : Outcome (Worker × σ)}
        (more : σ → Outcome (List Call × σ)) (rest : Worker × σ → Outcome (Worker × σ))
        → Dispatched libc w r o
        → ((w' : Worker) (s : σ) → IsValid w' → Dispatched libc w' (more s) (rest (w', s)))
        → Dispatched libc w
            (r >>= λ (cs, s). more s >>= λ (ds, s'). done (cs ++ ds, s'))
            (o >>= rest)
    then_Dispatched more rest (dispatched a) next = After-Dispatched a (next _ _ a.valid)
    then_Dispatched more rest (handler_exit code) next = handler_exit code
    then_Dispatched more rest (no_memory f) next = no_memory f

    -- From a valid worker, the loop over the received events makes all the calls that the handlers
    -- of these events ask for, in order, and skips an event with no handler: the queue and the pool
    -- grow by exactly these calls, the program's state is the last handler's, and the worker stays
    -- valid. If a handler exits, the loop exits with its code; it also exits if `realloc` fails.
    pub dispatch-Dispatched :
        (es : List UpEvent) {w : Worker} (s : σ)
        → IsValid w
        → Dispatched libc w (reactions es s) (dispatch libc handlers es (w, s))
    unfolding dispatch reactions
    dispatch-Dispatched [] s v = dispatched (After-nil v)
    dispatch-Dispatched (e ∷ es) s v =
        then_Dispatched (reactions es) (dispatch libc handlers es) (dispatch_one-Dispatched e s v)
          (λ w' s' v'. dispatch-Dispatched es s' v')
