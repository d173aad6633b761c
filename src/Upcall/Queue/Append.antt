-- ===== src/Upcall/Queue/Append.antt =====
-- A call adds one event at the end of the queue, and touches nothing else.
use upcalls.Prelude.{
  ◌+◌, ◌<◌, ◌≡◌, refl, ◌∙◌, inl, inr, Option, none, some, List, [], ◌∷◌, ◌++◌, map, map-append, ap,
  arith, pos, Outcome, done, exit, ◌>>=◌, ◌==◌, Bool-cases, ==→eq, take, length-append, length-set,
  take-append, take_one_more-set,
}
use upcalls.Upcall.Event.{null, UpEvent, Action, up_write, up_vec}
use upcalls.Upcall.Worker.{Worker, Libc, IsLibc, IsValid}
use upcalls.Upcall.Queue.{
  evts, expand_queue, make_room, put, Request, read, write, accept, vec, close, enqueue, requested,
}

-- The events that the next `upcall_submit` passes on, oldest first.
abbrev pub pending : Worker → List UpEvent
pending w = take w.work_cnt w.work

-- An event without what its action does not use, which the code does not always clear.
abbrev pub payload : Action → UpEvent → UpEvent
payload up_write e = record e { result = pos 0 }
payload up_vec e = record e { result = pos 0 }
payload _ e = record e { result = pos 0; buf = null; len = 0 }

abbrev pub payload_of : UpEvent → UpEvent
payload_of e = payload e.type e

-- The queue as the kernel reads it.
abbrev pub view : Worker → List UpEvent
view w = map payload_of (pending w)

-- `w'` differs from `w` in the queue alone.
pub record SameRest (w w' : Worker) : Type 0 where
  pub buffers : w'.buffers ≡ w.buffers
  pub buffers_at : w'.buffers_at ≡ w.buffers_at
  pub buf_cnt : w'.buf_cnt ≡ w.buf_cnt
  pub buf_max : w'.buf_max ≡ w.buf_max
  pub receive : w'.receive ≡ w.receive
  pub recv_cnt : w'.recv_cnt ≡ w.recv_cnt
  pub my_batch_slot : w'.my_batch_slot ≡ w.my_batch_slot
  pub proc_start : w'.proc_start ≡ w.proc_start

-- Room for one more event, with the queue as it was.
record Roomy (w w' : Worker) : Type 0 where
  valid : IsValid w'
  room : w'.work_cnt < w'.work_max
  same : pending w' ≡ pending w
  pool : SameRest w w'

-- How `make_room` ends.
data Made (libc : Libc) (w : Worker) : Outcome Worker → Type 0 where
  roomy : {w' : Worker} → Roomy w w' → Made libc w (done w')
  full :
      w.work_cnt ≡ w.work_max
      → libc.realloc_events w.work_max (w.work_max + evts) ≡ none
      → Made libc w (exit 1)

module _ {libc : Libc} (c : IsLibc libc) {w : Worker} (v : IsValid w) where
  expand_queue-Made :
      (o : Option (List UpEvent))
      → libc.realloc_events w.work_max (w.work_max + evts) ≡ o
      → w.work_cnt ≡ w.work_max
      → Made libc w (expand_queue libc w)
  unfolding expand_queue
  expand_queue-Made none e h = rw (e, expand_queue) (full h e)
  expand_queue-Made (some fresh) e h =
      rw (e, expand_queue)
        (roomy (record {
          valid = ground (arith, length-append w.work fresh, c.events_room _ _ _ (omega arith) e);
          room = ground (arith, length-append w.work fresh, c.events_room _ _ _ (omega arith) e);
          same = take-append w.work_cnt w.work fresh (omega arith);
          pool = ground arith;
        }))

  make_room-Made : Made libc w (make_room libc w)
  unfolding make_room
  make_room-Made = elim (Bool-cases (w.work_cnt == w.work_max)) [
    | inl e ↦ rw (e) (expand_queue-Made _ refl (==→eq _ _ e))
    | inr e ↦
        rw (e) (roomy (record { valid = v; room = ground arith; same = refl; pool = ground arith }))
  ]

-- How a call that adds the request `r` ends: its event stands behind those that were pending, or
-- `realloc` has failed at a full queue and the process exits.
pub data Queued (libc : Libc) (r : Request) (w : Worker) : Outcome Worker → Type 0 where
  queued :
      {w' : Worker}
      → IsValid w'
      → view w' ≡ view w ++ (requested r ∷ [])
      → SameRest w w'
      → Queued libc r w (done w')
  out_of_memory :
      w.work_cnt ≡ w.work_max
      → libc.realloc_events w.work_max (w.work_max + evts) ≡ none
      → Queued libc r w (exit 1)

put-IsValid : (e : UpEvent) {w : Worker} → IsValid w → w.work_cnt < w.work_max → IsValid (put e w)
put-IsValid e {w} v h = ground (arith, length-set w.work w.work_cnt e)

put-view :
    (e : UpEvent) {w : Worker}
    → IsValid w
    → w.work_cnt < w.work_max
    → view (put e w) ≡ view w ++ (payload_of e ∷ [])
put-view e {w} v h =
    ap (map payload_of) (take_one_more-set w.work w.work_cnt e (omega arith))
    ∙ map-append payload_of (pending w) (e ∷ [])

module _ {libc : Libc} (r : Request) (f : Worker → UpEvent)
    (fits : (w : Worker) → payload_of (f w) ≡ requested r) {w : Worker} where
  Made-Queued :
      (o : Outcome Worker) → Made libc w o → Queued libc r w (o >>= λ w'. done (put (f w') w'))
  Made-Queued (done w') (roomy m) =
      queued (put-IsValid (f w') m.valid m.room)
        (put-view (f w') m.valid m.room ∙ cc (m.same, fits w')) (ground arith)
  Made-Queued (exit c) (full h e) = out_of_memory h e

-- Every call that adds to a valid queue puts exactly its own event behind those that are pending,
-- or exits because the queue is full and `realloc` fails.
pub enqueue-Queued :
    (libc : Libc) (r : Request) (w : Worker)
    → IsLibc libc
    → IsValid w
    → Queued libc r w (enqueue libc r w)
unfolding enqueue requested
enqueue-Queued libc (read fd fn) w c v =
    Made-Queued (read fd fn) _ (λ w'. refl) _ (make_room-Made c v)
enqueue-Queued libc (write fd buf len fn) w c v =
    Made-Queued (write fd buf len fn) _ (λ w'. refl) _ (make_room-Made c v)
enqueue-Queued libc (accept fd fn) w c v =
    Made-Queued (accept fd fn) _ (λ w'. refl) _ (make_room-Made c v)
enqueue-Queued libc (vec bufs cnt) w c v =
    Made-Queued (vec bufs cnt) _ (λ w'. refl) _ (make_room-Made c v)
enqueue-Queued libc (close fd) w c v = Made-Queued (close fd) _ (λ w'. refl) _ (make_room-Made c v)
