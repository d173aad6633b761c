-- ===== src/Upcall/Loop/Turns.antt =====
-- The turns of a worker's loop, one after another.
use upcalls.Prelude.{
  ◌≡◌, refl, sym, append-nil, ◌∙◌, ap, Option, none, some, List, [], ◌∷◌, ◌++◌, Outcome, done, exit,
  ◌>>=◌,
}
use upcalls.Upcall.Worker.{Worker, Libc, IsLibc, IsValid}
use upcalls.Upcall.Stats.{Shape}
use upcalls.Upcall.Loop.{Call, Handlers, Outside, Thread, calls, worker_round, worker_rounds}
use upcalls.Upcall.Loop.Calls.{
  requests, givens, requests-append, givens-append, Called, called, calls-Called,
}
use upcalls.Upcall.Loop.Round.{IsKernel, Round, Rounded, rounded, run_event_loop-Rounded}
use upcalls.Upcall.Loop.History.{
  AreKernels, Turn, History, here, submit_failed, handler_exited, loop_fn_exited, out_of_room,
  Turned, turned, stopped, Ended, ended, exited, Turn-Conserved, Conserved-here,
}

module _ {σ : Type 0} (g : Shape) (libc : Libc) (handlers : Handlers σ)
    (loop_fn : Option (σ → Outcome (List Call × σ))) where
  module _ (c : IsLibc libc) where
    Round-Turn :
        {o : Outside} {t t' : Thread σ}
        → loop_fn ≡ none
        → Round g libc handlers o t t'
        → Turn g libc handlers loop_fn o t t'
    Round-Turn {t'} e r = record {
      sub = r.sub;
      events = r.events;
      own = r.cs;
      extra = [];
      app = t'.app;
      sent = r.sent;
      answered = r.answered;
      reacted = r.reacted;
      looped = rw e (refl, refl);
      valid = r.valid;
      queue = r.queue ∙ ap requests (sym (append-nil r.cs));
      pool = r.pool ∙ ap givens (sym (append-nil r.cs));
    }

    Called-Turned :
        {o : Outside} {t t' : Thread σ} {cs : List Call} (f : σ → Outcome (List Call × σ)) (app : σ)
        {d : Outcome Worker}
        → loop_fn ≡ some f
        → f t'.app ≡ done (cs, app)
        → Round g libc handlers o t t'
        → Called libc cs t'.worker d
        → Turned g libc handlers loop_fn o t (d >>= λ w. done (record t' { worker = w; app = app }))
    Called-Turned {t'} {cs} f app used e r (called a) = turned (record {
      sub = r.sub;
      events = r.events;
      own = r.cs;
      extra = cs;
      app = t'.app;
      sent = r.sent;
      answered = r.answered;
      reacted = r.reacted;
      looped = rw used e;
      valid = a.valid;
      queue = a.queue ∙ ap (λ x. x ++ requests cs) r.queue ∙ sym (requests-append r.cs cs);
      pool = a.pool ∙ ap (λ x. x ++ givens cs) r.pool ∙ sym (givens-append r.cs cs);
    })
    Called-Turned f app used e r (Called.starved s) = stopped (out_of_room s)

    loop_fn-Turned :
        {o : Outside} {t t' : Thread σ} (f : σ → Outcome (List Call × σ))
        (x : Outcome (List Call × σ))
        → f t'.app ≡ x
        → loop_fn ≡ some f
        → Round g libc handlers o t t'
        → Turned g libc handlers loop_fn o t (
            x >>= λ (cs, app).
            calls libc cs t'.worker >>= λ w. done (record t' { worker = w; app = app }))
    loop_fn-Turned f (done (cs, app)) e used r =
        Called-Turned f app used e r (calls-Called c cs r.valid)
    loop_fn-Turned f (exit code) e used r =
        stopped (loop_fn_exited r.sub r.events r.cs f _ code r.sent r.answered r.reacted used e)

    Rounded-Turned :
        {o : Outside} {t : Thread σ} {d : Outcome (Thread σ)}
        → Rounded g libc handlers o t d
        → (f : Thread σ → Outcome (Thread σ))
        → ((t' : Thread σ)
            → Round g libc handlers o t t'
            → Turned g libc handlers loop_fn o t (f t'))
        → Turned g libc handlers loop_fn o t (d >>= f)
    Rounded-Turned (rounded r) f next = next _ r
    Rounded-Turned (Rounded.submit_failed sub s e) f next = stopped (submit_failed sub s e)
    Rounded-Turned (Rounded.handler_exited sub es code s e r) f next =
        stopped (handler_exited sub es code s e r)
    Rounded-Turned (Rounded.out_of_room s) f next = stopped (out_of_room s)

    finish_turn :
        {o : Outside} {t t' : Thread σ}
        → (l : Option (σ → Outcome (List Call × σ))) → loop_fn ≡ l
        → Round g libc handlers o t t'
        → Turned g libc handlers loop_fn o t (elim l [
          | none ↦ done t'
          | some f ↦ f t'.app >>= λ (cs, app).
              calls libc cs t'.worker >>= λ w. done (record t' { worker = w; app = app })
        ])
    finish_turn none e r = turned (Round-Turn e r)
    finish_turn (some f) e r = loop_fn-Turned f _ refl e r

    worker_round-Turned :
        (o : Outside) (t : Thread σ)
        → IsKernel o
        → IsValid t.worker
        → Turned g libc handlers loop_fn o t (worker_round g libc handlers loop_fn o t)
    unfolding worker_round
    worker_round-Turned o t kernel v =
        Rounded-Turned (run_event_loop-Rounded g libc handlers o t c kernel v) _
          λ t' r. finish_turn loop_fn refl r

    then_Ended :
        {o : Outside} {os : List Outside} {t : Thread σ} {d : Outcome (Thread σ)}
        → Turned g libc handlers loop_fn o t d
        → (f : Thread σ → Outcome (Thread σ))
        → ((t' : Thread σ) → IsValid t'.worker → Ended g libc handlers loop_fn os t' (f t'))
        → Ended g libc handlers loop_fn (o ∷ os) t (d >>= f)
    then_Ended {o} {os} {t} (turned {t'} r) f next = go (next t' r.valid)
      where
        go :
            {d : Outcome (Thread σ)}
            → Ended g libc handlers loop_fn os t' d
            → Ended g libc handlers loop_fn (o ∷ os) t d
        go (ended h v k) = ended (History.later r h) v (Turn-Conserved g libc handlers loop_fn r k)
        go (exited before after e h k cause) =
            exited (o ∷ before) after (ap (λ x. o ∷ x) e) (History.later r h)
              (Turn-Conserved g libc handlers loop_fn r k) cause
    then_Ended {os} {t} (stopped cause) f next =
        exited [] os refl here (Conserved-here g libc handlers loop_fn t) cause

-- Take a valid worker, a kernel that gives no more events than there is room for, and a `realloc`
-- that gives what it was asked for or fails. As many turns of the worker's loop as there are answers
-- from outside end with a valid worker and one turn for each answer, in order. In each turn, the
-- queue was submitted with the pool behind it, the kernel answered by some events, and the calls
-- that their handlers make and then those that `loop_fn` makes, all of them, are exactly what is
-- queued and pooled after it. Or the process exits in the turn after such turns for the first
-- answers: there `upcall_submit` or `realloc` fails, or a handler or `loop_fn` exits, with the status
-- of the process. Over the turns, all buffers given back and all requests, by handlers and by
-- `loop_fn`, have gone to the kernel or are still waiting: each once, and in the order of the calls.
pub worker_rounds-Ended :
    {σ : Type 0} (g : Shape) (libc : Libc) (handlers : Handlers σ)
    (loop_fn : Option (σ → Outcome (List Call × σ))) (os : List Outside) (t : Thread σ)
    → IsLibc libc
    → AreKernels os
    → IsValid t.worker
    → Ended g libc handlers loop_fn os t (worker_rounds g libc handlers loop_fn os t)
unfolding worker_rounds
worker_rounds-Ended g libc handlers loop_fn [] t c kernels v =
    ended here v (Conserved-here g libc handlers loop_fn t)
worker_rounds-Ended g libc handlers loop_fn (o ∷ os) t c kernels v =
    then_Ended g libc handlers loop_fn c
      (worker_round-Turned g libc handlers loop_fn c o t kernels.0 v)
      (worker_rounds g libc handlers loop_fn os)
      λ t' v'. worker_rounds-Ended g libc handlers loop_fn os t' c kernels.1 v'
