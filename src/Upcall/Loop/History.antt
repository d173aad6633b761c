-- ===== src/Upcall/Loop/History.antt =====
-- Over any number of rounds no request and no buffer is lost, doubled or reordered.
use upcalls.Prelude.{
  ℕ, ◌≡◌, refl, sym, ◌∙◌, ap, ap₂, inl, inr, Bool, true, false, Option, none, some, List, [], ◌∷◌,
  ◌++◌, append-nil, append_assoc, map, Outcome, done, exit, ltb, if◌then◌else◌, Bool-cases, take,
}
use upcalls.Upcall.Event.{UpEvent, Iovec, Action, up_vec}
use upcalls.Upcall.Worker.{Worker, Libc, IsValid}
use upcalls.Upcall.Queue.{requested}
use upcalls.Upcall.Queue.Append.{view, payload_of}
use upcalls.Upcall.Pool.Return.{returned}
use upcalls.Upcall.Stats.{Shape}
use upcalls.Upcall.Loop.{Call, Handlers, Submission, Outside, Thread}
use upcalls.Upcall.Loop.Calls.{reactions, Starved, requests, givens, requests-append, givens-append}
use upcalls.Upcall.Loop.Round.{vec_part, Sent, IsKernel}

-- The events other than UP_VEC.
abbrev pub is_vec : Action → Bool
is_vec up_vec = true
is_vec _ = false

abbrev pub requests_of : List UpEvent → List UpEvent
requests_of [] = []
requests_of (e ∷ es) = if is_vec e.type then requests_of es else e ∷ requests_of es

requests_of-append :
    (xs ys : List UpEvent) → requests_of (xs ++ ys) ≡ requests_of xs ++ requests_of ys
requests_of-append [] ys = refl
requests_of-append (x ∷ xs) ys = elim (Bool-cases (is_vec x.type)) [
  | inl e ↦ rw e (requests_of-append xs ys)
  | inr e ↦ rw e (ap (λ t. x ∷ t) (requests_of-append xs ys))
]

requests_of-vec_part : (w : Worker) → requests_of (vec_part w) ≡ []
unfolding requested
requests_of-vec_part w = elim (Bool-cases (ltb 0 w.buf_cnt)) [ inl e ↦ rw e | inr e ↦ rw e ]

-- The condition on the kernel, for each round.
abbrev pub AreKernels : List Outside → Type 0
AreKernels [] = Unit {0}
AreKernels (o ∷ os) = IsKernel o × AreKernels os

module _ {σ : Type 0} (g : Shape) (libc : Libc) (handlers : Handlers σ)
    (loop_fn : Option (σ → Outcome (List Call × σ))) where
  -- What `loop_fn`, if there is one, asks for in the state `app`, and the state that it leaves.
  abbrev pub Loops : Option (σ → Outcome (List Call × σ)) → σ → List Call → σ → Type 0
  Loops none app extra app' = (extra ≡ []) × (app' ≡ app)
  Loops (some f) app extra app' = f app ≡ done (extra, app')

  -- A turn of the loop with the answers `o`: the kernel took what was submitted and answered by
  -- `events`; the handlers of those events made the calls `own`, then `loop_fn` made the calls
  -- `extra`, and these are what is queued and pooled now.
  pub record Turn (o : Outside) (t t' : Thread σ) : Type 0 where
    pub sub : Submission
    pub events : List UpEvent
    pub own : List Call
    pub extra : List Call
    pub app : σ
    pub sent : Sent t.worker sub
    pub answered : o.submit sub ≡ some events
    pub reacted : reactions handlers events t.app ≡ done (own, app)
    pub looped : Loops loop_fn app extra t'.app
    pub valid : IsValid t'.worker
    pub queue : view t'.worker ≡ requests (own ++ extra)
    pub pool : returned t'.worker ≡ givens (own ++ extra)

  -- The turns from the first state to the last, one for each answer from outside, with all that was
  -- submitted, the buffers that the kernel was handed, and all the calls made.
  pub data History
      : List Outside → Thread σ → Thread σ → List UpEvent → List Iovec → List Call → Type 0 where
    here : {t : Thread σ} → History [] t t [] [] []
    later :
        {o : Outside} {os : List Outside} {t u v : Thread σ} {sent : List UpEvent}
        {handed : List Iovec} {made : List Call}
        → (r : Turn o t u) → History os u v sent handed made
        → History
            (o ∷ os)
            t
            v
            (map payload_of r.sub.events ++ sent)
            (take t.worker.buf_cnt r.sub.pool ++ handed)
            ((r.own ++ r.extra) ++ made)

  -- Why the process exits in the turn that starts at `t` with the answers `o`: `upcall_submit`
  -- failed, a handler or `loop_fn` called `exit`, or `realloc` failed.
  pub data Cause (o : Outside) (t : Thread σ) : ℕ → Type 0 where
    submit_failed : (sub : Submission) → Sent t.worker sub → o.submit sub ≡ none → Cause o t 1
    handler_exited :
        (sub : Submission) (es : List UpEvent) (code : ℕ)
        → Sent t.worker sub
        → o.submit sub ≡ some es
        → reactions handlers es t.app ≡ exit code
        → Cause o t code
    loop_fn_exited :
        (sub : Submission) (es : List UpEvent) (own : List Call) (f : σ → Outcome (List Call × σ))
        (app : σ) (code : ℕ)
        → Sent t.worker sub
        → o.submit sub ≡ some es
        → reactions handlers es t.app ≡ done (own, app)
        → loop_fn ≡ some f
        → f app ≡ exit code
        → Cause o t code
    out_of_room : Starved libc → Cause o t 1

  pub data Turned (o : Outside) (t : Thread σ) : Outcome (Thread σ) → Type 0 where
    turned : {t' : Thread σ} → Turn o t t' → Turned o t (done t')
    stopped : {code : ℕ} → Cause o t code → Turned o t (exit code)

  -- What a history keeps: the buffers that the kernel was handed and those still in the pool are
  -- those that were in the pool and those given back, in order; and so for the requests.
  pub record Conserved (t t' : Thread σ) (sent : List UpEvent) (handed : List Iovec)
      (made : List Call) : Type 0 where
    pub buffers : handed ++ returned t'.worker ≡ returned t.worker ++ givens made
    pub events :
        requests_of sent ++ requests_of (view t'.worker)
        ≡ requests_of (view t.worker) ++ requests_of (requests made)

  -- How as many turns as there are answers end: with such a history of all of them, or with an exit
  -- of the process in the turn after such a history of the first ones.
  pub data Ended (os : List Outside) (t : Thread σ) : Outcome (Thread σ) → Type 0 where
    ended :
        {t' : Thread σ} {sent : List UpEvent} {handed : List Iovec} {made : List Call}
        → History os t t' sent handed made
        → IsValid t'.worker
        → Conserved t t' sent handed made
        → Ended os t (done t')
    exited :
        (before after : List Outside) {o : Outside} {u : Thread σ} {sent : List UpEvent}
        {handed : List Iovec} {made : List Call} {code : ℕ}
        → os ≡ before ++ (o ∷ after)
        → History before t u sent handed made
        → Conserved t u sent handed made
        → Cause o u code
        → Ended os t (exit code)

  pub Turn-Conserved :
      {o : Outside} {t u v : Thread σ} {sent : List UpEvent} {handed : List Iovec}
      {made : List Call} (r : Turn o t u)
      → Conserved u v sent handed made
      → Conserved t v
          (map payload_of r.sub.events ++ sent)
          (take t.worker.buf_cnt r.sub.pool ++ handed)
          ((r.own ++ r.extra) ++ made)
  Turn-Conserved {t} {u} {v} {sent} {handed} {made} r k = record {
    buffers =
        append_assoc (take t.worker.buf_cnt r.sub.pool) handed (returned v.worker)
        ∙ ap₂ ◌++◌ r.sent.pool (
            k.buffers
            ∙ ap (λ x. x ++ givens made) r.pool
            ∙ sym (givens-append (r.own ++ r.extra) made));
    events =
        ap (λ x. x ++ requests_of (view v.worker))
          (requests_of-append (map payload_of r.sub.events) sent)
        ∙ append_assoc (requests_of (map payload_of r.sub.events)) (requests_of sent)
            (requests_of (view v.worker))
        ∙ ap₂ ◌++◌ first (
            k.events
            ∙ ap (λ x. requests_of x ++ requests_of (requests made)) r.queue
            ∙ sym (requests_of-append (requests (r.own ++ r.extra)) (requests made))
            ∙ ap requests_of (sym (requests-append (r.own ++ r.extra) made)));
  }
    where
      first : requests_of (map payload_of r.sub.events) ≡ requests_of (view t.worker)
      first =
          ap requests_of r.sent.queue
          ∙ requests_of-append (view t.worker) (vec_part t.worker)
          ∙ ap (λ x. requests_of (view t.worker) ++ x) (requests_of-vec_part t.worker)
          ∙ append-nil (requests_of (view t.worker))

  pub Conserved-here : (t : Thread σ) → Conserved t t [] [] []
  Conserved-here t = record {
    buffers = sym (append-nil (returned t.worker));
    events = sym (append-nil (requests_of (view t.worker)));
  }
