-- ===== src/Uring/Awake.antt =====
-- No worker misses a connection that another one has accepted for it.
use upcalls.Prelude.{
  one_if, count, count-split, ℕ, zero, suc, ◌+◌, ◌≤◌, ◌<◌, ◌≡◌, inl, inr, refl, ◌∙◌, ap, subst,
  true, false, List, [], ◌∷◌, ◌++◌, arith, ℤ, ltb, Bool-cases, assign, length, Outcome, done,
  done_inj,
}
use native.Mathlib.Decide.{dec_lt}
use upcalls.Uring.{ev_read, Req, Cqe, Sys, submit, connect, first_requests, init, cause_size}
use upcalls.Uring.Count.{outstanding, accepts_for, ev_reads_of, ev_writes_to}
use upcalls.Uring.Run.{
  Kernel, accepts, accept_fails, reads, writes, wakes, signals, Step, completes, handles, takes,
  Reach, start, later,
}
use upcalls.Uring.Effects.{Handled, connected, handed, closed, moved, drains, freed, on_cqe-Handled}
use upcalls.Uring.Safety.{first_requests-count, Taken, all_taken, taken, crashed, take_newbie-Taken}

-- The reads of a worker's event descriptor that are completed and not handled.
abbrev pub woken : ℕ → Sys → ℕ
woken w s = count (λ e. ev_reads_of w e.req) s.cq

-- The signals for a worker: writes in flight, and the value of its event descriptor.
abbrev pub signalled : ℕ → Sys → ℕ
signalled w s = count (ev_writes_to w) s.flight + s.counter w

pub record IsAwake (w : ℕ) (s : Sys) : Type 0 where
  pub accepting : outstanding (accepts_for w) s ≡ 1
  pub listening : 1 + signalled w s ≤ count (ev_reads_of w) s.flight + length (s.incoming w)
  pub reading : 1 ≤ count (ev_reads_of w) s.flight + (woken w s + one_if (s.draining w))
  pub informed : 0 < length (s.incoming w) → 1 ≤ signalled w s + (woken w s + one_if (s.draining w))

flight-IsAwake :
    {w : ℕ} {s : Sys} (xs ys : List Req) (r : Req)
    → s.flight ≡ xs ++ r ∷ ys
    → IsAwake w s
    → IsAwake w (record s { flight = r ∷ (xs ++ ys) })
flight-IsAwake {w} {s} xs ys r h v = record {
  accepting = omega (arith, v.accepting, move (accepts_for w));
  listening = omega (arith, v.listening, move (ev_writes_to w), move (ev_reads_of w));
  reading = omega (arith, v.reading, move (ev_reads_of w));
  informed = λ l. omega (arith, v.informed l, move (ev_writes_to w));
}
  where
    move : (f : Req → ℕ) → count f s.flight ≡ count f (r ∷ (xs ++ ys))
    move f = ap (count f) h ∙ count-split f xs ys r

cq-IsAwake :
    {w : ℕ} {s : Sys} (xs ys : List Cqe) (e : Cqe)
    → s.cq ≡ xs ++ e ∷ ys
    → IsAwake w s
    → IsAwake w (record s { cq = e ∷ (xs ++ ys) })
cq-IsAwake {w} {s} xs ys e h v = record {
  accepting = omega (arith, v.accepting, move (accepts_for w));
  listening = v.listening;
  reading = omega (arith, v.reading, move (ev_reads_of w));
  informed = λ l. omega (arith, v.informed l, move (ev_reads_of w));
}
  where
    move :
        (f : Req → ℕ)
        → count (λ (d : Cqe). f d.req) s.cq ≡ count (λ (d : Cqe). f d.req) (e ∷ (xs ++ ys))
    move f = ap (count (λ (d : Cqe). f d.req)) h ∙ count-split (λ (d : Cqe). f d.req) xs ys e

module _ {w : ℕ} {s : Sys} {r : Req} (v : IsAwake w (record s { flight = r ∷ s.flight })) where
  open v use {accepting, listening, reading, informed}

  Kernel-IsAwake :
      {res : ℤ} {t : Sys}
      → Kernel s r res t
      → IsAwake w (record t { cq = record { req = r; res = res } ∷ t.cq })
  Kernel-IsAwake (accepts fd h l) = ground arith
  Kernel-IsAwake (accept_fails k h) = ground arith
  Kernel-IsAwake (reads i res h l) = ground arith
  Kernel-IsAwake (writes i res h l) = ground arith
  Kernel-IsAwake (wakes h l) = ground arith
  Kernel-IsAwake (signals u h) = ground arith

module _ {w : ℕ} (s : Sys) (e : Cqe) {size n : ℕ} (v : IsAwake w (record s { cq = e ∷ s.cq })) where
  open v use {accepting, listening, reading, informed}

  Handled-IsAwake : {t : Sys} → Handled size n e.req.ring e.req.io e.res s t → IsAwake w t
  Handled-IsAwake (connected fd a h k) = ground arith
  Handled-IsAwake (handed fd owner a h k l) = ground arith
  Handled-IsAwake (closed i c h k) = ground arith
  Handled-IsAwake (moved i c m k len next b h there p a l x) = ground arith
  Handled-IsAwake (drains h) = ground arith
  Handled-IsAwake (freed u h) = ground arith

module _ {w me : ℕ} {s : Sys} (v : IsAwake w s) where
  open v use {accepting, listening, reading, informed}

  all_taken-IsAwake :
      s.incoming me ≡ [] → IsAwake w (record s { draining = assign s.draining me false })
  all_taken-IsAwake h = record {
    accepting = accepting;
    listening = listening;
    reading = ground (arith, reading, listening);
    informed = λ m. ground (arith, informed);
  }

  taken-IsAwake :
      (size fd : ℕ) (rest : List ℕ)
      → s.incoming me ≡ fd ∷ rest
      → s.draining me ≡ true
      → IsAwake w (
          submit
            (record { ring = me; io = ev_read; at = 0; len = cause_size })
            (connect size me fd (record s { incoming = assign s.incoming me rest })))
  taken-IsAwake size fd rest h d = ground arith

Taken-IsAwake :
    {size w me : ℕ} {s t : Sys} (o : Outcome Sys)
    → IsAwake w s
    → s.draining me ≡ true
    → Taken size me s o
    → o ≡ done t
    → IsAwake w t
Taken-IsAwake {w = w} o v d (all_taken h) e = subst (IsAwake w) (done_inj e) (all_taken-IsAwake v h)
Taken-IsAwake {size} {w} o v d (taken fd rest h) e =
    subst (IsAwake w) (done_inj e) (taken-IsAwake v size fd rest h d)
Taken-IsAwake o v d crashed e = cc

Step-IsAwake : {size n w : ℕ} {s t : Sys} → IsAwake w s → Step size n s t → IsAwake w t
Step-IsAwake v (completes xs ys r res h k) = Kernel-IsAwake (flight-IsAwake xs ys r h v) k
Step-IsAwake {size} {n} {s = s} v (handles xs ys e env h l d w o) =
    Handled-IsAwake (record s { cq = xs ++ ys }) e (cq-IsAwake xs ys e h v)
      (on_cqe-Handled size n env e (record s { cq = xs ++ ys }) w o)
Step-IsAwake {size} {s = s} v (takes me env l d o) =
    Taken-IsAwake _ v d (take_newbie-Taken size me env s) o

first-accepts : (n w : ℕ) → count (accepts_for w) (first_requests n) ≡ one_if (ltb w n)
first-accepts zero w = ground arith
first-accepts (suc n) w = ground (arith, first-accepts n w)

first-ev_reads : (n w : ℕ) → count (ev_reads_of w) (first_requests n) ≡ one_if (ltb w n)
first-ev_reads zero w = ground arith
first-ev_reads (suc n) w = ground (arith, first-ev_reads n w)

init-IsAwake : (n w : ℕ) → w < n → IsAwake w (init n)
init-IsAwake n w l = record {
  accepting = ground (arith, first-accepts n w);
  listening =
      ground (
        arith,
        first-ev_reads n w,
        first_requests-count (ev_writes_to w) n (λ v. refl) (λ v. refl),
      );
  reading = ground (arith, first-ev_reads n w);
  informed = λ m. ground arith;
}

Reach-IsAwake : {size n : ℕ} {s : Sys} (w : ℕ) → w < n → Reach size n s → IsAwake w s
Reach-IsAwake {n = n} w l start = init-IsAwake n w l
Reach-IsAwake w l (later r st) = Step-IsAwake (Reach-IsAwake w l r) st

-- Where the news of a waiting connection is: the worker is in its loop over the list, or it has a
-- completed read of its event descriptor to handle, or a read is in flight and there is a signal for
-- it, in the descriptor's value or in a write that is in flight.
pub data Informed (w : ℕ) (s : Sys) : Type 0 where
  in_loop : s.draining w ≡ true → Informed w s
  by_completion : 1 ≤ woken w s → Informed w s
  by_signal : 1 ≤ signalled w s → 1 ≤ count (ev_reads_of w) s.flight → Informed w s

IsAwake-Informed : {w : ℕ} {s : Sys} → IsAwake w s → 0 < length (s.incoming w) → Informed w s
IsAwake-Informed {w} {s} v l = elim (Bool-cases (s.draining w)) [
  | inl d ↦ in_loop d
  | inr d ↦ elim (dec_lt 0 (woken w s)) [
    | yes k ↦ by_completion (omega arith)
    | no k ↦ by_signal (ground (arith, v.informed l)) (ground (arith, v.reading))
  ]
]

-- In every state that the server reaches, every worker has exactly one accept in flight or
-- completed; it has a read of its event descriptor in flight, or a completed one to handle, or is in
-- its loop over new connections; and whenever a connection waits on its list, then it is in that
-- loop, or has a completed read to handle, or has a read in flight with a signal for it that is there or on
-- its way. So no worker misses a connection, although an event read is only renewed for each
-- connection taken from the list.
pub no_connection_missed :
    {size n : ℕ} {s : Sys} (w : ℕ)
    → w < n
    → Reach size n s
    → (outstanding (accepts_for w) s ≡ 1)
      × (1 ≤ count (ev_reads_of w) s.flight + (woken w s + one_if (s.draining w)))
      × (0 < length (s.incoming w) → Informed w s)
no_connection_missed {s = s} w l r = (v.accepting, v.reading, IsAwake-Informed v)
  where
    v : IsAwake w s
    v = Reach-IsAwake w l r
