-- ===== src/Uring/Safety.antt =====
-- Every step of the workers and the kernel keeps the connections served.
use upcalls.Prelude.{
  one_if, count, ℕ, zero, suc, ◌+◌, ◌<◌, ◌≡◌, refl, ap, Bool, false, List, [], ◌∷◌, ◌++◌, arith,
  pos, Outcome, done, done_inj, exit, subst, ◌==◌, if-cases, assign, sum, sum-change, sum-zero,
}
use upcalls.Echo.{segv}
use upcalls.Uring.{
  accept, ev_read, Req, Cqe, Sys, Env, submit, connect, take_first, take_newbie, first_requests,
  init, cause_size,
}
use upcalls.Uring.Count.{on_conn, accepted, same}
use upcalls.Uring.Run.{Step, completes, handles, takes, Reach, start, later}
use upcalls.Uring.Effects.{Handled, connected, handed, closed, moved, drains, freed, on_cqe-Handled}
use upcalls.Uring.Served.{
  waiting, IsServed, flight-IsServed, cq-IsServed, Kernel-IsServed, connected-IsServed,
  handed-IsServed, closed-IsServed, moved-IsServed,
}

-- A request that is not about a connection changes nothing.
submit-IsServed :
    {size n : ℕ} {s : Sys} (r : Req)
    → ((i : ℕ) → on_conn i r ≡ 0)
    → IsServed size n s
    → IsServed size n (submit r s)
submit-IsServed {size} r h v = record {
  places = v.places;
  requests = λ i. omega (arith, v.requests i, h i);
  own_fd = v.own_fd;
  in_buffer = v.in_buffer;
  aims = λ i c m. ground (arith, v.aims i c m, h i);
  fitting = v.fitting;
}

drop_cqe-IsServed :
    {size n : ℕ} {s : Sys} (e : Cqe) (d : ℕ → Bool)
    → ((i : ℕ) → on_conn i e.req ≡ 0)
    → ((i : ℕ) → accepted i e ≡ 0)
    → IsServed size n (record s { cq = e ∷ s.cq })
    → IsServed size n (record s { draining = d })
drop_cqe-IsServed {size} e d h a v = record {
  places = λ i. omega (arith, v.places i, a i);
  requests = λ i. omega (arith, v.requests i, h i);
  own_fd = v.own_fd;
  in_buffer = v.in_buffer;
  aims = λ i c m. ground (arith, v.aims i c m, h i);
  fitting = omega (arith, v.fitting);
}

Handled-IsServed :
    {size n : ℕ} (s : Sys) (e : Cqe) {t : Sys}
    → 0 < size
    → IsServed size n (record s { cq = e ∷ s.cq })
    → Handled size n e.req.ring e.req.io e.res s t
    → IsServed size n t
Handled-IsServed s e z v (connected fd a h k) =
    submit-IsServed _ (λ i. refl) (connected-IsServed s e z v e.req.ring fd a h k)
Handled-IsServed s e z v (handed fd owner a h k l) =
    submit-IsServed _ (λ i. refl) (handed-IsServed s e z v e.req.ring fd owner a h k l)
Handled-IsServed s e z v (closed i c h k) = closed-IsServed s e z v e.req.ring i c h k
Handled-IsServed s e z v (moved i c m k len next b h there p a l x) =
    moved-IsServed s e z v e.req.ring i m k len c next b h there p a l x
Handled-IsServed s e z v (drains h) = drop_cqe-IsServed e _ (λ i. rw (h) refl) (λ i. rw (h) refl) v
Handled-IsServed s e z v (freed w h) =
    drop_cqe-IsServed e s.draining (λ i. rw (h) refl) (λ i. rw (h) refl) v

-- A new connection as its worker takes it from the list, as if it were just accepted.
abbrev as_accepted : (me fd : ℕ) → Cqe
as_accepted me fd = record {
  req = record { ring = me; io = accept; at = 0; len = 0 };
  res = pos fd;
}

popped-IsServed :
    {size n : ℕ} {s : Sys} (me fd : ℕ) (rest : List ℕ)
    → me < n
    → s.incoming me ≡ fd ∷ rest
    → IsServed size n s
    → IsServed size n
        (record s { incoming = assign s.incoming me rest; cq = as_accepted me fd ∷ s.cq })
popped-IsServed {size} {n} {s} me fd rest l h v = record {
  places = λ i. omega (arith, v.places i, listed i);
  requests = λ i. omega (arith, v.requests i);
  own_fd = v.own_fd;
  in_buffer = v.in_buffer;
  aims = λ i c m. ground (arith, v.aims i c m);
  fitting = omega (arith, v.fitting);
}
  where
    listed :
        (i : ℕ)
        → waiting n i s
          ≡ one_if (fd == i) + sum n (λ w. count (same i) (assign s.incoming me rest w))
    listed i = ground (
      arith,
      ap (count (same i)) h,
      sum-change n (λ w. count (same i) (s.incoming w))
          (λ w. count (same i) (assign s.incoming me rest w)) me l (λ j d. ground arith),
    )

-- What the loop over the new connections has done.
pub data Taken (size me : ℕ) (s : Sys) : Outcome Sys → Type 0 where
  all_taken :
      s.incoming me ≡ []
      → Taken size me s (done (record s { draining = assign s.draining me false }))
  taken :
      (fd : ℕ) (rest : List ℕ)
      → s.incoming me ≡ fd ∷ rest
      → Taken size me s (
          done (
            submit
              (record { ring = me; io = ev_read; at = 0; len = cause_size })
              (connect size me fd (record s { incoming = assign s.incoming me rest }))))
  crashed : Taken size me s (exit segv)

pub take_newbie-Taken :
    (size me : ℕ) (env : Env) (s : Sys) → Taken size me s (take_newbie size me env s)
unfolding take_newbie
take_newbie-Taken size me env s = go (s.incoming me) refl
  where
    go : (l : List ℕ) → s.incoming me ≡ l → Taken size me s (take_first size me env l s)
    go [] h = all_taken h
    go (fd ∷ rest) h = if-cases (Taken size me s) env.caches (λ c. taken fd rest h) (λ c. crashed)

Taken-IsServed :
    {size n me : ℕ} {s : Sys} {t : Sys} (o : Outcome Sys)
    → 0 < size
    → me < n
    → IsServed size n s
    → Taken size me s o
    → o ≡ done t
    → IsServed size n t
Taken-IsServed {size} {n} {me} {s} o z l v (all_taken h) e =
    subst (IsServed size n) (done_inj e) (record {
      places = v.places;
      requests = v.requests;
      own_fd = v.own_fd;
      in_buffer = v.in_buffer;
      aims = v.aims;
      fitting = v.fitting;
    })
Taken-IsServed {size} {n} {me} {s} o z l v (taken fd rest h) e =
    subst (IsServed size n) (done_inj e) (
      submit-IsServed _ (λ i. refl)
        (connected-IsServed (record s { incoming = assign s.incoming me rest }) (as_accepted me fd)
          z (popped-IsServed me fd rest l h v) me fd s.accept_count refl refl))
Taken-IsServed o z l v crashed e = cc

Step-IsServed :
    {size n : ℕ} {s t : Sys} → 0 < size → IsServed size n s → Step size n s t → IsServed size n t
Step-IsServed z v (completes xs ys r res h k) = Kernel-IsServed z (flight-IsServed xs ys r h v) k
Step-IsServed {size} {n} {s} z v (handles xs ys e env h l d w o) =
    Handled-IsServed (record s { cq = xs ++ ys }) e z (cq-IsServed xs ys e h v)
      (on_cqe-Handled size n env e (record s { cq = xs ++ ys }) w o)
Step-IsServed {size} {n} {s} z v (takes me env l d o) =
    Taken-IsServed _ z l v (take_newbie-Taken size me env s) o

pub first_requests-count :
    (f : Req → ℕ) (n : ℕ)
    → ((w : ℕ) → f (record { ring = w; io = ev_read; at = 0; len = cause_size }) ≡ 0)
    → ((w : ℕ) → f (record { ring = w; io = accept; at = 0; len = 0 }) ≡ 0)
    → count f (first_requests n) ≡ 0
first_requests-count f zero h k = refl
first_requests-count f (suc n) h k = omega (arith, h n, k n, first_requests-count f n h k)

init-IsServed : (size n : ℕ) → IsServed size n (init n)
init-IsServed size n = record {
  places = λ i. omega (arith, sum-zero n);
  requests = λ i. omega (arith, first_requests-count (on_conn i) n (λ w. refl) (λ w. refl));
  own_fd = λ i c h. cc;
  in_buffer = λ i c h. cc;
  aims = λ i c h. cc;
  fitting = refl;
}

-- In every state that the server reaches: a descriptor that is open is either a connection that some
-- worker has a completion for, or on exactly one list of new connections once, or in `conns`, and no
-- closed one is in any of these places; a connection in `conns` has exactly one read or write in
-- flight or completed, and no other descriptor has any; that one is for all the bytes from the cursor
-- to the end of the buffer, and the cursor is inside the buffer; and no completion that waits
-- moved more bytes than that.
pub Reach-IsServed : {size n : ℕ} {s : Sys} → 0 < size → Reach size n s → IsServed size n s
Reach-IsServed {size} {n} z start = init-IsServed size n
Reach-IsServed z (later r st) = Step-IsServed z (Reach-IsServed z r) st
