-- ===== src/Uring/Served.antt =====
-- Every open connection has exactly one request, for the part of the buffer that its cursor asks for.
use upcalls.Prelude.{
  one_if, present, count, count-split, ℕ, suc, ◌+◌, ◌-◌, ◌≤◌, ◌<◌, ◌≡◌, ◌≢◌, ◌⊎◌, refl, sym, ◌∙◌,
  ap, Bool, true, some, List, ◌∷◌, ◌++◌, arith, ℤ, pos, negsuc, ◌==◌, assign, sum, sum-change,
}
use upcalls.Uring.{
  Io, accept, Req, Cqe, Connection, Sys, submit, on_close, connect, hand_over, move_cursor,
}
use upcalls.Uring.Count.{
  on_conn, aimed, accepted, overlong, same, outstanding, outstanding-le, aimed-le, accepted_io,
  overlong_io,
}
use upcalls.Uring.Run.{Kernel, accepts, accept_fails, reads, writes, wakes, signals}
use upcalls.Uring.Effects.{IsSock}

-- How often the connection `i` is on a list of new connections.
abbrev pub waiting : ℕ → ℕ → Sys → ℕ
waiting n i s = sum n (λ w. count (same i) (s.incoming w))

pub record IsServed (size n : ℕ) (s : Sys) : Type 0 where
  pub places :
      (i : ℕ)
      → count (accepted i) s.cq + (waiting n i s + present (s.conns i)) ≡ one_if (s.opened i)
  pub requests : (i : ℕ) → outstanding (on_conn i) s ≡ present (s.conns i)
  pub own_fd : (i : ℕ) (c : Connection) → s.conns i ≡ some c → c.fd ≡ i
  pub in_buffer : (i : ℕ) (c : Connection) → s.conns i ≡ some c → c.cursor < size
  pub aims :
      (i : ℕ) (c : Connection) → s.conns i ≡ some c → outstanding (aimed size i c.cursor) s ≡ 1
  pub fitting : count overlong s.cq ≡ 0

pub flight-IsServed :
    {size n : ℕ} {s : Sys} (xs ys : List Req) (r : Req)
    → s.flight ≡ xs ++ r ∷ ys
    → IsServed size n s
    → IsServed size n (record s { flight = r ∷ (xs ++ ys) })
flight-IsServed {size} {n} {s} xs ys r e v = record {
  places = v.places;
  requests = λ i. sym (out (on_conn i)) ∙ v.requests i;
  own_fd = v.own_fd;
  in_buffer = v.in_buffer;
  aims = λ i c h. sym (out (aimed size i c.cursor)) ∙ v.aims i c h;
  fitting = v.fitting;
}
  where
    out : (f : Req → ℕ) → outstanding f s ≡ outstanding f (record s { flight = r ∷ (xs ++ ys) })
    out f = omega (arith, ap (count f) e, count-split f xs ys r)

pub cq-IsServed :
    {size n : ℕ} {s : Sys} (xs ys : List Cqe) (e : Cqe)
    → s.cq ≡ xs ++ e ∷ ys
    → IsServed size n s
    → IsServed size n (record s { cq = e ∷ (xs ++ ys) })
cq-IsServed {size} {n} {s} xs ys e h v = record {
  places = λ i. omega (arith, v.places i, move (accepted i));
  requests = λ i. omega (arith, v.requests i, move (λ (e : Cqe). on_conn i e.req));
  own_fd = v.own_fd;
  in_buffer = v.in_buffer;
  aims = λ i c k. omega (arith, v.aims i c k, move (λ (e : Cqe). aimed size i c.cursor e.req));
  fitting = omega (arith, v.fitting, move overlong);
}
  where
    move : (f : Cqe → ℕ) → count f s.cq ≡ count f (e ∷ (xs ++ ys))
    move f = ap (count f) h ∙ count-split f xs ys e

module _ {size n : ℕ} {s : Sys} {r : Req} (z : 0 < size)
    (v : IsServed size n (record s { flight = r ∷ s.flight })) where
  open v use {places, requests, own_fd, in_buffer, aims, fitting}

  completed-IsServed :
      (res : ℤ) (o : ℕ → Bool) (k : ℕ → ℕ)
      → ((i : ℕ) → accepted_io i r.io res + one_if (s.opened i) ≡ one_if (o i))
      → overlong_io r.io r.len res ≡ 0
      → IsServed size n
          (record s { opened = o; counter = k; cq = record { req = r; res = res } ∷ s.cq })
  completed-IsServed res o k h l = record {
    places = λ i. omega (arith, places i, h i);
    requests = λ i. omega (arith, requests i);
    own_fd = own_fd;
    in_buffer = in_buffer;
    aims = λ i c m. omega (arith, aims i c m);
    fitting = omega (arith, fitting, l);
  }

  pub Kernel-IsServed :
      {res : ℤ} {t : Sys}
      → Kernel s r res t
      → IsServed size n (record t { cq = record { req = r; res = res } ∷ t.cq })
  Kernel-IsServed (accepts fd h l) =
      completed-IsServed (pos fd) (assign s.opened fd true) s.counter (λ i. ground arith)
        (rw (h) refl)
  Kernel-IsServed (accept_fails k h) =
      completed-IsServed (negsuc k) s.opened s.counter (λ i. ground arith) (rw (h) refl)
  Kernel-IsServed (reads j res h m) =
      completed-IsServed res s.opened s.counter (λ i. ground arith) (ground arith)
  Kernel-IsServed (writes j res h m) =
      completed-IsServed res s.opened s.counter (λ i. ground arith) (ground arith)
  Kernel-IsServed (wakes h l) =
      completed-IsServed (pos 8) s.opened (assign s.counter r.ring 0) (λ i. ground arith)
        (rw (h) refl)
  Kernel-IsServed (signals w h) =
      completed-IsServed (pos 8) s.opened (assign s.counter w (s.counter w + 1)) (λ i. ground arith)
        (rw (h) refl)

-- What a worker does for the completion `e`.
module _ {size n : ℕ} (s : Sys) (e : Cqe) (z : 0 < size)
    (v : IsServed size n (record s { cq = e ∷ s.cq })) where
  open v use {places, requests, own_fd, in_buffer, aims, fitting}

  pub connected-IsServed :
      (me fd : ℕ) (a : ℕ → ℕ)
      → e.req.io ≡ accept
      → e.res ≡ pos fd
      → IsServed size n (record (connect size me fd s) { accept_count = a })
  connected-IsServed me fd a h k = record {
    places = λ i. ground (arith, places i);
    requests = λ i. ground (arith, places i, requests i);
    own_fd = λ i c m. ground (arith, own_fd i c);
    in_buffer = λ i c m. ground (arith, in_buffer i c);
    aims = λ i c m. ground (
      arith,
      aims i c,
      requests i,
      places i,
      outstanding-le (aimed size i 0) (on_conn i) (aimed-le size i 0) s,
    );
    fitting = omega (arith, fitting);
  }

  pub handed-IsServed :
      (me fd owner : ℕ) (a : ℕ → ℕ)
      → e.req.io ≡ accept
      → e.res ≡ pos fd
      → owner < n
      → IsServed size n (record (hand_over me owner fd s) { accept_count = a })
  handed-IsServed me fd owner a h k l = record {
    places = λ i. ground (arith, places i, listed i);
    requests = λ i. ground (arith, requests i);
    own_fd = own_fd;
    in_buffer = in_buffer;
    aims = λ i c m. ground (arith, aims i c m);
    fitting = omega (arith, fitting);
  }
    where
      listed : (i : ℕ) → waiting n i (hand_over me owner fd s) ≡ one_if (fd == i) + waiting n i s
      listed i = ground (
        arith,
        sum-change n (λ w. count (same i) (s.incoming w))
            (λ w. count (same i) (assign s.incoming owner (fd ∷ s.incoming owner) w)) owner l
            (λ j d. ground arith),
      )

  pub closed-IsServed :
      (me i : ℕ) (c : Connection)
      → IsSock i e.req.io
      → s.conns i ≡ some c
      → IsServed size n (on_close me c s)
  closed-IsServed me i c h k = record {
    places = λ j. ground (arith, places j, own_fd i c k);
    requests = λ j. ground (arith, requests j, own_fd i c k);
    own_fd = λ j d m. ground (arith, own_fd j d);
    in_buffer = λ j d m. ground (arith, in_buffer j d);
    aims = λ j d m. ground (arith, aims j d, own_fd i c k);
    fitting = omega (arith, fitting);
  }

  pub moved-IsServed :
      (me i m k len : ℕ) (c : Connection) (next : Io) (b : ℕ → ℕ)
      → IsSock i e.req.io
      → s.conns i ≡ some c
      → e.res ≡ pos (suc m)
      → (k ≡ 0) ⊎ ((k ≡ c.cursor + suc m) × (k ≢ size))
      → len ≡ size - k
      → IsSock c.fd next
      → IsServed size n
          (record (submit
            (record { ring = me; io = next; at = k; len = len })
            (move_cursor k c s)) { conn_count = b })
  moved-IsServed me i m k len c next b h there p a l x = record {
    places = λ j. ground (arith, places j, own);
    requests = λ j. ground (arith, requests j, own);
    own_fd = λ j d y. ground (arith, own_fd j d);
    in_buffer = λ j d y. ground (arith, in_buffer j d, inside);
    aims = λ j d y. ground (arith, aims j d, own, inside, unaimed k);
    fitting = omega (arith, fitting);
  }
    where
      own : c.fd ≡ i
      own = own_fd i c there

      alone : outstanding (on_conn i) s ≡ 0
      alone = ground (arith, requests i)

      unaimed : (j : ℕ) → outstanding (aimed size i j) s ≡ 0
      unaimed j =
          omega (arith, alone, outstanding-le (aimed size i j) (on_conn i) (aimed-le size i j) s)

      was_aimed : aimed size i c.cursor e.req ≡ 1
      was_aimed = omega (arith, aims i c there, unaimed c.cursor)

      ends : e.req.len ≡ size - c.cursor
      ends = ground (arith, was_aimed)

      fits : suc m ≤ e.req.len
      fits = ground (arith, fitting)

      inside : k < size
      inside = ground (arith, ends, fits, in_buffer i c there)
