-- ===== src/Echo/System/Served.antt =====
-- The requests of the upcall server's connections, and how its handlers change them.
use upcalls.Prelude.{
  ℕ, ◌+◌, ◌≡◌, ◌≢◌, refl, ◌∙◌, ap, Bool, true, none, some, List, ◌∷◌, ◌++◌, arith, ℤ, pos, negsuc,
  is_neg, done, ◌==◌, if◌then◌else◌, ne→==, eq→==, assign, one_if, present, count, count-split,
}
use upcalls.Upcall.Event.{null, UpEvent}
use upcalls.Upcall.Queue.{Request, read, write, accept}
use upcalls.Upcall.Loop.{Call}
use upcalls.Upcall.Loop.Calls.{react}
use upcalls.Echo.{Conn, Server, Setting, my_accept, my_write, my_read, echo_handlers}
use upcalls.Echo.Message.{IsSetting}
use upcalls.Echo.System.{Sys, asks}
use upcalls.Echo.System.Effects.{
  IsNext, reads_on, writes_on, Served, no_fd, closes, goes_on, stalls_read, stalls_write, Opened,
  no_conn, opens,
}

abbrev is_at : ℕ → ℤ → ℕ
is_at i (pos j) = one_if (j == i)
is_at i (negsuc k) = 0

-- Whether a request reads or writes the connection `i`.
abbrev pub on_conn : ℕ → Request → ℕ
on_conn i (read fd fn) = is_at i fd
on_conn i (write fd buf len fn) = is_at i fd
on_conn i _ = 0

abbrev pub on_listen : Request → ℕ
on_listen (accept fd fn) = 1
on_listen _ = 0

-- Whether the server does not ask for it.
abbrev pub unknown : Setting → Request → ℕ
unknown g (read (pos i) fn) = if fn == g.my_read_at then 0 else 1
unknown g (write (pos i) buf len fn) = if fn == g.my_write_at then 0 else 1
unknown g (accept fd fn) = if fn == g.my_accept_at then 0 else 1
unknown g _ = 1

pub record IsAttended (g : Setting) (s : Sys) : Type 0 where
  pub requests :
      (i : ℕ) → count (on_conn i) s.pending + one_if (s.stalled i) ≡ present (s.server.conns i)
  pub own_fd : (i : ℕ) (c : Conn) → s.server.conns i ≡ some c → c.fd ≡ pos i
  pub listening : count on_listen s.pending ≡ 1
  pub known : count (unknown g) s.pending ≡ 0

module _ (g : Setting) (d : IsSetting g) (a : g.my_accept_at ≢ null) where
  pub react-accept :
      (e : UpEvent) (s : Server)
      → e.work_fn ≡ g.my_accept_at
      → react (echo_handlers g) e s ≡ my_accept g e s
  unfolding echo_handlers
  react-accept e s h = rw (h, ne→== _ _ a, eq→== g.my_accept_at g.my_accept_at refl) refl

  pub react-read :
      (e : UpEvent) (s : Server)
      → e.work_fn ≡ g.my_read_at
      → react (echo_handlers g) e s ≡ my_read g e s
  unfolding echo_handlers
  react-read e s h =
      rw (h, ne→== _ _ d.read_there, ne→== _ _ d.read_accept, eq→== g.my_read_at g.my_read_at refl)
        refl

  pub react-write :
      (e : UpEvent) (s : Server)
      → e.work_fn ≡ g.my_write_at
      → react (echo_handlers g) e s ≡ my_write g e s
  unfolding echo_handlers
  react-write e s h =
      rw
        (
          h,
          ne→== _ _ d.write_there,
          ne→== _ _ d.write_accept,
          ne→== _ _ d.write_read,
          eq→== g.my_write_at g.my_write_at refl,
        )
        refl

next-on_conn :
    (g : Setting) (i j : ℕ) (fd : ℤ) (r : Request)
    → fd ≡ pos i
    → IsNext g fd r
    → on_conn j r ≡ one_if (i == j)
next-on_conn g i j fd r h reads_on = rw (h) refl
next-on_conn g i j fd r h (writes_on buf len) = rw (h) refl

next-known :
    (g : Setting) (i : ℕ) (fd : ℤ) (r : Request)
    → fd ≡ pos i
    → IsNext g fd r
    → (unknown g r ≡ 0) × (on_listen r ≡ 0)
next-known g i fd r h reads_on = (rw (h, eq→== g.my_read_at g.my_read_at refl) refl, refl)
next-known g i fd r h (writes_on buf len) =
    (rw (h, eq→== g.my_write_at g.my_write_at refl) refl, refl)

-- A handler has run for the request `r` of the connection `i`.
module _ {g : Setting} (s : Sys) (r : Request) (rest : List Request) (i : ℕ)
    (v : IsAttended g (record s { pending = r ∷ rest }))
    (mine : (j : ℕ) → on_conn j r ≡ one_if (i == j)) (no_accept : on_listen r ≡ 0) where
  open v use {requests, own_fd, listening, known}

  pub Served-IsAttended :
      (result : ℤ) (cs : List Call) (t : Server) (f : ℕ → Bool)
      → ((k : ℕ) → result ≡ pos k → f ≡ s.stalled)
      → ((k : ℕ) → result ≡ negsuc k → f ≡ assign s.stalled i true)
      → Served g i s.server result (done (cs, t))
      → IsAttended g (record { server = t; pending = asks cs ++ rest; stalled = f })
  Served-IsAttended result cs t f p n (no_fd c h b) = absurd (has_fd (own_fd i c h) b)
    where
      has_fd : {fd : ℤ} → fd ≡ pos i → is_neg fd ≢ true
      has_fd e b = ground arith
  Served-IsAttended result cs t f p n (closes c h z) = record {
    requests = λ j.
        ground (arith, requests i, requests j, mine i, mine j, own_fd i c h, ap (λ q. q j) (p 0 z));
    own_fd = λ j c' h'. ground (arith, own_fd j c', own_fd i c h);
    listening = omega (arith, listening, no_accept);
    known = omega (arith, known);
  }
  Served-IsAttended result cs t f p n (goes_on c c' ds r' h e (k, z) q x) = record {
    requests = λ j. ground (
      arith,
      requests j,
      requests i,
      mine j,
      next-on_conn g i j c.fd r' (own_fd i c h) x,
      ap (λ y. count (on_conn j) (y ++ rest)) q,
      ap (λ y. y j) (p k z),
    );
    own_fd = λ j d m. ground (arith, own_fd j d, own_fd i c h);
    listening = omega (
      arith,
      listening,
      no_accept,
      (next-known g i c.fd r' (own_fd i c h) x).1,
      ap (λ y. count on_listen (y ++ rest)) q,
    );
    known = omega (
      arith,
      known,
      (next-known g i c.fd r' (own_fd i c h) x).0,
      ap (λ y. count (unknown g) (y ++ rest)) q,
    );
  }
  Served-IsAttended result cs t f p n (stalls_read c c' h e (k, z)) = record {
    requests = λ j. ground (arith, requests j, requests i, mine i, mine j, ap (λ y. y j) (n k z));
    own_fd = λ j d m. ground (arith, own_fd j d, own_fd i c h);
    listening = omega (arith, listening, no_accept);
    known = omega (arith, known);
  }
  Served-IsAttended result cs t f p n (stalls_write c h (k, z)) = record {
    requests = λ j. ground (arith, requests j, requests i, mine i, mine j, ap (λ y. y j) (n k z));
    own_fd = own_fd;
    listening = omega (arith, listening, no_accept);
    known = omega (arith, known);
  }

-- A connection was accepted, or not.
module _ {g : Setting} (s : Sys) (listen : ℤ) (rest : List Request)
    (v : IsAttended g (record s { pending = accept listen g.my_accept_at ∷ rest })) where
  open v use {requests, own_fd, listening, known}

  pub Opened-IsAttended :
      (listen' result : ℤ) (cs : List Call) (t : Server)
      → ((i : ℕ) → result ≡ pos i → s.server.conns i ≡ none)
      → Opened g listen' s.server result (done (cs, t))
      → IsAttended g (record { server = t; pending = asks cs ++ rest; stalled = s.stalled })
  Opened-IsAttended listen' result cs t u (no_conn k h) = record {
    requests = requests;
    own_fd = own_fd;
    listening = listening;
    known = ground (arith, known);
  }
  Opened-IsAttended listen' result cs t u (opens i c h e) = record {
    requests = λ j. ground (arith, requests j, u i h);
    own_fd = λ j d m. ground (arith, own_fd j d, e);
    listening = omega (arith, listening);
    known = ground (arith, known, eq→== g.my_read_at g.my_read_at refl);
  }

pub pending-IsAttended :
    {g : Setting} {s : Sys} (before after : List Request) (r : Request)
    → s.pending ≡ before ++ r ∷ after
    → IsAttended g s
    → IsAttended g (record s { pending = r ∷ (before ++ after) })
pending-IsAttended {g} {s} before after r h v = record {
  requests = λ i. omega (arith, v.requests i, move (on_conn i));
  own_fd = v.own_fd;
  listening = omega (arith, v.listening, move on_listen);
  known = omega (arith, v.known, move (unknown g));
}
  where
    move : (f : Request → ℕ) → count f s.pending ≡ count f (r ∷ (before ++ after))
    move f = ap (count f) h ∙ count-split f before after r
