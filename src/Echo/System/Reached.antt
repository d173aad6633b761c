-- ===== src/Echo/System/Reached.antt =====
-- The requests of the upcall server in the states that a worker reaches.
use upcalls.Prelude.{
  ℕ, ◌≡◌, ◌≢◌, refl, sym, ◌∙◌, ap, subst, Bool, List, ◌∷◌, ◌++◌, arith, ℤ, pos, negsuc, done, eq→==,
}
use upcalls.Upcall.Event.{Ptr, null, UpEvent}
use upcalls.Upcall.Queue.{Request, read, write, accept, vec, close, requested}
use upcalls.Upcall.Loop.{Call}
use upcalls.Upcall.Loop.Calls.{react}
use upcalls.Echo.{Server, Setting, my_write, my_read, echo_handlers}
use upcalls.Echo.Message.{IsSetting}
use upcalls.Echo.System.{Sys, asks, Completes, mark, step, init, Reach, start, later}
use upcalls.Echo.System.Effects.{Served, Opened, my_accept-Opened, my_write-Served, my_read-Served}
use upcalls.Echo.System.Served.{
  IsAttended, react-accept, react-read, react-write, Served-IsAttended, Opened-IsAttended,
  pending-IsAttended,
}

mark-accept : (z fd : ℤ) (fn : Ptr) (f : ℕ → Bool) → mark z (accept fd fn) f ≡ f
mark-accept (pos k) fd fn f = refl
mark-accept (negsuc k) fd fn f = refl

module _ (g : Setting) (d : IsSetting g) (a : g.my_accept_at ≢ null) where
  handled :
      (s : Sys) (r : Request) (rest : List Request) (e : UpEvent) (cs : List Call) (t : Server)
      → IsAttended g (record s { pending = r ∷ rest })
      → Completes s r e
      → react (echo_handlers g) e s.server ≡ done (cs, t)
      → IsAttended g
          (record { server = t; pending = asks cs ++ rest; stalled = mark e.result r s.stalled })
  unfolding requested
  handled s (accept fd fn) rest e cs t v c h =
      subst (λ f. IsAttended g (record { server = t; pending = asks cs ++ rest; stalled = f }))
        (sym (mark-accept e.result fd fn s.stalled))
        (Opened-IsAttended s fd rest
          (subst (λ p. IsAttended g (record s { pending = accept fd p ∷ rest })) fn_is v) e.fd
          e.result cs t (λ i m. c.unused fd fn i refl m)
          (subst (Opened g e.fd s.server e.result)
            (sym (react-accept g d a e s.server (c.same_fn ∙ fn_is)) ∙ h)
            (my_accept-Opened g e s.server)))
    where
      fn_is : fn ≡ g.my_accept_at
      fn_is = ground (arith, v.known)
  handled s (read (pos i) fn) rest e cs t v c h =
      Served-IsAttended s (read (pos i) fn) rest i v (λ j. refl) refl e.result cs t _
        (λ k m. ap (λ z. mark z (read (pos i) fn) s.stalled) m)
        (λ k m. ap (λ z. mark z (read (pos i) fn) s.stalled) m)
        (subst (Served g i s.server e.result)
          (ap (λ x. my_read g (record e { fd = x }) s.server) (sym c.same_fd)
            ∙ sym (react-read g d a e s.server (c.same_fn ∙ fn_is))
            ∙ h)
          (my_read-Served g e s.server i c.same_fd))
    where
      fn_is : fn ≡ g.my_read_at
      fn_is = ground (arith, v.known)
  handled s (write (pos i) buf len fn) rest e cs t v c h =
      Served-IsAttended s (write (pos i) buf len fn) rest i v (λ j. refl) refl e.result cs t _
        (λ k m. ap (λ z. mark z (write (pos i) buf len fn) s.stalled) m)
        (λ k m. ap (λ z. mark z (write (pos i) buf len fn) s.stalled) m)
        (subst (Served g i s.server e.result)
          (ap (λ x. my_write g (record e { fd = x }) s.server) (sym c.same_fd)
            ∙ sym (react-write g d a e s.server (c.same_fn ∙ fn_is))
            ∙ h)
          (my_write-Served g e s.server i c.same_fd))
    where
      fn_is : fn ≡ g.my_write_at
      fn_is = ground (arith, v.known)
  handled s (read (negsuc k) fn) rest e cs t v c h = absurd (omega (arith, v.known))
  handled s (write (negsuc k) buf len fn) rest e cs t v c h = absurd (omega (arith, v.known))
  handled s (vec buf len) rest e cs t v c h = absurd (omega (arith, v.known))
  handled s (close fd) rest e cs t v c h = absurd (omega (arith, v.known))

  init-IsAttended : (listen : ℤ) → IsAttended g (init g listen)
  init-IsAttended listen = record {
    requests = λ i. refl;
    own_fd = λ i c h. cc;
    listening = refl;
    known = rw (eq→== g.my_accept_at g.my_accept_at refl) refl;
  }

  -- Take any setting whose three handlers have different addresses that are not null, and any state
  -- that a worker of the upcall server reaches in it, whatever the results of its requests. An open
  -- connection then has exactly one read or write that is queued or in the kernel, or else its last
  -- one failed and it has none. A descriptor that is not open has none. There is exactly one accept.
  -- Every request is one that the server asks for. Each connection stands at the index of its
  -- descriptor.
  pub Reach-IsAttended : {listen : ℤ} {s : Sys} → Reach g listen s → IsAttended g s
  Reach-IsAttended {listen} start = init-IsAttended listen
  Reach-IsAttended (later {s} r (step before after req e cs t h c k)) =
      handled s req (before ++ after) e cs t
        (pending-IsAttended before after req h (Reach-IsAttended r)) c k
