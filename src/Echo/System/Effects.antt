-- ===== src/Echo/System/Effects.antt =====
-- What the handlers of the upcall server do, by their effect on one connection.
use upcalls.Prelude.{
  ℕ, zero, suc, ◌+◌, ◌≡◌, refl, subst, true, Option, none, some, List, [], ◌∷◌, ℤ, pos, negsuc,
  is_neg, Outcome, done, exit, ltb, if◌then◌else◌, if-cases,
}
use upcalls.Upcall.Event.{Ptr, UpEvent}
use upcalls.Upcall.Queue.{Request, read, write, accept}
use upcalls.Upcall.Loop.{Call, request}
use upcalls.Echo.{
  Conn, Server, set_conn, on_close, segv, with_conn, Setting, new_conn, count_accept, accepted,
  my_accept, wrote, written, my_write, count_event, stored, read_or_write, after_read, my_read,
}
use upcalls.Echo.System.{asks}

-- The next request for a connection.
pub data IsNext (g : Setting) (fd : ℤ) : Request → Type 0 where
  reads_on : IsNext g fd (read fd g.my_read_at)
  writes_on : (buf : Ptr) (len : ℕ) → IsNext g fd (write fd buf len g.my_write_at)

-- A handler of a read or a write on the connection at `i`.
pub data Served (g : Setting) (i : ℕ) (s : Server) (result : ℤ)
    : Outcome (List Call × Server) → Type 0 where
  null_conn : s.conns i ≡ none → Served g i s result (exit segv)
  no_fd : (c : Conn) → s.conns i ≡ some c → is_neg c.fd ≡ true → Served g i s result (done ([], s))
  closes :
      (c : Conn)
      → s.conns i ≡ some c
      → result ≡ pos 0
      → Served g i s result (done ([], on_close c s))
  goes_on :
      (c c' : Conn) (cs : List Call) (r : Request)
      → s.conns i ≡ some c
      → c'.fd ≡ c.fd
      → ((k : ℕ) × (result ≡ pos k))
      → asks cs ≡ r ∷ []
      → IsNext g c.fd r
      → Served g i s result (done (cs, set_conn i (some c') s))
  stalls_read :
      (c c' : Conn)
      → s.conns i ≡ some c
      → c'.fd ≡ c.fd
      → ((k : ℕ) × (result ≡ negsuc k))
      → Served g i s result (done ([], set_conn i (some c') s))
  stalls_write :
      (c : Conn)
      → s.conns i ≡ some c
      → ((k : ℕ) × (result ≡ negsuc k))
      → Served g i s result (done ([], s))

-- The handler of an accept.
pub data Opened (g : Setting) (listen : ℤ) (s : Server) (result : ℤ)
    : Outcome (List Call × Server) → Type 0 where
  no_conn :
      (k : ℕ)
      → result ≡ negsuc k
      → Opened g listen s result (done (request (accept listen g.my_accept_at) ∷ [], s))
  no_memory : Opened g listen s result (exit segv)
  opens :
      (i : ℕ) (c : Conn)
      → result ≡ pos i
      → c.fd ≡ pos i
      → Opened g listen s result (
          done (
            request (read (pos i) g.my_read_at) ∷ request (accept listen g.my_accept_at) ∷ [],
            set_conn i (some c) (count_accept g s),
          ))

module _ (g : Setting) where
  pub my_accept-Opened : (e : UpEvent) (s : Server) → Opened g e.fd s e.result (my_accept g e s)
  unfolding my_accept
  my_accept-Opened e s = go e.result refl
    where
      memory :
          (i : ℕ) (o : Option Ptr)
          → e.result ≡ pos i
          → Opened g e.fd s e.result (accepted g (record e { result = pos i }) s o)
      memory i none h = no_memory
      memory i (some at) h = opens i (new_conn g (pos i) at) h refl

      go :
          (z : ℤ)
          → e.result ≡ z
          → Opened g e.fd s e.result (
              if is_neg z
              then done (request (accept e.fd g.my_accept_at) ∷ [], s)
              else accepted g (record e { result = z }) s (g.cache_alloc z))
      go (negsuc k) h = no_conn k h
      go (pos i) h = memory i (g.cache_alloc (pos i)) h

  wrote-Served :
      (e : UpEvent) (s : Server) (c : Conn) (i n : ℕ)
      → s.conns i ≡ some c
      → e.fd ≡ pos i
      → Served g i s (pos (suc n)) (wrote g (record e { fd = pos i }) s c (suc n))
  wrote-Served e s c i n h f =
      if-cases (Served g i s (pos (suc n))) (ltb (suc n + c.cursor) g.msg_size)
        (λ b. goes_on c _ _ _ h refl (suc n, refl) refl (writes_on _ _))
        (λ b. goes_on c _ _ _ h refl (suc n, refl) refl reads_on)

  pub my_write-Served :
      (e : UpEvent) (s : Server) (i : ℕ)
      → e.fd ≡ pos i
      → Served g i s e.result (my_write g (record e { fd = pos i }) s)
  unfolding my_write
  my_write-Served e s i f = go (s.conns i) refl e.result
    where
      go :
          (o : Option Conn)
          → s.conns i ≡ o
          → (z : ℤ) → Served g i s z (with_conn o (λ c. written g (record e { fd = pos i }) s c z))
      go none h z = null_conn h
      go (some c) h (pos zero) = closes c h refl
      go (some c) h (pos (suc n)) = wrote-Served e s c i n h f
      go (some c) h (negsuc k) = stalls_write c h (k, refl)

  read_or_write-Served :
      (e : UpEvent) (s : Server) (c c' : Conn) (i n : ℕ)
      → s.conns i ≡ some c
      → c'.fd ≡ c.fd
      → Served g i s (pos (suc n)) (read_or_write g (record e { fd = pos i }) s c')
  read_or_write-Served e s c c' i n h f =
      if-cases (Served g i s (pos (suc n))) (ltb c'.cursor g.msg_size)
        (λ b.
          goes_on c _ _ _ h f (suc n, refl) refl
            (subst (λ x. IsNext g x (read c'.fd g.my_read_at)) f reads_on))
        (λ b.
          goes_on c _ _ _ h f (suc n, refl) refl
            (subst (λ x. IsNext g x (write c'.fd c'.buffer_at g.msg_size g.my_write_at)) f
              (writes_on _ _)))

  pub my_read-Served :
      (e : UpEvent) (s : Server) (i : ℕ)
      → e.fd ≡ pos i
      → Served g i s e.result (my_read g (record e { fd = pos i }) s)
  unfolding my_read
  my_read-Served e s i f = go (s.conns i) refl e.result
    where
      after :
          (c : Conn) (z : ℤ)
          → s.conns i ≡ some c
          → Served g i s z (after_read g (record e { fd = pos i }) s c z)
      after c (pos zero) h = closes c h refl
      after c (pos (suc n)) h =
          read_or_write-Served e s c (stored g (record e { fd = pos i }) c (suc n)) i n h refl
      after c (negsuc k) h = stalls_read c (count_event g c) h refl (k, refl)

      go :
          (o : Option Conn)
          → s.conns i ≡ o
          → (z : ℤ)
          → Served g i s z (
              with_conn o (λ c.
                if is_neg c.fd then done ([], s) else after_read g (record e { fd = pos i }) s c z))
      go none h z = null_conn h
      go (some c) h z =
          if-cases (Served g i s z) (is_neg c.fd) (λ b. no_fd c h b) (λ b. after c z h)
