-- ===== src/Report/Control/Closed.antt =====
-- event-tester/tcp_echo.c: the descriptors that the control thread opens and closes.
use upcalls.Prelude.{
  Bool, ℕ, ◌+◌, ◌≡◌, ◌⊎◌, inl, inr, refl, true, false, Option, none, some, List, [], ◌∷◌, ℤ, pos,
  negsuc, Outcome, done, exit, ◌==◌, if-cases, arith, replicate, ne_of_==, one_if, count, take,
  ◌++◌,
}
use upcalls.Report.{
  Message, Sent, finished, failed, in_call, on_stats, on_error, Thread, Reading, Line,
  write_perf_stats, store_readings, print_row, stats_of,
}
use upcalls.Report.Control.{
  Event, Wait, wait_fails, event, Control, Went, waits, in_write, exits, accept_client,
  close_client, broken_pipe, watch, hang_up, after_sending, stats_sent, error_sent, on_control,
  on_wait, control_loop,
}

abbrev pub times : ℕ → List ℕ → ℕ
times i xs = count (λ j. one_if (j == i)) xs

-- The process ends with status 1, if it ends.
abbrev EndsWithOne : {A : Type 0} → Outcome A → Type 0
EndsWithOne (done a) = Unit
EndsWithOne (exit n) = n ≡ 1

write_perf_stats-EndsWithOne :
    (ts : List (Thread × Option (List Reading))) (vals : List ℕ)
    → EndsWithOne (write_perf_stats ts vals)
unfolding write_perf_stats
write_perf_stats-EndsWithOne [] vals = tt
write_perf_stats-EndsWithOne ((t, none) ∷ ts) vals = refl
write_perf_stats-EndsWithOne ((t, some rs) ∷ ts) vals =
    go (write_perf_stats ts now) (write_perf_stats-EndsWithOne ts now)
  where
    now : List ℕ
    now = store_readings t.perf_ids rs vals

    go :
        (o : Outcome (List Line))
        → EndsWithOne o
        → EndsWithOne (elim o [
          | done ls ↦
              done (print_row (t.index ∷ (take 5 now ++ (t.accept_count ∷ t.conn_count ∷ []))) ∷ ls)
          | exit c ↦ exit c
        ])
    go (done ls) h = tt
    go (exit n) h = h

module _ (stats_fd error_fd : ℕ) where
  abbrev pub IsOwn : ℕ → Type 0
  IsOwn i = (i ≡ stats_fd) ⊎ (i ≡ error_fd)

  -- Each descriptor was accepted as often as it was closed, once more if it is watched, and once more
  -- for each time that it could not be added to epoll; no port was ever closed.
  pub record IsKept (c : Control) : Type 0 where
    pub once :
        (i : ℕ) → times i c.opened ≡ times i c.closed + one_if (c.watched i) + times i c.unwatched
    pub ports : (i : ℕ) → IsOwn i → times i c.opened ≡ 0

  -- The system gives an error event for a descriptor that is watched, and accepts a client with one that is
  -- not in use.
  pub record IsPossible (e : Event) (c : Control) : Type 0 where
    pub known : e.failing ≡ true → IsOwn e.fd ⊎ (c.watched e.fd ≡ true)
    pub unused : (i : ℕ) → e.out ≡ pos i → (c.watched i ≡ false) × ¬ IsOwn i

  abbrev pub Keeps : (Control → Type 0) → Went → Type 0
  Keeps P (waits c) = P c
  Keeps P (in_write c) = P c
  Keeps P (exits n) = (n ≡ 1) ⊎ ((n ≡ 255) ⊎ (n ≡ broken_pipe))

  watch-IsKept :
      (added : Bool) (i : ℕ) (c : Control)
      → c.watched i ≡ false
      → ¬ IsOwn i
      → IsKept c
      → IsKept (watch added (pos i) (accept_client (pos i) c))
  watch-IsKept false i c f n k = record {
    once = λ j. ground (arith, k.once j);
    ports = λ j o. ground (arith, k.ports j o, n);
  }
  watch-IsKept true i c f n k = record {
    once = λ j. ground (arith, k.once j);
    ports = λ j o. ground (arith, k.ports j o, n);
  }

  close_client-IsKept :
      (i : ℕ) (c : Control)
      → ¬ IsOwn i
      → IsKept c
      → IsKept (close_client (pos i) (accept_client (pos i) c))
  close_client-IsKept i c n k = record {
    once = λ j. ground (arith, k.once j);
    ports = λ j o. ground (arith, k.ports j o, n);
  }

  hang_up-IsKept : (i : ℕ) (c : Control) → c.watched i ≡ true → IsKept c → IsKept (hang_up i c)
  hang_up-IsKept i c w k = record { once = λ j. ground (arith, k.once j); ports = k.ports }

  after_sending-Keeps :
      (sigpipe : Bool) (s : Sent) (m : Message) (c : Control)
      → IsKept c
      → Keeps IsKept (after_sending sigpipe s m c)
  after_sending-Keeps sigpipe (finished text rs) m c k = record { once = k.once; ports = k.ports }
  after_sending-Keeps true failed m c k = inr (inr refl)
  after_sending-Keeps false failed m c k = inl refl
  after_sending-Keeps sigpipe (in_call text) m c k = k

  on_stats-Keeps :
      (e : Event) (c : Control)
      → IsPossible e c
      → IsKept c
      → Keeps IsKept (stats_sent (on_stats e.out e.threads e.writes) e c)
  unfolding on_stats
  on_stats-Keeps e c p k = go e.out refl
    where
      table :
          (i : ℕ) (o : Outcome (List Line))
          → e.out ≡ pos i
          → EndsWithOne o
          → Keeps IsKept (stats_sent (stats_of o e.writes) (record e { out = pos i }) c)
      table i (done ls) h x =
          after_sending-Keeps _ _ _ _ (watch-IsKept e.added i c (p.unused i h).0 (p.unused i h).1 k)
      table i (exit n) h x = inl x

      go :
          (z : ℤ)
          → e.out ≡ z
          → Keeps IsKept (stats_sent (on_stats z e.threads e.writes) (record e { out = z }) c)
      go (negsuc n) h = inl refl
      go (pos i) h = table i _ h (write_perf_stats-EndsWithOne e.threads (replicate 5 0))

  on_error-Keeps :
      (e : Event) (c : Control)
      → IsPossible e c
      → IsKept c
      → Keeps IsKept (error_sent (on_error e.out e.conns e.behind e.writes) e c)
  unfolding on_error
  on_error-Keeps e c p k = go e.out refl
    where
      report :
          (i : ℕ) (o : Option Message)
          → e.out ≡ pos i
          → Keeps IsKept (error_sent o (record e { out = pos i }) c)
      report i none h = close_client-IsKept i c (p.unused i h).1 k
      report i (some m) h =
          after_sending-Keeps _ _ _ _ (watch-IsKept e.added i c (p.unused i h).0 (p.unused i h).1 k)

      go :
          (z : ℤ)
          → e.out ≡ z
          → Keeps IsKept
              (error_sent (on_error z e.conns e.behind e.writes) (record e { out = z }) c)
      go (negsuc n) h = k
      go (pos i) h = report i _ h

  known-watched :
      (e : Event) (c : Control)
      → IsPossible e c
      → e.failing ≡ true
      → ¬ IsOwn e.fd
      → c.watched e.fd ≡ true
  known-watched e c p f n = elim (p.known f) [ inl o ↦ absurd (n o) | inr w ↦ w ]

  -- Every event.
  on_control-Keeps :
      (e : Event) (c : Control)
      → IsPossible e c
      → IsKept c
      → Keeps IsKept (on_control stats_fd error_fd e c)
  on_control-Keeps e c p k =
      if-cases (Keeps IsKept) e.failing
        (λ f.
          if-cases (Keeps IsKept) (e.fd == stats_fd) (λ _. inr (inl refl))
            λ a.
              if-cases (Keeps IsKept) (e.fd == error_fd) (λ _. inr (inl refl))
                λ b.
                  hang_up-IsKept e.fd c
                    (known-watched e c p f
                      (λ o. elim o [ inl x ↦ ne_of_== _ _ a x | inr x ↦ ne_of_== _ _ b x ]))
                    k)
        (λ f.
          if-cases (Keeps IsKept) (e.fd == stats_fd) (λ _. on_stats-Keeps e c p k)
            λ a. if-cases (Keeps IsKept) (e.fd == error_fd) (λ _. on_error-Keeps e c p k) λ b. k)

  abbrev pub IsPossibleWait : Wait → Control → Type 0
  IsPossibleWait wait_fails c = Unit
  IsPossibleWait (event e) c = IsPossible e c

  on_wait-Keeps :
      (w : Wait) (c : Control)
      → IsPossibleWait w c
      → IsKept c
      → Keeps IsKept (on_wait stats_fd error_fd w c)
  on_wait-Keeps wait_fails c p k = inr (inl refl)
  on_wait-Keeps (event e) c p k = on_control-Keeps e c p k

  -- `P` holds if the loop goes on.
  abbrev pub IfWaits : Went → (Control → Type 0) → Type 0
  IfWaits (waits c) P = P c
  IfWaits _ P = Unit

  -- Each event is possible when it comes.
  abbrev pub ArePossible : List Wait → Control → Type 0
  ArePossible [] c = Unit
  ArePossible (w ∷ ws) c =
      IsPossibleWait w c × IfWaits (on_wait stats_fd error_fd w c) (λ c'. ArePossible ws c')

  -- Take any events that are possible when they come: an error event is for a port or for a
  -- descriptor that is watched, and a client is accepted with a descriptor that is not watched and no
  -- port. Whatever results the calls return, the loop of the control thread keeps the following: a
  -- descriptor was accepted as often as it was closed, once more exactly if it is watched, and once
  -- more for each time that `epoll_ctl` failed for it, whose result is not tested, so that nothing
  -- closes it; and no port was accepted as a client. That holds too while a `write` has not returned.
  -- If the process ends, then with status 1 or 255, or by SIGPIPE.
  pub control_loop-Keeps :
      (ws : List Wait) (c : Control)
      → ArePossible ws c
      → IsKept c
      → Keeps IsKept (control_loop stats_fd error_fd ws c)
  unfolding control_loop
  control_loop-Keeps [] c p k = k
  control_loop-Keeps (w ∷ ws) c (p, q) k =
      go (control_loop-Keeps ws) (on_wait stats_fd error_fd w c) (on_wait-Keeps w c p k) q
    where
      go :
          ((c' : Control)
            → ArePossible ws c'
            → IsKept c'
            → Keeps IsKept (control_loop stats_fd error_fd ws c'))
          → (r : Went) → Keeps IsKept r
          → IfWaits r (λ c'. ArePossible ws c')
          → Keeps IsKept (elim r [
            | waits c' ↦ control_loop stats_fd error_fd ws c'
            | in_write c' ↦ in_write c'
            | exits n ↦ exits n
          ])
      go f (waits c') k' q' = f c' q' k'
      go f (in_write c') k' q' = k'
      go f (exits n) k' q' = k'
