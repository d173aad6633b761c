-- ===== src/Setup/Listening.antt =====
-- What the set-ups of Setup leave.
use upcalls.Prelude.{◌≡◌, ◌≢◌, refl, true, false, some, List, [], ◌∷◌, ℤ, negsuc, is_neg, map}
use upcalls.Setup.{
  echo_port, stats_port, error_port, socket, Listener, Call, Model, epoll, uring, threads, upcall,
  nonblocks, setup, first, perf_event_open, open_ports, Ports, run,
}
use upcalls.Setup.Kernel.{Kernel, after, socket_at, is_watched, is_awaited, listener}
use upcalls.Setup.Endings.{AllSucceed, Ends, all_calls, value, run-Ends}
use upcalls.Setup.Sockets.{opened_lem, awaited_lem, watched_lem, PortsOpen, ports_lem}

-- How a server's worker hears of connections: by epoll, by a request, or by a blocking `accept` that
-- comes after the set-up.
abbrev pub Hears : Model → (fd : ℤ) → Kernel → Type 0
Hears epoll fd k = is_watched fd k ≡ true
Hears threads fd k = Unit
Hears _ fd k = is_awaited fd k ≡ true

abbrev pub AreDescriptors : List ℤ → Type 0
AreDescriptors [] = Unit
AreDescriptors (z ∷ zs) = (is_neg z ≡ false) × AreDescriptors zs

-- A worker that is set up.
pub record IsOpen (answer : Call → ℤ) (m : Model) (cs : List Call) (w : Listener) : Type 0 where
  pub opened :
      (k : Kernel)
      → socket_at w.listen_sock (after answer cs k) ≡ some (listener (nonblocks m) true echo_port)
  pub hears : (k : Kernel) → Hears m w.listen_sock (after answer cs k)
  pub counters : AreDescriptors w.perf_fds
  pub leads : first w.perf_fds ≡ answer (perf_event_open 0 (negsuc 0))
  pub counts :
      w.perf_fds
      ≡ first w.perf_fds
        ∷ map (λ i. answer (perf_event_open i (first w.perf_fds))) (1 ∷ 2 ∷ 3 ∷ 4 ∷ [])

module _ (answer : Call → ℤ) where
  setup-IsOpen :
      (m : Model)
      → AllSucceed answer (all_calls answer (setup m))
      → IsOpen answer m (all_calls answer (setup m)) (value answer (setup m))
  setup-IsOpen uring
        (
          _,
          (
            _,
            (
              _,
              (
                _,
                (_, (z, (a, (b, (c, (d, (f0, (_, (f1, (_, (f2, (_, (f3, (_, (f4, _))))))))))))))),
              ),
            ),
          ),
        ) =
      record {
        opened = λ k. (awaited_lem false _ _ _ _ _ k z (a, b, c, d)).0;
        hears = λ k. (awaited_lem false _ _ _ _ _ k z (a, b, c, d)).1;
        counters = (f0, (f1, (f2, (f3, (f4, tt)))));
        leads = refl;
        counts = refl;
      }
  setup-IsOpen threads
        (
          _,
          (_, (_, (z, (a, (b, (c, (d, (f0, (_, (f1, (_, (f2, (_, (f3, (_, (f4, _)))))))))))))))),
        ) =
      record {
        opened = λ k. opened_lem false _ _ _ _ _ k z (a, b, c, d);
        hears = λ k. tt;
        counters = (f0, (f1, (f2, (f3, (f4, tt)))));
        leads = refl;
        counts = refl;
      }
  setup-IsOpen upcall
        (
          _,
          (
            _,
            (_, (z, (a, (b, (c, (d, (_, (f0, (_, (f1, (_, (f2, (_, (f3, (_, (f4, _)))))))))))))))),
          ),
        ) =
      record {
        opened = λ k. (awaited_lem true _ _ _ _ _ k z (a, b, c, d)).0;
        hears = λ k. (awaited_lem true _ _ _ _ _ k z (a, b, c, d)).1;
        counters = (f0, (f1, (f2, (f3, (f4, tt)))));
        leads = refl;
        counts = refl;
      }
  setup-IsOpen epoll
        (
          _,
          (
            _,
            (
              _,
              (
                _,
                (
                  z,
                  (
                    a,
                    (
                      b,
                      (c, (d, (_, (_, (t, (f0, (_, (f1, (_, (f2, (_, (f3, (_, (f4, _)))))))))))))),
                    ),
                  ),
                ),
              ),
            ),
          ),
        ) =
      record {
        opened = λ k. (watched_lem true _ _ _ _ _ _ _ _ k z (a, b, c, d) t).0;
        hears = λ k. (watched_lem true _ _ _ _ _ _ _ _ k z (a, b, c, d) t).1;
        counters = (f0, (f1, (f2, (f3, (f4, tt)))));
        leads = refl;
        counts = refl;
      }

  -- For any results of the calls, the set-up of a worker of each of the four servers ends in one of
  -- two ways. It exits with status 1, and its last call is the first that failed of those that
  -- must succeed, which are any but those for counters that exist, and the requests. Or it returns, and then, whatever
  -- sockets there were before: the worker's listening socket is bound to the port of the server, with
  -- both options that share the port and the address set before that, it listens, and it does not
  -- block exactly in the epoll server and the upcall server; the epoll set has it, in the epoll
  -- server, or a request for connections waits on it that was made when it listened, in the io_uring
  -- and the upcall server; and the worker has five descriptors of counters, of which the first leads
  -- the group of the other four.
  pub setup-Ends : (m : Model) → Ends answer 1 (IsOpen answer m) (run answer 1 (setup m))
  setup-Ends m = run-Ends answer 1 (IsOpen answer m) (setup m) (setup-IsOpen m)

  -- What `main` watches: the ports of the statistics and of the error report.
  pub record AreOpen (cs : List Call) (p : Ports) : Type 0 where
    pub ports : (k : Kernel) → PortsOpen p.stats_fd p.error_fd (after answer cs k)

  -- If the system does not give the same descriptor to two sockets, then the set-up of the ports in
  -- `main` ends in one of two ways, for any results of the calls. The process ends with status 255,
  -- and its last call is the first that failed. Or the set-up is done, and then, whatever sockets
  -- there were before: the two sockets of the statistics and of the error report are bound each to
  -- its own port, listen, block, and are both watched by epoll.
  pub open_ports-Ends :
      answer (socket stats_port false) ≢ answer (socket error_port false)
      → Ends answer 255 AreOpen (run answer 255 open_ports)
  open_ports-Ends apart =
      run-Ends answer 255 AreOpen open_ports
        λ (_, (_, (_, (z, (y, (a, (b, (c, (d, (_, (e, (f, _)))))))))))). record {
          ports = λ k. ports_lem _ _ _ _ _ _ _ _ k apart z y (a, b, c, d) e f;
        }
