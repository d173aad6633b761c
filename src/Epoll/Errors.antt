-- ===== src/Epoll/Errors.antt =====
-- An error event ends the epoll server.
use upcalls.Prelude.{
  ℕ, ◌+◌, ◌≡◌, refl, ◌∙◌, ap, Bool, true, false, Option, none, some, List, ◌∷◌, done, exit, ◌>>=◌,
  if◌then◌else◌, assign, assign_self,
}
use upcalls.Echo.{segv}
use upcalls.Epoll.{Conn}
use upcalls.Epoll.Server.{
  Server, Env, on_close, Source, listen_sock, event_fd, client, Event, read_at, close_at,
  on_failure, run_handler, handle_event, handle_events,
}
use upcalls.Epoll.Table.{IsTable, Keeps-done, handle_events-Keeps}

-- The status with which the process ends after an error event.
abbrev pub code_at : Env → Option Conn → ℕ
code_at env none = segv
code_at env (some c) = if env.removed c.fd then segv else 1

abbrev pub failure_code : Env → Source → Server → ℕ
failure_code env listen_sock s = 1
failure_code env event_fd s = 1
failure_code env (client i) s = code_at env (s.conns i)

module _ (size me : ℕ) (env : Env) where
  failed_client :
      (i : ℕ) (oc : Option Conn) (s : Server)
      → s.conns i ≡ oc
      → IsTable s
      → (close_at size me env oc s >>= λ t. run_handler size me env (client i) t)
        ≡ exit (code_at env oc)
  failed_client i none s e h = refl
  failed_client i (some c) s e h = ends
    where
      -- After `on_close` there is nothing at the index.
      gone :
          (x : Server)
          → x.conns ≡ assign s.conns c.fd none
          → run_handler size me env (client i) x ≡ exit segv
      gone x m =
          ap (λ o. read_at size me env o x)
            (ap (λ f. f i) m
              ∙ ap (λ j. assign s.conns j none i) (h i c e)
              ∙ assign_self s.conns i none)

      closed :
          (b : Bool)
          → ((if b
                then done (record s {
                  conns = assign s.conns c.fd none;
                  conn_count = assign s.conn_count me (s.conn_count me + 1);
                  closed = c.fd ∷ s.closed;
                  freed = c.buffer ∷ s.freed;
                })
                else exit 1)
              >>= λ t. run_handler size me env (client i) t)
            ≡ exit (if b then segv else 1)
      closed true = gone _ refl
      closed false = refl

      ends :
          (on_close me env c s >>= λ t. run_handler size me env (client i) t)
          ≡ exit (if env.removed c.fd then segv else 1)
      ends = closed (env.removed c.fd)

  failed_at :
      (src : Source) (s : Server)
      → IsTable s
      → (on_failure size me env src s >>= λ t. run_handler size me env src t)
        ≡ exit (failure_code env src s)
  failed_at listen_sock s h = refl
  failed_at event_fd s h = refl
  failed_at (client i) s h = failed_client i (s.conns i) s refl h

-- After any events, from a state in which every connection stands at the index of its descriptor: an
-- event with `EPOLLERR` or `EPOLLHUP` ends the whole server. On the listening or the event descriptor
-- it exits with 1; on a connection too, if `epoll_ctl` fails; and otherwise, where the code means to
-- close that connection only, `on_read` then follows the null pointer that `on_close` left in
-- `conns`.
pub failed_event_ends :
    (size me : ℕ) (env : Env) (es : List Event) (e : Event) (s t : Server)
    → IsTable s
    → handle_events size me env es s ≡ done t
    → e.failed ≡ true
    → handle_event size me env e t ≡ exit (failure_code env e.source t)
unfolding handle_event
failed_event_ends size me env es e s t h r f =
    ap
      (λ b. (if b then on_failure size me env e.source t else done t) >>= λ u.
        run_handler size me env e.source u)
      f
    ∙ failed_at size me env e.source t (Keeps-done _ (handle_events-Keeps size me env es s h) r)
