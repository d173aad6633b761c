-- ===== src/Client/Machine.antt =====
-- event-tester/tcp_client.c: `do_state_transition`, a case for each state. A case that continues
-- with the next state's gets the recursive call as `again`.
use upcalls.Prelude.{
  ℕ, zero, suc, ◌+◌, Bool, true, false, ltb, ◌==◌, if◌then◌else◌, negsuc, u64, minus64,
}
use upcalls.Client.{
  State, idle, connecting, new, ready, sent, finished, World, Run, returns, too_deep, ◌>>=◌, Reply,
  ok, connect_start, connect_done, send_start, send_done, recv_start, recv_done, set_dying, enter,
  syscall, is_failed, descriptor, stamp,
}
use upcalls.Client.Io.{client_send, client_recv, do_connect}

-- What a transition returns: the number of completed transactions.
abbrev pub Step : Type 0
Step = World → Run (ℕ × World)

abbrev pub stay : Step
stay w = returns (0, w)

-- `if (call < 0) { perror(..); set_dying(); return 0; }`
abbrev pub checked : (Reply → Step) → Step
checked next w = syscall w >>= λ (r, w'). if is_failed r then stay (set_dying w') else next r w'

-- A call whose result is not looked at.
abbrev pub unchecked : Step → Step
unchecked next w = syscall w >>= λ (_, w'). next w'

-- `return 1 + do_state_transition(me, j);`
abbrev pub one_more : Run (ℕ × World) → Run (ℕ × World)
one_more r = r >>= λ (n, w). returns (1 + n, w)

-- The end of `case DONE`, after `close`.
abbrev pub closed : World → World
closed w = record w { client = record w.client { sock = negsuc 0 } }

abbrev pub close_socket : Step
close_socket w = stay (closed w)

module _ (transaction_count batch_size : ℕ) (again : Step) where
  abbrev pub new_batch : World → World
  new_batch w = record w { client = record w.client { batch_remaining = batch_size } }

  abbrev pub with_socket : Reply → World → World
  with_socket r w = record w { client = record w.client { sock = descriptor r } }

  abbrev is_ready : State → Bool
  is_ready ready = true
  is_ready _ = false

  abbrev pub connected_or_not : Step
  connected_or_not w =
      if is_ready w.client.state
      then again (stamp transaction_count connect_done w)
      else checked (λ _. stay) w

  abbrev pub connect_now : Step
  connect_now w = do_connect (stamp transaction_count connect_start w) >>= connected_or_not

  -- `case INIT`
  abbrev pub from_idle : Step
  from_idle w = syscall (new_batch w) >>= λ (r, w').
      if is_failed r
      then stay (set_dying (with_socket r w'))
      else checked (λ _. checked (λ _. connect_now)) (with_socket r w')

  abbrev pub so_error : Reply → Step
  so_error (ok zero) w = again (enter new w)
  so_error _ w = stay (set_dying w)

  -- `case CONNECTING`; `getsockopt` gives the value of `so_err`.
  abbrev pub from_connecting : Step
  from_connecting w = checked (λ _. checked so_error) (stamp transaction_count connect_done w)

  -- `case NEW`
  abbrev pub from_new : Step
  from_new w = checked (λ _ w'. again (enter ready w')) w

  -- `case READY`
  abbrev pub from_ready : Step
  from_ready w = client_send w.client.buf_size (stamp transaction_count send_start w) >>= λ w'.
      stay (enter sent (stamp transaction_count send_done w'))

  abbrev pub received : ℕ → World → World
  received got w = record w { client = record w.client { cursor = u64 (w.client.cursor + got) } }

  -- A whole response: `cursor = 0; txn_remaining--;`
  abbrev pub response : World → World
  response w = record w {
    client = record w.client { cursor = 0; txn_remaining = minus64 w.client.txn_remaining 1 };
  }

  -- `batch_remaining--;`
  abbrev pub used_batch : World → World
  used_batch w = record w {
    client = record w.client { batch_remaining = minus64 w.client.batch_remaining 1 };
  }

  abbrev pub next_request : Step
  next_request w =
      if w.client.batch_remaining == 0
      then unchecked (unchecked (λ w'. one_more (again (enter idle w')))) w
      else one_more (again (enter ready w))

  abbrev pub after_response : Step
  after_response w =
      if w.client.txn_remaining == 0
      then one_more (again (enter finished w))
      else next_request (used_batch w)

  abbrev pub after_recv : Step
  after_recv w =
      if ltb w.client.cursor w.client.buf_size then stay w else after_response (response w)

  -- `case SENT`
  abbrev pub from_sent : Step
  from_sent w =
      client_recv (minus64 w.client.buf_size w.client.cursor) (stamp transaction_count recv_start w)
      >>= λ (got, w'). after_recv (stamp transaction_count recv_done (received got w'))

  -- `case DONE`
  abbrev pub from_finished : Step
  from_finished w = unchecked (unchecked (unchecked close_socket)) w

  abbrev pub from_state : State → Step
  from_state idle = from_idle
  from_state connecting = from_connecting
  from_state new = from_new
  from_state ready = from_ready
  from_state sent = from_sent
  from_state finished = from_finished

-- `do_state_transition`, calling itself at most `depth` deep.
unfoldable pub do_state_transition : (transaction_count batch_size depth : ℕ) → Step
do_state_transition tc bs zero w = too_deep
do_state_transition tc bs (suc depth) w =
    from_state tc bs (do_state_transition tc bs depth) w.client.state w
