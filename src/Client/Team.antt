-- ===== src/Client/Team.antt =====
-- event-tester/tcp_client.c: `worker_func`, its loop over `epoll_wait`, and the sockets that
-- `cleanup` closes. A failed allocation exits before anything runs and is left out.
pub mod Sum
pub mod Balance
pub mod Total
use upcalls.Prelude.{
  ℕ, zero, suc, ◌+◌, ◌*◌, Bool, true, false, not, ◌&&◌, ◌||◌, List, [], ◌∷◌, get_or, set, replicate,
  ltb, if◌then◌else◌, ℤ, pos, negsuc, u64,
}
use upcalls.Client.{
  State, idle, Client, Entry, World, Run, returns, waits, in_epoll_wait, ◌>>=◌, Reply,
}
use upcalls.Client.Machine.{do_state_transition}

-- The state of a worker: `clients`, the log, `dying`, and the local `complete`.
pub record Team : Type 0 where
  pub clients : List Client
  pub log : List Entry
  pub dying : Bool
  pub complete : ℕ

-- A client after the set-up; `calloc` left its socket 0.
abbrev pub fresh_client : (transaction_count batch_size msg_size : ℕ) → Client
fresh_client tc bs size = record {
  sock = pos 0;
  cursor = 0;
  state = idle;
  buf_size = size;
  txn_remaining = tc;
  batch_remaining = bs;
}

-- The worker after the set-up.
abbrev pub fresh_team : (clients_per_thread transaction_count batch_size msg_size : ℕ) → Team
fresh_team n tc bs size = record {
  clients = replicate n (fresh_client tc bs size);
  log = [];
  dying = false;
  complete = 0;
}

-- An event: the client that it is about, and the results of the system calls of its transition.
abbrev pub Event : Type 0
Event = ℕ × List Reply

-- What `epoll_wait` brings: a time-out, a failure, or events. Another thread may call `set_dying`
-- while these are handled.
pub data Wake : Type 0 where
  nothing : Wake
  broken : Wake
  events : (killed : Bool) → List Event → Wake

-- How `worker_func` ends.
pub data Ended : Type 0 where
  over : Team → Ended
  timed_out : Ended

-- The first transition of every client.
abbrev pub numbered : ℕ → List (List Reply) → List Event
numbered i [] = []
numbered i (rs ∷ rss) = (i, rs) ∷ numbered (suc i) rss

module _ (transaction_count batch_size : ℕ) where
  abbrev pub world_of : ℕ → List Reply → Team → World
  world_of j rs t = record {
    client = get_or t.clients j (fresh_client transaction_count batch_size 0);
    log = t.log;
    dying = t.dying;
    replies = rs;
  }

  -- `dying` is only ever set.
  abbrev pub after_transition : ℕ → ℕ → World → Team → Team
  after_transition j n w t = record {
    clients = set t.clients j w.client;
    log = w.log;
    dying = t.dying || w.dying;
    complete = u64 (t.complete + n);
  }

  -- `complete += do_state_transition(me, j);`
  unfoldable pub handle_event : Event → Team → Run Team
  handle_event (j, rs) t =
      do_state_transition transaction_count batch_size 3 (world_of j rs t) >>= λ (n, w).
      returns (after_transition j n w t)

  -- `for (i = 0; i < rdy; i++)`
  unfoldable pub handle_events : List Event → Team → Run Team
  handle_events [] t = returns t
  handle_events (e ∷ es) t = handle_event e t >>= handle_events es

  abbrev pub killed_by : Bool → Team → Team
  killed_by k t = record t { dying = t.dying || k }

  -- One turn of the loop, then the rest.
  abbrev pub on_wake : (Team → Run Ended) → Wake → Team → Run Ended
  on_wake rest nothing t = returns timed_out
  on_wake rest broken t = returns (over (record t { dying = true }))
  on_wake rest (events k es) t = handle_events es t >>= λ t'. rest (killed_by k t')

  -- `while (!me->dying && complete < total)`
  unfoldable pub worker_loop : (total : ℕ) → List Wake → Team → Run Ended
  worker_loop total [] t =
      if not t.dying && ltb t.complete total
      then waits (in_epoll_wait t.dying t.complete total)
      else returns (over t)
  worker_loop total (wk ∷ wks) t =
      let rest = worker_loop total wks in
      if not t.dying && ltb t.complete total then on_wake rest wk t else returns (over t)

  -- The experiment of `worker_func`, from the set-up on.
  unfoldable pub run_experiment :
      (clients_per_thread msg_size : ℕ) → List (List Reply) → List Wake → Run Ended
  run_experiment n size firsts wakes =
      handle_events (numbered 0 firsts) (fresh_team n transaction_count batch_size size)
      >>= worker_loop (u64 (transaction_count * n)) wakes

-- The sockets that `cleanup` closes.
unfoldable pub open_socks : List Client → List ℕ
open_socks [] = []
open_socks (c ∷ cs) = elim (c.sock) [ pos fd ↦ fd ∷ open_socks cs | negsuc k ↦ open_socks cs ]
