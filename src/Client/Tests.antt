-- ===== src/Client/Tests.antt =====
-- Runs of the client, and the theorems about it there.
use upcalls.Prelude.{
  done, ℕ, ◌≡◌, refl, false, Option, none, some, ℤ, List, [], ◌∷◌, arith, pos, length,
}
use upcalls.Client.{
  State, sent, connecting, Client, World, Run, returns, Reply, ok, failed, einprogress,
}
use upcalls.Client.Io.{send_loop, recv_loop}
use upcalls.Client.Machine.{do_state_transition}
use upcalls.Client.Options.{Options, prepare, Prepared, prepare-Prepared}
use upcalls.Client.Team.{
  Wake, events, Ended, over, handle_event, handle_events, worker_loop, run_experiment,
}

-- A client with two transactions to do that waits for its response, one per connection.
abbrev waiting_client : Client
waiting_client = record {
  sock = pos 5;
  cursor = 10;
  state = sent;
  buf_size = 32;
  txn_remaining = 2;
  batch_remaining = 1;
}

-- The rest of the response comes; then the client closes the socket and connects again.
abbrev waiting_world : World
waiting_world = record {
  client = waiting_client;
  log = [];
  dying = false;
  replies = ok 12 ∷ ok 10 ∷ ok 0 ∷ ok 0 ∷ ok 5 ∷ ok 0 ∷ ok 0 ∷ failed einprogress ∷ ok 0 ∷ [];
}

abbrev summary : Run (ℕ × World) → Option (ℕ × State × ℤ × ℕ)
summary (returns (n, w)) = some (n, w.client.state, w.client.sock, length w.log)
summary _ = none

-- That run counts one transaction, and leaves the client in CONNECTING on a new socket.
waiting_world_run :
    summary (do_state_transition 3 1 3 waiting_world) ≡ some (1, connecting, pos 5, 3)
unfolding do_state_transition recv_loop
waiting_world_run = refl

abbrev completed : Run Ended → Option ℕ
completed (returns (over t)) = some t.complete
completed _ = none

-- One client with one transaction: it connects, sends, gets the response, and is done.
abbrev firsts : List (List Reply)
firsts = (ok 5 ∷ ok 0 ∷ ok 0 ∷ failed einprogress ∷ ok 0 ∷ []) ∷ []

abbrev wakes : List Wake
wakes =
    events false ((0, ok 0 ∷ ok 0 ∷ ok 0 ∷ ok 32 ∷ []) ∷ [])
    ∷ events false ((0, ok 32 ∷ ok 0 ∷ ok 0 ∷ ok 0 ∷ []) ∷ [])
    ∷ []

run_experiment_run : completed (run_experiment 1 1 1 32 firsts wakes) ≡ some 1
unfolding run_experiment handle_events handle_event worker_loop do_state_transition send_loop
    recv_loop
run_experiment_run = refl

-- The default options, with both operands.
abbrev options : Options
options = record {
  port = pos 1072;
  stats = pos 1073;
  msg_size = 32;
  clients_per_thread = 1;
  batch_size = 1;
  transaction_count = 1000;
  nr_threads = 0;
  operands = 2;
}

prepare-Prepared_example : Prepared 8 options (prepare 8 options)
prepare-Prepared_example =
    prepare-Prepared 8 options (omega arith) (omega arith) (omega arith) (omega arith)

prepare_run :
    prepare 8 options ≡ done (record { threads = 8; max_events = 48016; log_size = 2304768 })
unfolding prepare
prepare_run = refl
