-- ===== src/Lib.antt =====
-- A verification library for the C programs of this repository: libupcall, the user side of the
-- upcall system calls, and the programs of event-tester and scheduler_latency around it.
--
-- libupcall/upcall.c and libupcall/upcall.h: a worker thread queues requests (`add_read`,
-- `add_write`, `add_accept`, `add_close`), submits them all by one system call, and runs the handler
-- of each event that comes back; buffers that handlers are done with go back to the kernel by one
-- more event. The modules below Upcall:
--   Event: `up_action_t`, `struct up_event`, `struct iovec`.
--   Worker: the `__thread` variables as a record, and the C library's allocation functions.
--   Queue: `work`, `work_cnt`, `work_max` with `expand_queue` and the five `add_` functions.
--   Pool: `buffers`, `buf_cnt`, `buf_max` with `return_buffer` and `upcall_worker_setup`.
--   Stats: the histograms of `run_event_loop`, and their layout in `upcall_init`.
--   Loop: `run_event_loop` and the loop of `upcall_worker_fn`.
--   Init: `upcall_init` and its error returns.
--   Barrier: the end of `upcall_init`, `upcall_worker_fn` and `upcall_workers_go` as interleaved threads, with
--     their two condition variables.
--   Monitor: the deltas of `batch_monitor_fn` and the commands of `batch_ctl_poll`.
--   Tests: runs and instances.
--
-- event-tester/tcp_client.c: a load generator. The modules below Client:
--   Io: `client_send`, `client_recv`, `do_connect`.
--   Machine: `do_state_transition`, one definition for each state.
--   Sane, Moves: the invariant of a client, and what each transition does to it.
--   Options: the checks and sizes of `main`.
--   Team: `worker_func` from the first transitions on, and the sockets that `cleanup` closes.
--   Tests: runs and instances.
--
-- event-tester/tsc_logger.h: timestamped entries in a fixed buffer. TscLog holds the functions and
-- the loop of event-tester/tcp_client.c that writes a log out; Dump and Reserve are proofs, the
-- latter about several threads.
--
-- event-tester/upcall.c: the echo server on top of libupcall. Echo holds its handlers, `on_close` and
-- `new_conn` (event-tester/tcp_echo.c), in the form that Upcall.Loop takes handlers; Message is about
-- reading a message, Whole about reading and writing it back. System is a worker together with the
-- kernel, which completes its requests in any order; Effects, Served and Reached are proofs about it.
--
-- event-tester/tcp_echo.c: `init_cache`, `cache_alloc` and `cache_free` on a heap are in Cache; Fifo
-- shows which queue they implement.
--
-- scheduler_latency/tester.c: `sleeper` and `waker` as interleaved threads, and the subtractions of
-- `write_times`, are in Latency; what the time-stamp counter of each CPU shows is a parameter. Turns
-- and Order hold the proofs.
--
-- event-tester/threads.c: `conn_handler`, a blocking echo loop, is in Threads; Balance holds the
-- proofs.
--
-- event-tester/iouring.c: the io_uring server. Uring holds the three `add_` functions, `on_close` and
-- the `switch` over completions; Run, what the kernel may do and the interleaving of all workers;
-- Count, numbers of requests; Effects, what a worker does for a completion; Served, Safety, Awake and
-- Errors, the proofs.
--
-- event-tester/epoll.c: the epoll server. Epoll holds `on_read`; Server, `on_accept`, `on_event`,
-- `handle_new_conns`, `on_close` and the event loop; Writes, Stream, Table, Errors and Accept are proofs about
-- them; Handover is about workers that hand connections over at the same time.
--
-- The start of the workers is the same in event-tester/iouring.c, epoll.c and threads.c: `init_threads`
-- and `worker_func` with their two locks are in Startup; Safety and Progress hold the proofs.
--
-- Setup holds the calls that set the servers up, with the test after each: `worker_func` of the three
-- servers that have it, `upcall_echo_setup` (event-tester/upcall.c), and `setup_perf` and the ports of
-- `main` (event-tester/tcp_echo.c). A set-up is a tree of calls, `run` ends it at the first test that
-- finds a failure. Kernel is what the calls do to sockets by the manual pages; Endings, Sockets and
-- Listening hold the proofs.
--
-- event-tester/tcp_echo.c also serves the statistics and the report on connections that hang, which
-- event-tester/tcp_client.c fetches. Report holds `write_perf_stats`, `on_stats` and `on_error`; Control,
-- the loop of the control thread that calls these, with Closed about its clients' descriptors; Text,
-- the lines that they print; Fetch, the client's side in `main` and `do_error_report`; Send,
-- Receive, RoundTrip, Perf, Print, Filling and Errors are proofs.
--
-- State is passed explicitly. A function that may call `exit` returns an `Outcome`. An array is a
-- list with one entry for each allocated slot, and uninitialised memory is a parameter. Pointers
-- are numbers, 0 is NULL. Counters of type `int` and `size_t` that only count allocated items are
-- natural numbers without a bound; arithmetic on 64-bit values is modulo 2^64.
--
-- Parameters: `realloc` and `calloc` (Worker.Libc), which may fail at any call; `upcall_submit` and
-- the clock (Loop.Outside), given anew for each round; the functions that `work_fn` points to
-- (Loop.Handlers), by the calls that they make; the results of the client's system calls, in order.
-- A loop runs over a list, over the rounds left, or over the results from outside. Where a client has
-- used up the results of its system calls, `Pause` says which call or loop it is in. Only
-- `do_state_transition`, which calls itself, takes a depth, of which three levels are always enough,
-- and the loop that writes a log out takes as many turns as the log has room for entries.
--
-- The kernel of Uring completes requests in any order, with any result that the calls document, and
-- a ring has room for every request. The kernel of Echo.System does the same, and keeps a request's
-- descriptor and function. In Setup the answer to a call depends on the call alone, since no set-up
-- makes the same call twice. In Report.Control each event comes with the results of its handler's
-- calls; SIGPIPE ends the process. In Epoll the results of `read`, `write` and `accept4` are lists.
--
-- Not modelled: messages (`perror`), thread pinning, the contents of the client's buffers, the options
-- of event-tester/tcp_echo.c, the accept loop of event-tester/threads.c, the files of the monitor in
-- libupcall/upcall.c, `run_one` and `main` of scheduler_latency/tester.c, build files and scripts.
pub mod Prelude
pub mod Upcall
pub mod Client
pub mod TscLog
pub mod Echo
pub mod Cache
pub mod Latency
pub mod Threads
pub mod Uring
pub mod Epoll
pub mod Report
pub mod Startup
pub mod Setup
