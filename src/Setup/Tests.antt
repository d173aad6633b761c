-- ===== src/Setup/Tests.antt =====
-- A system where every call succeeds.
use upcalls.Prelude.{◌≡◌, refl, arith, ◌+◌, [], ◌∷◌, ℤ, pos, exit}
use upcalls.Setup.{
  Call, calloc, init_cache, eventfd, socket, epoll_create, perf_event_open, attr_init, epoll,
  threads, setup, open_ports, run, echo_port, stats_port, error_port,
}
use upcalls.Setup.Endings.{Ends}
use upcalls.Setup.Listening.{IsOpen, AreOpen, setup-Ends, open_ports-Ends}

abbrev answer : Call → ℤ
answer calloc = pos 4096
answer (init_cache what count) = pos 8192
answer (eventfd nonblock) = pos 3
answer (socket echo_port nonblock) = pos 4
answer (socket stats_port nonblock) = pos 5
answer (socket error_port nonblock) = pos 6
answer epoll_create = pos 7
answer (perf_event_open i group_fd) = pos (10 + i)
answer c = pos 0

-- No attributes for threads.
abbrev no_attr : Call → ℤ
no_attr attr_init = pos 12
no_attr c = answer c

setup-Ends_example : Ends answer 1 (IsOpen answer epoll) (run answer 1 (setup epoll))
setup-Ends_example = setup-Ends answer epoll

open_ports-Ends_example : Ends answer 255 (AreOpen answer) (run answer 255 open_ports)
open_ports-Ends_example = open_ports-Ends answer (λ e. ground (arith, e))

no_attr_runs : run no_attr 1 (setup threads) ≡ (calloc ∷ attr_init ∷ [], exit 1)
unfolding run
no_attr_runs = refl
