-- ===== src/Echo/Tests.antt =====
-- A message of four bytes that comes in two parts and leaves in two parts.
use upcalls.Prelude.{
  ℕ, ◌≡◌, refl, none, some, List, [], ◌∷◌, ◌++◌, arith, pos, negsuc, if◌then◌else◌, ◌==◌, done,
}
use upcalls.Upcall.Event.{UpEvent, zeroed}
use upcalls.Upcall.Queue.{accept}
use upcalls.Upcall.Loop.{request}
use upcalls.Upcall.Loop.Calls.{reactions}
use upcalls.Echo.{Conn, Server, Setting, new_conn, my_accept, echo_handlers}
use upcalls.Echo.Message.{IsSetting, Reads, no_read, one_read, read_calls}
use upcalls.Echo.Whole.{Writes, no_write, one_write, write_calls, Emptied, echo_message}

abbrev pub setting : Setting
setting = record {
  msg_size = 4;
  my_accept_at = 10;
  my_read_at = 11;
  my_write_at = 12;
  contents = λ e. if e.buf == 1000 then 7 ∷ 8 ∷ 9 ∷ [] else 5 ∷ [];
  cache_alloc = λ fd. some 2000;
}

pub setting-IsSetting : IsSetting setting
setting-IsSetting = record {
  read_there = λ e. absurd (omega (arith, e));
  write_there = λ e. absurd (omega (arith, e));
  read_accept = λ e. absurd (omega (arith, e));
  write_accept = λ e. absurd (omega (arith, e));
  write_read = λ e. absurd (omega (arith, e));
}

abbrev conn : Conn
conn = new_conn setting (pos 6) 2000

abbrev server : Server
server = record {
  conns = λ j. if 6 == j then some conn else none;
  accept_count = 1;
  conn_count = 0;
  closed = [];
}

abbrev read_event : ℕ → ℕ → UpEvent
read_event buf n = record zeroed { fd = pos 6; result = pos n; buf = buf; len = 4; work_fn = 11 }

abbrev write_event : ℕ → UpEvent
write_event n = record zeroed { fd = pos 6; result = pos n; work_fn = 12 }

abbrev arrivals : List UpEvent
arrivals = read_event 1000 3 ∷ read_event 1001 1 ∷ []

abbrev departures : List UpEvent
departures = write_event 1 ∷ write_event 3 ∷ []

arrivals-Reads : Reads setting 6 4 (7 ∷ 8 ∷ 9 ∷ 5 ∷ []) arrivals
arrivals-Reads =
    one_read {n = 2} (record { fd_is = refl; fn_is = refl; result_is = refl; size_is = refl })
      (one_read {n = 0} (record { fd_is = refl; fn_is = refl; result_is = refl; size_is = refl })
        no_read)

departures-Writes : Writes setting setting-IsSetting 6 4 (0 ∷ 2 ∷ []) departures
departures-Writes =
    one_write {n = 0} (record { fd_is = refl; fn_is = refl; result_is = refl })
      (one_write {n = 2} (record { fd_is = refl; fn_is = refl; result_is = refl }) no_write)

echo_message_example :
    Emptied setting setting-IsSetting 6 2000
      (7 ∷ 8 ∷ 9 ∷ 5 ∷ [])
      (read_calls setting setting-IsSetting 6 2000 arrivals
        ++ write_calls setting setting-IsSetting 6 2000 0 (0 ∷ 2 ∷ []))
      (reactions (echo_handlers setting) (arrivals ++ departures) server)
echo_message_example =
    echo_message setting setting-IsSetting 6 conn server (omega arith)
      (record {
        there = refl;
        fd_is = refl;
        rest = 0 ∷ 0 ∷ 0 ∷ 0 ∷ [];
        bytes_are = refl;
        cursor_is = refl;
      })
      arrivals-Reads departures-Writes

-- A failed accept is tried again.
my_accept_runs :
    my_accept setting (record zeroed { fd = pos 3; result = negsuc 10 }) server
    ≡ done (request (accept (pos 3) 10) ∷ [], server)
unfolding my_accept
my_accept_runs = refl
