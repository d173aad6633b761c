-- ===== src/Client/Io.antt =====
-- event-tester/tcp_client.c: `client_send`, `client_recv` and `do_connect`.
pub mod Transfer
pub mod Unfinished
use upcalls.Prelude.{
  ℕ, ◌+◌, Option, none, some, Bool, true, false, List, [], ◌∷◌, ltb, ◌==◌, if◌then◌else◌,
}
use upcalls.Client.{
  State, connecting, ready, finished, World, Run, returns, in_send, in_recv, blocking, ◌>>=◌, Reply,
  ok, failed, eagain, einprogress, set_dying, enter, syscall,
}

-- The loop of `client_send`: whether it failed, and the replies that it has not used.
unfoldable pub send_loop : (len cursor : ℕ) → List Reply → Option (Bool × List Reply)
send_loop len cursor [] = none
send_loop len cursor (failed e ∷ rs) = some (true, rs)
send_loop len cursor (ok n ∷ rs) =
    let rest = send_loop len (cursor + n) rs in
    if ltb (cursor + n) len then rest else some (false, rs)

-- After the loop: the replies that it used are gone, and on a failure `set_dying` was called.
abbrev pub used : World → Bool → List Reply → World
used w broke rs = if broke then set_dying (record w { replies = rs }) else record w { replies = rs }

-- `client_send`
abbrev pub client_send : ℕ → World → Run World
client_send len w = blocking (in_send len w.replies) (send_loop len 0 w.replies) >>= λ (broke, rs).
    returns (used w broke rs)

-- The loop of `client_recv`: what it returns, whether it failed, and the replies left.
unfoldable pub recv_loop : (len cursor : ℕ) → List Reply → Option (ℕ × Bool × List Reply)
recv_loop len cursor [] = none
recv_loop len cursor (failed e ∷ rs) =
    if e == eagain then some (cursor, false, rs) else some (0, true, rs)
recv_loop len cursor (ok n ∷ rs) =
    let rest = recv_loop len (cursor + n) rs in
    if ltb (cursor + n) len then rest else some (cursor + n, false, rs)

-- `client_recv`
abbrev pub client_recv : ℕ → World → Run (ℕ × World)
client_recv len w =
    blocking (in_recv len w.replies) (recv_loop len 0 w.replies) >>= λ (got, broke, rs).
    returns (got, used w broke rs)

abbrev pub connect_result : Reply → World → World
connect_result (ok n) w = enter ready w
connect_result (failed e) w =
    if e == einprogress then enter connecting w else enter finished (set_dying w)

-- `do_connect`, with the assignment of its result to the client's state.
abbrev pub do_connect : World → Run World
do_connect w = syscall w >>= λ (r, w'). returns (connect_result r w')
