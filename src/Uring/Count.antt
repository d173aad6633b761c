-- ===== src/Uring/Count.antt =====
-- How many requests and completions there are of a kind.
use upcalls.Prelude.{
  one_if, count, count-le, ℕ, ◌+◌, ◌≤◌, ◌&&◌, arith, ℤ, pos, negsuc, ◌==◌, ltb, if◌then◌else◌,
}
use upcalls.Uring.{Io, accept, sock_read, ev_read, sock_write, ev_write, Req, Cqe, Sys}

-- Whether a request is about the connection `i`.
abbrev pub on_io_of : ℕ → Io → ℕ
on_io_of i (sock_read j) = one_if (j == i)
on_io_of i (sock_write j) = one_if (j == i)
on_io_of i _ = 0

abbrev pub on_conn : ℕ → Req → ℕ
on_conn i r = on_io_of i r.io

-- Whether it is, and is about the part from index `k` of a buffer of `size` bytes.
abbrev pub aimed : (size i k : ℕ) → Req → ℕ
aimed size i k r = if (r.at == k) && (r.at + r.len == size) then on_conn i r else 0

abbrev pub accepts_io : ℕ → ℕ → Io → ℕ
accepts_io w ring accept = one_if (ring == w)
accepts_io w ring _ = 0

-- Whether it accepts for the worker `w`.
abbrev pub accepts_for : ℕ → Req → ℕ
accepts_for w r = accepts_io w r.ring r.io

abbrev pub ev_reads_io : ℕ → ℕ → Io → ℕ
ev_reads_io w ring ev_read = one_if (ring == w)
ev_reads_io w ring _ = 0

-- Whether it reads the event descriptor of `w`, or writes it.
abbrev pub ev_reads_of : ℕ → Req → ℕ
ev_reads_of w r = ev_reads_io w r.ring r.io

abbrev pub ev_writes_io : ℕ → Io → ℕ
ev_writes_io w (ev_write v) = one_if (v == w)
ev_writes_io w _ = 0

abbrev pub ev_writes_to : ℕ → Req → ℕ
ev_writes_to w r = ev_writes_io w r.io

abbrev pub fd_of : ℕ → ℤ → ℕ
fd_of i (pos fd) = one_if (fd == i)
fd_of i (negsuc k) = 0

abbrev pub accepted_io : ℕ → Io → ℤ → ℕ
accepted_io i accept res = fd_of i res
accepted_io i _ res = 0

-- Whether a completion brings the new connection `i`.
abbrev pub accepted : ℕ → Cqe → ℕ
accepted i e = accepted_io i e.req.io e.res

abbrev pub too_long : ℕ → ℤ → ℕ
too_long len (pos n) = one_if (ltb len n)
too_long len (negsuc k) = 0

abbrev pub overlong_io : Io → ℕ → ℤ → ℕ
overlong_io (sock_read i) len res = too_long len res
overlong_io (sock_write i) len res = too_long len res
overlong_io _ len res = 0

-- Whether a completion moved more bytes than were asked for.
abbrev pub overlong : Cqe → ℕ
overlong e = overlong_io e.req.io e.req.len e.res

abbrev pub same : ℕ → ℕ → ℕ
same i j = one_if (j == i)

-- Requests of a kind that are in flight or completed and not handled.
abbrev pub outstanding : (Req → ℕ) → Sys → ℕ
outstanding f s = count f s.flight + count (λ e. f e.req) s.cq

pub aimed-le : (size i k : ℕ) (r : Req) → aimed size i k r ≤ on_conn i r
aimed-le size i k r = ground arith

pub outstanding-le :
    (f g : Req → ℕ) → ((r : Req) → f r ≤ g r) → (s : Sys) → outstanding f s ≤ outstanding g s
outstanding-le f g h s = omega (
  arith,
  count-le f g h s.flight,
  count-le (λ (e : Cqe). f e.req) (λ e. g e.req) (λ e. h e.req) s.cq,
)
