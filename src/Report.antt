-- ===== src/Report.antt =====
-- event-tester/tcp_echo.c: what the control thread of the server sends on the stats port and on the
-- error port. Text is a list of bytes.
pub mod Text
pub mod Fetch
pub mod Send
pub mod Receive
pub mod RoundTrip
pub mod Perf
pub mod Print
pub mod Filling
pub mod Errors
pub mod Control
mod Tests
use upcalls.Prelude.{
  ℕ, zero, suc, ◌+◌, ◌-◌, min, Bool, true, false, Option, none, some, List, [], ◌∷◌, ◌++◌, map, ℤ,
  pos, negsuc, Outcome, done, exit, ltb, ◌==◌, if◌then◌else◌, length, take, drop, set, replicate,
  u64,
}
use Text.{Line, decimal, join, print_row, stats_header, error_header, State, state_name}

-- What `write` does: it fails, returns 0, or takes one byte and so many more, as far as there are any.
pub data Write : Type 0 where
  write_fails : Write
  write_none : Write
  takes : ℕ → Write

-- A loop over `write`: it has sent all, and so many results are left; it failed; or it is in a call.
-- `sent` is all that was sent on the socket.
pub data Sent : Type 0 where
  finished : (sent : List ℕ) → List Write → Sent
  failed : Sent
  in_call : (sent : List ℕ) → Sent

-- `do { .. cursor += index; } while (cursor < size);`, for the text `msg`
unfoldable pub send_loop : (msg : List ℕ) → (cursor : ℕ) → List Write → (sent : List ℕ) → Sent
send_loop msg k [] sent = in_call sent
send_loop msg k (write_fails ∷ rs) sent = failed
send_loop msg k (write_none ∷ rs) sent = failed
send_loop msg k (takes n ∷ rs) sent =
    let m = min (suc n) (length msg - k) in
    let more = sent ++ take m (drop k msg) in
    let rest = send_loop msg (k + m) rs more in
    if m == 0 then failed else if ltb (k + m) (length msg) then rest else finished more rs

abbrev pub then_send : Sent → (List Write → List ℕ → Sent) → Sent
then_send (finished sent rs) f = f rs sent
then_send failed f = failed
then_send (in_call sent) f = in_call sent

-- The loop over the lines of all threads.
unfoldable pub send_lines : List Line → List Write → (sent : List ℕ) → Sent
send_lines [] rs sent = finished sent rs
send_lines (l ∷ ls) rs sent = then_send (send_loop l 0 rs sent) (λ rs sent. send_lines ls rs sent)

-- A worker's part of a statistics line.
pub record Thread : Type 0 where
  pub index : ℕ
  pub perf_ids : List ℕ
  pub accept_count : ℕ
  pub conn_count : ℕ

-- An entry of `struct read_format`.
pub record Reading : Type 0 where
  pub value : ℕ
  pub id : ℕ

-- The first `j` with `perf_ids[j] == id`.
abbrev pub find_id : (id : ℕ) → List ℕ → (j : ℕ) → Option ℕ
find_id id [] j = none
find_id id (x ∷ xs) j = if id == x then some j else find_id id xs (suc j)

abbrev pub store_at : Option ℕ → ℕ → List ℕ → List ℕ
store_at none v vals = vals
store_at (some j) v vals = set vals j v

-- The loop over the readings of a thread.
unfoldable pub store_readings : List ℕ → List Reading → List ℕ → List ℕ
store_readings ids [] vals = vals
store_readings ids (r ∷ rs) vals =
    store_readings ids rs (store_at (find_id r.id ids 0) r.value vals)

-- The loop of `write_perf_stats` over the threads, with what `read` gives for each; `vals` is
-- `perf_values`, which is not reset between threads.
unfoldable pub write_perf_stats :
    List (Thread × Option (List Reading)) → (vals : List ℕ) → Outcome (List Line)
write_perf_stats [] vals = done []
write_perf_stats ((t, none) ∷ ts) vals = exit 1
write_perf_stats ((t, some rs) ∷ ts) vals =
    let now = store_readings t.perf_ids rs vals in
    elim (write_perf_stats ts now) [
      | done ls ↦
          done (print_row (t.index ∷ (take 5 now ++ (t.accept_count ∷ t.conn_count ∷ []))) ∷ ls)
      | exit c ↦ exit c
    ]

-- What the client of a report gets: the size, and what follows.
pub record Message : Type 0 where
  pub announced : ℕ
  pub body : Sent

abbrev pub total_length : List Line → ℕ
total_length [] = 0
total_length (l ∷ ls) = length l + total_length ls

abbrev pub stats_message : List Line → List Write → Message
stats_message ls rs = record {
  announced = u64 (length stats_header + total_length ls);
  body = then_send (send_loop stats_header 0 rs []) (λ rs sent. send_lines ls rs sent);
}

abbrev pub stats_of : Outcome (List Line) → List Write → Outcome Message
stats_of (exit c) rs = exit c
stats_of (done ls) rs = done (stats_message ls rs)

-- `on_stats`; `out` is the result of `accept`.
unfoldable pub on_stats :
    (out : ℤ) → List (Thread × Option (List Reading)) → List Write → Outcome Message
on_stats (negsuc k) ts rs = exit 1
on_stats (pos fd) ts rs = stats_of (write_perf_stats ts (replicate 5 0)) rs

-- `struct connection`, for a line of the error report.
pub record Conn : Type 0 where
  pub port : ℕ
  pub state : State
  pub cursor : ℕ
  pub event_count : ℕ

-- The line of the connection with descriptor `i`.
abbrev pub conn_line : ℕ → Conn → Line
conn_line i c = join (
    decimal i ∷ decimal c.port ∷ state_name c.state ∷ decimal c.cursor ∷ decimal c.event_count ∷ [])

-- What the loop of `on_error` leaves: `dangling`, `cursor`, and the text in `output`.
pub record Filled : Type 0 where
  pub dangling : Bool
  pub cursor : ℕ
  pub text : List ℕ

-- The header, when there is a connection for the first time.
abbrev pub begin : Filled → Filled
begin f =
    if f.dangling
    then f
    else record { dangling = true; cursor = length error_header; text = error_header }

-- `snprintf` into `output`, of 8192 bytes: what fits is printed, less a byte for the end.
abbrev pub add_line : Line → Filled → Filled
add_line l f = record f { cursor = f.cursor + length l; text = f.text ++ take (8191 - f.cursor) l }

-- The loop of `on_error` over the connections from the descriptor `i` on.
unfoldable pub fill : ℕ → List (Option Conn) → Filled → Filled
fill i [] f = f
fill i (none ∷ cs) f = fill (suc i) cs f
fill i (some c ∷ cs) f =
    let g = add_line (conn_line i c) (begin f) in
    let rest = fill (suc i) cs g in if ltb 8160 g.cursor then g else rest

-- The bytes of `output`, which were 0, and those behind it.
abbrev pub output_of : List ℕ → (behind : List ℕ) → List ℕ
output_of text behind = text ++ (replicate (8192 - length text) 0 ++ behind)

abbrev pub report_of : Filled → (behind : List ℕ) → List Write → Option Message
report_of f behind rs =
    if f.dangling
    then some (record {
      announced = f.cursor + 1;
      body = send_loop (take (f.cursor + 1) (output_of f.text behind)) 0 rs [];
    })
    else none

-- `on_error`; `out` is the result of `accept`, and `conns` are the connections from descriptor 3 on.
unfoldable pub on_error :
    (out : ℤ) → List (Option Conn) → (behind : List ℕ) → List Write → Option Message
on_error (negsuc k) conns behind rs = none
on_error (pos fd) conns behind rs =
    report_of (fill 3 conns (record { dangling = false; cursor = 0; text = [] })) behind rs
