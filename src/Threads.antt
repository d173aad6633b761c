-- ===== src/Threads.antt =====
-- event-tester/threads.c: `conn_handler`, the echo loop of a connection with a thread of its own. The
-- results of its `read` and `write` calls come as a list.
pub mod Balance
mod Tests
use upcalls.Prelude.{
  ℕ, zero, suc, ◌+◌, ◌*◌, ◌≤◌, ◌<◌, ◌≡◌, refl, inl, inr, List, [], ◌∷◌, arith, ℤ, pos, negsuc, ltb,
  ltb→lt, ltb→le, Bool-cases, if◌then◌else◌,
}

-- Which of the two loops runs.
pub data Phase : Type 0 where
  reading : Phase
  writing : Phase

-- Where the handler is: its phase, `cursor`, and the bytes read and written in all.
pub record Place : Type 0 where
  pub phase : Phase
  pub cursor : ℕ
  pub bytes_read : ℕ
  pub bytes_written : ℕ

-- How it ends: the peer has closed, a call failed and the process exits, or it is in a call.
pub data Stop : Type 0 where
  peer_closed : Place → Stop
  failed : Place → Stop
  in_call : Place → Stop

-- `cursor += ret`
abbrev pub advance : Phase → ℕ → Place → Place
advance reading n p = record p { cursor = p.cursor + n; bytes_read = p.bytes_read + n }
advance writing n p = record p { cursor = p.cursor + n; bytes_written = p.bytes_written + n }

abbrev pub other : Phase → Phase
other reading = writing
other writing = reading

-- After a loop: `cursor = 0`, and the other loop.
abbrev pub turn : Place → Place
turn p = record p { phase = other p.phase; cursor = 0 }

-- `while (cursor < msg_size)`
abbrev pub next_place : ℕ → Place → Place
next_place size p = if ltb p.cursor size then p else turn p

-- The loops of `conn_handler`.
unfoldable pub conn_loop : (msg_size : ℕ) → Place → List ℤ → Stop
conn_loop size p [] = in_call p
conn_loop size p (pos zero ∷ rs) = peer_closed p
conn_loop size p (pos (suc n) ∷ rs) =
    conn_loop size (next_place size (advance p.phase (suc n) p)) rs
conn_loop size p (negsuc k ∷ rs) = failed p

abbrev pub conn_handler : ℕ → List ℤ → Stop
conn_handler size rs =
    conn_loop size (record { phase = reading; cursor = 0; bytes_read = 0; bytes_written = 0 }) rs

abbrev pub place : Stop → Place
place (peer_closed p) = p
place (failed p) = p
place (in_call p) = p
