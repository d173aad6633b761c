-- ===== src/TscLog.antt =====
-- event-tester/tsc_logger.h: a log of timestamped entries in a fixed buffer. The buffer is a function
-- from addresses to entries. One thread logs here; several are in Reserve.
pub mod Dump
pub mod Reserve
mod Tests
use upcalls.Prelude.{
  ℕ, zero, suc, ◌+◌, ◌*◌, Bool, true, false, Option, none, some, List, [], ◌∷◌, ltb, ◌==◌,
  if◌then◌else◌, u64,
}

-- `struct TscLogEntry`
pub record Entry : Type 0 where
  pub cpu : ℕ
  pub tid : ℕ
  pub tsc : ℕ
  pub values : List ℕ

-- `TscLogEntrySize`
abbrev pub entry_size : ℕ → ℕ
entry_size numvals = 16 + numvals * 8

-- `struct TscLog`: its header, and what its buffer holds at each address.
pub record Log : Type 0 where
  pub cur : ℕ
  pub end_at : ℕ
  pub overflow : Bool
  pub entries : ℕ → Entry

-- `tsc_buffer_reserve`, when no other thread moves `cur`.
abbrev pub tsc_buffer_reserve : ℕ → Log → Option (ℕ × Log)
tsc_buffer_reserve bytes l =
    if ltb l.end_at (u64 (l.cur + bytes))
    then none
    else some (l.cur, record l { cur = u64 (l.cur + bytes) })

abbrev pub or_overflow : Log → Option (ℕ × Log) → Option ℕ × Log
or_overflow l none = (none, record l { overflow = true })
or_overflow l (some (at, l')) = (some at, l')

-- `tsclog_getentry`
abbrev pub tsclog_getentry : ℕ → Log → Option ℕ × Log
tsclog_getentry numvals l = or_overflow l (tsc_buffer_reserve (entry_size numvals) l)

abbrev pub write_at : ℕ → Entry → (ℕ → Entry) → ℕ → Entry
write_at at e m a = if a == at then e else m a

abbrev pub fill : Entry → Option ℕ × Log → Log
fill e (none, l) = l
fill e (some at, l) = record l { entries = write_at at e l.entries }

-- `tsclog_0` to `tsclog_4`, with as many values as `numvals` says.
unfoldable pub tsclog : ℕ → Entry → Log → Log
tsclog numvals e l = fill e (tsclog_getentry numvals l)

-- A sequence of `tsclog_4`.
unfoldable pub tsclog_all : List Entry → Log → Log
tsclog_all [] l = l
tsclog_all (e ∷ es) l = tsclog_all es (tsclog 4 e l)

-- The log that `worker_func` sets up: room for `max_events` entries of four values.
abbrev pub empty_log : (start max_events : ℕ) → (ℕ → Entry) → Log
empty_log start max_events m = record {
  cur = start;
  end_at = u64 (start + entry_size 4 * max_events);
  overflow = false;
  entries = m;
}

abbrev pub push : Entry → Option (List Entry) → Option (List Entry)
push e none = none
push e (some es) = some (e ∷ es)

-- The loop of `main` that writes a log: `while (cursor != end)`, for at most `fuel` turns.
unfoldable pub dump : (fuel : ℕ) → ℕ → Log → Option (List Entry)
dump zero cursor l = if cursor == l.cur then some [] else none
dump (suc fuel) cursor l =
    let rest = dump fuel (cursor + entry_size 4) l in
    if cursor == l.cur then some [] else push (l.entries cursor) rest
