-- ===== src/Epoll.antt =====
-- event-tester/epoll.c: the echo handler of the epoll server. The results of `read` and `write` on
-- connections come as lists, with the bytes that were read; the bytes written are put on a list.
pub mod Server
pub mod Writes
pub mod Stream
pub mod Table
pub mod Errors
pub mod Handover
pub mod Accept
mod Tests
use upcalls.Prelude.{
  ℕ, zero, suc, ◌+◌, ◌-◌, Bool, true, false, Option, none, some, List, [], ◌∷◌, ◌++◌, ℤ, pos,
  negsuc, ltb, if◌then◌else◌, length, take, drop, replicate, assign,
}
use upcalls.Echo.{segv, memcpy}

-- The states of a connection: `CONNECT` is 0, and `READING` and `WRITING` are set.
pub data Direction : Type 0 where
  connect : Direction
  reading : Direction
  writing : Direction

-- `struct connection`; `buffer` is `none` while it is NULL.
pub record Conn : Type 0 where
  pub fd : ℕ
  pub cursor : ℕ
  pub buffer : Option (List ℕ)
  pub event_count : ℕ
  pub state : Direction

-- A result of `read`: the first byte and the others, 0, `EAGAIN`, or another error.
pub data Got : Type 0 where
  bytes : ℕ → List ℕ → Got
  got_eof : Got
  got_eagain : Got
  got_error : Got

-- A result of `write`: one byte and so many more, 0, `EAGAIN`, or another error.
pub data Put : Type 0 where
  taken : ℕ → Put
  put_eof : Put
  put_eagain : Put
  put_error : Put

-- The results to come, and what was written.
pub record Calls : Type 0 where
  pub reads : List Got
  pub writes : List Put
  pub sent : List ℕ

-- How `on_read` ends: it returns with the connection open, it has closed it, or it is in a call.
pub data Ran : Type 0 where
  returned : Conn → Calls → Ran
  closing : Conn → Calls → Ran
  in_call : Conn → Calls → Ran

-- The bytes of a buffer that is there.
abbrev pub bytes_of : Option (List ℕ) → List ℕ
bytes_of none = []
bytes_of (some b) = b

-- `if (cursor > conn->cursor) conn->cursor = cursor;`
abbrev pub keep_cursor : ℕ → Conn → Conn
keep_cursor cursor c = if ltb c.cursor cursor then record c { cursor = cursor } else c

-- Bytes come to `&conn->buffer[cursor]`.
abbrev pub store : ℕ → List ℕ → Conn → Conn
store k src c = record c { buffer = some (memcpy k src (bytes_of c.buffer)) }

module _ (msg_size : ℕ) where
  -- The loop that writes the message, from `cursor` on.
  unfoldable pub write_loop : (cursor : ℕ) → Conn → List Got → List Put → List ℕ → Ran
  write_loop k c rs [] sent = in_call c (record { reads = rs; writes = []; sent = sent })
  write_loop k c rs (put_eof ∷ ws) sent =
      closing c (record { reads = rs; writes = ws; sent = sent })
  write_loop k c rs (put_eagain ∷ ws) sent = write_loop k c rs ws sent
  write_loop k c rs (put_error ∷ ws) sent = write_loop k c rs ws sent
  write_loop k c rs (taken n ∷ ws) sent =
      let more = sent ++ take (suc n) (drop k (bytes_of c.buffer)) in
      let rest = write_loop (k + suc n) c rs ws more in
      if ltb (k + suc n) msg_size
      then rest
      else returned (record c { state = reading }) (record { reads = rs; writes = ws; sent = more })

  -- After a whole message: `conn->cursor = cursor = 0; conn->state = WRITING;`
  abbrev pub write_back : Conn → List Got → List Put → List ℕ → Ran
  write_back c rs ws sent = write_loop 0 (record c { cursor = 0; state = writing }) rs ws sent

  -- The loop that reads a message, with the local `cursor`.
  unfoldable pub read_loop : (cursor : ℕ) → Conn → List Got → List Put → List ℕ → Ran
  read_loop k c [] ws sent = in_call c (record { reads = []; writes = ws; sent = sent })
  read_loop k c (got_eof ∷ rs) ws sent = closing c (record { reads = rs; writes = ws; sent = sent })
  read_loop k c (got_eagain ∷ rs) ws sent =
      returned (keep_cursor k c) (record { reads = rs; writes = ws; sent = sent })
  read_loop k c (got_error ∷ rs) ws sent =
      returned (keep_cursor k c) (record { reads = rs; writes = ws; sent = sent })
  read_loop k c (bytes b bs ∷ rs) ws sent =
      let c' = store k (b ∷ bs) c in
      let rest = read_loop (k + suc (length bs)) c' rs ws sent in
      if ltb (k + suc (length bs)) msg_size then rest else write_back c' rs ws sent

  -- `if (!conn->buffer) conn->buffer = cache_alloc(..)`, whose memory is zeroed; and the count.
  abbrev pub with_buffer : Option (List ℕ) → Option (List ℕ)
  with_buffer none = some (replicate msg_size 0)
  with_buffer (some b) = some b

  abbrev pub begin : Conn → Conn
  begin c = record c { buffer = with_buffer c.buffer; event_count = c.event_count + 1 }

  -- `on_read`, on an open connection
  unfoldable pub on_read : Conn → Calls → Ran
  on_read c io = read_loop c.cursor (begin c) io.reads io.writes io.sent
