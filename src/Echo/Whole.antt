-- ===== src/Echo/Whole.antt =====
-- A message is read, written back, and the connection reads again.
use upcalls.Prelude.{
  ℕ, suc, ◌+◌, ◌-◌, ◌<◌, ◌≡◌, refl, sym, ap, List, [], ◌∷◌, ◌++◌, some, arith, pos, Outcome, done,
  exit, ◌>>=◌, lt→ltb, le→ltb, ne→==, eq→==, take, append_assoc,
}
use upcalls.Upcall.Event.{Ptr, UpEvent}
use upcalls.Upcall.Queue.{read, write}
use upcalls.Upcall.Loop.{Call, request, Handlers}
use upcalls.Upcall.Loop.Calls.{react, reactions}
use upcalls.Echo.{Conn, Server, set_conn, Setting, my_write, echo_handlers}
use upcalls.Echo.Message.{
  IsSetting, IsWrite, Reads, Open, read_calls, Gathered, gathered, Reads-Gathered,
}

module _ {σ : Type 0} (h : Handlers σ) (fs : List UpEvent) where
  -- What handlers do after some calls, and then on `fs`.
  abbrev then_more : Outcome (List Call × σ) → Outcome (List Call × σ)
  then_more o = o >>= λ (cs, s). reactions h fs s >>= λ (ds, s'). done (cs ++ ds, s')

  abbrev before : List Call → Outcome (List Call × σ) → Outcome (List Call × σ)
  before cs o = o >>= λ (ds, s). done (cs ++ ds, s)

  before-nil : (o : Outcome (List Call × σ)) → o ≡ before [] o
  before-nil (done o) = refl
  before-nil (exit c) = refl

  before-append :
      (cs ds : List Call) (o : Outcome (List Call × σ))
      → before cs (before ds o) ≡ before (cs ++ ds) o
  before-append cs ds (done (es, s)) = ap (λ t. done (t, s)) (sym (append_assoc cs ds es))
  before-append cs ds (exit c) = refl

  before-then_more :
      (cs : List Call) (o : Outcome (List Call × σ))
      → before cs (then_more o) ≡ then_more (before cs o)
  before-then_more cs (done (ds, s)) = before-append cs ds (reactions h fs s)
  before-then_more cs (exit c) = refl

  first_then :
      (es : List UpEvent) (o : Outcome (List Call × σ))
      → ((s : σ) → reactions h (es ++ fs) s ≡ then_more (reactions h es s))
      → (o >>= λ (cs, s). before cs (reactions h (es ++ fs) s))
        ≡ then_more (o >>= λ (cs, s). before cs (reactions h es s))
  first_then es (done (cs, s)) later = rw (later s) (before-then_more cs (reactions h es s))
  first_then es (exit c) later = refl

  reactions-append :
      (es : List UpEvent) (s : σ) → reactions h (es ++ fs) s ≡ then_more (reactions h es s)
  unfolding reactions
  reactions-append [] s = before-nil (reactions h fs s)
  reactions-append (e ∷ es) s = first_then es (react h e s) (reactions-append es)

module _ (g : Setting) (d : IsSetting g) (i : ℕ) where
  -- Writes that the kernel did, `n + 1` bytes each for the `n` of a list, `total` bytes together.
  pub data Writes : ℕ → List ℕ → List UpEvent → Type 0 where
    no_write : Writes 0 [] []
    one_write :
        {n total : ℕ} {ns : List ℕ} {e : UpEvent} {es : List UpEvent}
        → IsWrite g i n e
        → Writes total ns es
        → Writes (suc n + total) (n ∷ ns) (e ∷ es)

  -- What the writes of a message ask for, from `cursor` on: after each but the last the rest of the
  -- message is written, and after the last there is a read.
  abbrev pub write_calls : Ptr → ℕ → List ℕ → List Call
  write_calls at cursor [] = []
  write_calls at cursor (n ∷ []) = request (read (pos i) g.my_read_at) ∷ []
  write_calls at cursor (n ∷ n' ∷ ns) =
      request (write (pos i) (at + (cursor + suc n)) (g.msg_size - (cursor + suc n)) g.my_write_at)
      ∷ write_calls at (cursor + suc n) (n' ∷ ns)

  -- The connection at index `i`, with its message, of which `cursor` bytes are written.
  pub record Writing (at : Ptr) (bytes : List ℕ) (cursor : ℕ) (c : Conn) (s : Server) : Type 0 where
    pub there : s.conns i ≡ some c
    pub fd_is : c.fd ≡ pos i
    pub cursor_is : c.cursor ≡ cursor
    pub at_is : c.buffer_at ≡ at
    pub bytes_are : take g.msg_size c.bytes ≡ bytes

  -- A connection that has done some calls and has nothing left to write.
  pub data Emptied (at : Ptr) (bytes : List ℕ) (cs : List Call)
      : Outcome (List Call × Server) → Type 0 where
    emptied : {c : Conn} {s : Server} → Writing at bytes 0 c s → Emptied at bytes cs (done (cs, s))

  react-write :
      (n : ℕ) (e : UpEvent) (s : Server)
      → IsWrite g i n e
      → react (echo_handlers g) e s ≡ my_write g e s
  unfolding echo_handlers
  react-write n e s r =
      rw
        (
          r.fn_is,
          ne→== _ _ d.write_there,
          ne→== _ _ d.write_accept,
          ne→== _ _ d.write_read,
          eq→== g.my_write_at g.my_write_at refl,
        )
        refl

  my_write-more :
      (n : ℕ) (e : UpEvent) {at : Ptr} {bytes : List ℕ} {cursor : ℕ} (c : Conn) (s : Server)
      → IsWrite g i n e
      → Writing at bytes cursor c s
      → cursor + suc n < g.msg_size
      → my_write g e s
        ≡ done (
          request (
                write (pos i) (at + (cursor + suc n)) (g.msg_size - (cursor + suc n)) g.my_write_at)
              ∷ [],
          set_conn i (some (record c { cursor = cursor + suc n })) s,
        )
  unfolding my_write
  my_write-more n e {cursor = k} c s r o h =
      rw
        (
          r.fd_is,
          o.there,
          o.fd_is,
          r.result_is,
          o.cursor_is,
          o.at_is,
          lt→ltb (suc n + k) g.msg_size (omega arith),
        )
        refl

  my_write-last :
      (n : ℕ) (e : UpEvent) {at : Ptr} {bytes : List ℕ} {cursor : ℕ} (c : Conn) (s : Server)
      → IsWrite g i n e
      → Writing at bytes cursor c s
      → cursor + suc n ≡ g.msg_size
      → my_write g e s
        ≡ done (
          request (read (pos i) g.my_read_at) ∷ [],
          set_conn i (some (record c { cursor = 0 })) s,
        )
  unfolding my_write
  my_write-last n e {cursor = k} c s r o h =
      rw
        (
          r.fd_is,
          o.there,
          o.fd_is,
          r.result_is,
          o.cursor_is,
          le→ltb (suc n + k) g.msg_size (omega arith),
        )
        refl

  set-Writing :
      {at : Ptr} {bytes : List ℕ} {cursor : ℕ} (k : ℕ) (c : Conn) (s : Server)
      → Writing at bytes cursor c s
      → Writing at bytes k (record c { cursor = k }) (set_conn i (some (record c { cursor = k })) s)
  set-Writing k c s o = record {
    there = rw (eq→== i i refl) refl;
    fd_is = o.fd_is;
    cursor_is = refl;
    at_is = o.at_is;
    bytes_are = o.bytes_are;
  }

  more-Emptied :
      {at : Ptr} {bytes : List ℕ} {cs : List Call} {o : Outcome (List Call × Server)} (c : Call)
      → Emptied at bytes cs o
      → Emptied at bytes (c ∷ cs) (o >>= λ (ds, s). done (c ∷ ds, s))
  more-Emptied c (emptied w) = emptied w

  Writes-Emptied :
      {total : ℕ} {ns : List ℕ} {ws : List UpEvent} {at : Ptr} {bytes : List ℕ} (cursor : ℕ)
      (c : Conn) (s : Server)
      → Writes total ns ws
      → Writing at bytes cursor c s
      → cursor + total ≡ g.msg_size
      → cursor < g.msg_size
      → Emptied at bytes (write_calls at cursor ns) (reactions (echo_handlers g) ws s)
  unfolding reactions
  Writes-Emptied k c s no_write o h l = absurd (omega arith)
  Writes-Emptied k c s (one_write {n} {e = e} r no_write) o h l =
      rw (react-write n e s r, my_write-last n e c s r o (omega arith))
        (emptied (set-Writing 0 c s o))
  Writes-Emptied k c s (one_write {n} {e = e} r (one_write r' ws)) o h l =
      rw (react-write n e s r, my_write-more n e c s r o (omega arith))
        (more-Emptied _ (
          Writes-Emptied (k + suc n) (record c { cursor = k + suc n })
            (set_conn i (some (record c { cursor = k + suc n })) s) (one_write r' ws)
            (set-Writing (k + suc n) c s o) (omega arith) (omega arith)))

  before-Emptied :
      {at : Ptr} {bytes : List ℕ} {cs : List Call} {o : Outcome (List Call × Server)}
      (pre : List Call)
      → Emptied at bytes cs o
      → Emptied at bytes (pre ++ cs) (o >>= λ (ds, s). done (pre ++ ds, s))
  before-Emptied pre (emptied w) = emptied w

  written_back :
      {ns : List ℕ} {es ws : List UpEvent} {at : Ptr} {bytes : List ℕ}
      {o : Outcome (List Call × Server)}
      → 0 < g.msg_size
      → Writes g.msg_size ns ws
      → Gathered g d i at bytes es o
      → Emptied at bytes
          (read_calls g d i at es ++ write_calls at 0 ns)
          (then_more (echo_handlers g) ws o)
  written_back {es = es} {at = at} l ws (gathered {c = c} {s = s} h k m n b) =
      before-Emptied (read_calls g d i at es) (
        Writes-Emptied 0 c s ws
          (record { there = h; fd_is = k; cursor_is = m; at_is = n; bytes_are = b }) (omega arith)
          l)

  -- An open connection that has nothing of a message yet receives one of `msg_size` bytes in any
  -- number of parts, and the kernel then takes it back in any number of parts: the handlers ask for
  -- exactly one read or write at a time, give each pool buffer back, ask first for the whole message
  -- to be written, once it is there, and then for the rest that is left; the message at the
  -- connection's buffer is what was received, in order; and the connection reads again with nothing
  -- of a message.
  pub echo_message :
      {bytes : List ℕ} {ns : List ℕ} {es ws : List UpEvent} (c : Conn) (s : Server)
      → 0 < g.msg_size
      → Open g i [] c s
      → Reads g i g.msg_size bytes es
      → Writes g.msg_size ns ws
      → Emptied c.buffer_at bytes
          (read_calls g d i c.buffer_at es ++ write_calls c.buffer_at 0 ns)
          (reactions (echo_handlers g) (es ++ ws) s)
  echo_message {es = es} {ws} c s l o rs wr =
      rw (reactions-append (echo_handlers g) ws es s)
        (written_back l wr (Reads-Gathered g d i [] c s rs o (omega arith) l))
