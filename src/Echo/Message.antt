-- ===== src/Echo/Message.antt =====
-- A connection reads a whole message, in parts, before it writes it back, in parts.
use upcalls.Prelude.{
  ℕ, suc, ◌+◌, ◌<◌, ◌≡◌, ◌≢◌, refl, sym, ◌∙◌, ap, some, List, [], ◌∷◌, ◌++◌, arith, pos, Outcome,
  done, ◌>>=◌, lt→ltb, le→ltb, ne→==, eq→==, length, length-append, take, drop, take-length-append,
  append_assoc, append-nil,
}
use upcalls.Upcall.Event.{Ptr, null, UpEvent}
use upcalls.Upcall.Queue.{read, write}
use upcalls.Upcall.Loop.{Call, request, give_back}
use upcalls.Upcall.Loop.Calls.{react, reactions}
use upcalls.Echo.{Conn, Server, set_conn, memcpy, Setting, stored, my_read, echo_handlers}

-- The handlers are three functions.
pub record IsSetting (g : Setting) : Type 0 where
  pub read_there : g.my_read_at ≢ null
  pub write_there : g.my_write_at ≢ null
  pub read_accept : g.my_read_at ≢ g.my_accept_at
  pub write_accept : g.my_write_at ≢ g.my_accept_at
  pub write_read : g.my_write_at ≢ g.my_read_at

module _ {ℓ} {A : Type ℓ} where
  drop-append : (xs ys : List A) (n : ℕ) → drop (length xs + n) (xs ++ ys) ≡ drop n ys
  drop-append [] ys n = rw (zero_plus n) refl
    where
      zero_plus : (k : ℕ) → length {A = A} [] + k ≡ k
      zero_plus k = omega arith
  drop-append (x ∷ xs) ys n = rw (suc_plus (length xs) n) (drop-append xs ys n)
    where
      suc_plus : (m k : ℕ) → suc m + k ≡ suc (m + k)
      suc_plus m k = omega arith

-- Bytes copied to the end of what is there extend it.
memcpy-append :
    (got src rest : List ℕ)
    → memcpy (length got) src (got ++ rest) ≡ (got ++ src) ++ drop (length src) rest
memcpy-append got src rest =
    rw (take-length-append got rest, drop-append got rest (length src))
      (sym (append_assoc got src (drop (length src) rest)))

module _ (g : Setting) (i : ℕ) where
  -- A read on the connection that brought `n + 1` bytes.
  pub record IsRead (n : ℕ) (e : UpEvent) : Type 0 where
    pub fd_is : e.fd ≡ pos i
    pub fn_is : e.work_fn ≡ g.my_read_at
    pub result_is : e.result ≡ pos (suc n)
    pub size_is : length (g.contents e) ≡ suc n

  pub record IsWrite (n : ℕ) (e : UpEvent) : Type 0 where
    pub fd_is : e.fd ≡ pos i
    pub fn_is : e.work_fn ≡ g.my_write_at
    pub result_is : e.result ≡ pos (suc n)

  -- Some reads that bring `total` bytes together, all of them `bytes`.
  pub data Reads : ℕ → List ℕ → List UpEvent → Type 0 where
    no_read : Reads 0 [] []
    one_read :
        {n total : ℕ} {bytes : List ℕ} {e : UpEvent} {es : List UpEvent}
        → IsRead n e
        → Reads total bytes es
        → Reads (suc n + total) (g.contents e ++ bytes) (e ∷ es)

  -- The connection `c` at index `i`, which has received `got` of its message so far.
  pub record Open (got : List ℕ) (c : Conn) (s : Server) : Type 0 where
    pub there : s.conns i ≡ some c
    pub fd_is : c.fd ≡ pos i
    pub rest : List ℕ
    pub bytes_are : c.bytes ≡ got ++ rest
    pub cursor_is : c.cursor ≡ length got

module _ (g : Setting) (d : IsSetting g) (i : ℕ) where
  react-read :
      (n : ℕ) (e : UpEvent) (s : Server)
      → IsRead g i n e
      → react (echo_handlers g) e s ≡ my_read g e s
  unfolding echo_handlers
  react-read n e s r =
      rw
        (
          r.fn_is,
          ne→== _ _ d.read_there,
          ne→== _ _ d.read_accept,
          eq→== g.my_read_at g.my_read_at refl,
        )
        refl

  stored-Open :
      (n : ℕ) (e : UpEvent) (got : List ℕ) (c : Conn) (s : Server)
      → IsRead g i n e
      → Open g i got c s
      → Open g i
          (got ++ g.contents e)
          (stored g e c (suc n))
          (set_conn i (some (stored g e c (suc n))) s)
  stored-Open n e got c s r o = record {
    there = rw (eq→== i i refl) refl;
    fd_is = o.fd_is;
    rest = drop (length (g.contents e)) o.rest;
    bytes_are = rw (o.cursor_is, o.bytes_are) (memcpy-append got (g.contents e) o.rest);
    cursor_is = omega (arith, o.cursor_is, r.size_is, length-append got (g.contents e));
  }

  my_read-more :
      (n : ℕ) (e : UpEvent) (got : List ℕ) (c : Conn) (s : Server)
      → IsRead g i n e
      → Open g i got c s
      → length got + suc n < g.msg_size
      → my_read g e s
        ≡ done (
          give_back e.buf e.len ∷ request (read (pos i) g.my_read_at) ∷ [],
          set_conn i (some (stored g e c (suc n))) s,
        )
  unfolding my_read
  my_read-more n e got c s r o h =
      rw
        (
          r.fd_is,
          o.there,
          o.fd_is,
          r.result_is,
          lt→ltb (c.cursor + suc n) g.msg_size (omega (arith, o.cursor_is)),
        )
        refl

  my_read-last :
      (n : ℕ) (e : UpEvent) (got : List ℕ) (c : Conn) (s : Server)
      → IsRead g i n e
      → Open g i got c s
      → length got + suc n ≡ g.msg_size
      → my_read g e s
        ≡ done (
          give_back e.buf e.len ∷ request (write (pos i) c.buffer_at g.msg_size g.my_write_at) ∷ [],
          set_conn i (some (record (stored g e c (suc n)) { cursor = 0 })) s,
        )
  unfolding my_read
  my_read-last n e got c s r o h =
      rw
        (
          r.fd_is,
          o.there,
          o.fd_is,
          r.result_is,
          le→ltb (c.cursor + suc n) g.msg_size (omega (arith, o.cursor_is)),
        )
        refl

  -- What the reads of a message ask for: each gives its buffer back; after each but the last there is
  -- one more read, and after the last the whole message is written from address `at`.
  abbrev pub read_calls : Ptr → List UpEvent → List Call
  read_calls at [] = []
  read_calls at (e ∷ []) =
      give_back e.buf e.len ∷ request (write (pos i) at g.msg_size g.my_write_at) ∷ []
  read_calls at (e ∷ e' ∷ es) =
      give_back e.buf e.len ∷ request (read (pos i) g.my_read_at) ∷ read_calls at (e' ∷ es)

  -- A connection that is ready to write `bytes` back.
  pub data Gathered (at : Ptr) (bytes : List ℕ) (es : List UpEvent)
      : Outcome (List Call × Server) → Type 0 where
    gathered :
        {c : Conn} {s : Server}
        → s.conns i ≡ some c
        → c.fd ≡ pos i
        → c.cursor ≡ 0
        → c.buffer_at ≡ at
        → take g.msg_size c.bytes ≡ bytes
        → Gathered at bytes es (done (read_calls at es, s))

  take_got :
      {s : Server} {c : Conn} (got : List ℕ)
      → Open g i got c s
      → length got ≡ g.msg_size
      → take g.msg_size c.bytes ≡ got
  take_got {c = c} got o h =
      ap (take g.msg_size) o.bytes_are
      ∙ ap (λ k. take k (got ++ o.rest)) (sym h)
      ∙ take-length-append got o.rest

  last-Gathered :
      (n : ℕ) (e : UpEvent) (got : List ℕ) (c : Conn) (s : Server)
      → IsRead g i n e
      → Open g i got c s
      → length got + suc n ≡ g.msg_size
      → Gathered c.buffer_at (got ++ g.contents e) (e ∷ []) (reactions (echo_handlers g) (e ∷ []) s)
  unfolding reactions
  last-Gathered n e got c s r o h =
      rw (react-read n e s r, my_read-last n e got c s r o h)
        (gathered {c = record (stored g e c (suc n)) { cursor = 0 }}
          {s = set_conn i (some (record (stored g e c (suc n)) { cursor = 0 })) s}
          (rw (eq→== i i refl) refl) o.fd_is refl refl
          (take_got (got ++ g.contents e) (stored-Open n e got c s r o)
            (omega (arith, r.size_is, length-append got (g.contents e)))))

  more-Gathered :
      {e e' : UpEvent} {es : List UpEvent} {at : Ptr} {bytes : List ℕ}
      {o : Outcome (List Call × Server)}
      → Gathered at bytes (e' ∷ es) o
      → Gathered at bytes (e ∷ e' ∷ es) (
          o >>= λ (ds, s).
          done (give_back e.buf e.len ∷ request (read (pos i) g.my_read_at) ∷ ds, s))
  more-Gathered (gathered h k l m n) = gathered h k l m n

  pub Reads-Gathered :
      {total : ℕ} {bytes : List ℕ} {es : List UpEvent} (got : List ℕ) (c : Conn) (s : Server)
      → Reads g i total bytes es
      → Open g i got c s
      → length got + total ≡ g.msg_size
      → length got < g.msg_size
      → Gathered c.buffer_at (got ++ bytes) es (reactions (echo_handlers g) es s)
  unfolding reactions
  Reads-Gathered got c s no_read o h k = absurd (omega arith)
  Reads-Gathered got c s (one_read {n} {e = e} r no_read) o h k =
      rw (append-nil (g.contents e)) (last-Gathered n e got c s r o (omega arith))
  Reads-Gathered got c s (one_read {n} {e = e} r (one_read r' rs)) o h k =
      rw (react-read n e s r, my_read-more n e got c s r o (omega arith))
        (more-Gathered (
          rw⁻¹ (append_assoc got (g.contents e) _) (
            Reads-Gathered (got ++ g.contents e) (stored g e c (suc n))
              (set_conn i (some (stored g e c (suc n))) s) (one_read r' rs)
              (stored-Open n e got c s r o)
              (omega (arith, r.size_is, length-append got (g.contents e)))
              (omega (arith, r.size_is, length-append got (g.contents e))))))
