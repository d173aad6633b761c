-- ===== src/Epoll/Stream.antt =====
-- What the epoll server receives on a connection, it sends back in whole messages.
use upcalls.Prelude.{
  ℕ, suc, ◌+◌, ◌≤◌, ◌<◌, ◌≡◌, ◌⊎◌, inl, inr, refl, sym, ◌∙◌, ap, Option, none, some, List, [], ◌∷◌,
  ◌++◌, append-nil, append_assoc, arith, ltb, if-cases, ltb→lt, ltb→le, length, length-replicate,
  take, drop, take-drop_whole, take-length, replicate,
}
use upcalls.Echo.{memcpy}
use upcalls.Epoll.{
  Conn, writing, Got, bytes, got_eof, got_eagain, got_error, Put, Calls, Ran, returned, closing,
  in_call, bytes_of, keep_cursor, store, read_loop, with_buffer, on_read,
}
use upcalls.Epoll.Writes.{
  flat, ReadsFit, WritesFit, pending, IsConn, length-memcpy, take-memcpy, Written, all_written,
  part_closed, part_written, write_loop-Written,
}

-- What a run of `on_read` does to a stream: `have` is what the connection holds of a message, the
-- results `used` bring more, and `out` is sent; the rest is what the connection then holds, if it is
-- still open and the call has returned, and then `out` is nothing or one whole message.
pub data Echoed (size : ℕ) (have : List ℕ) (rs : List Got) (sent : List ℕ) : Ran → Type 0 where
  stays :
      {c : Conn} {io : Calls} (used : List Got) (out : List ℕ)
      → rs ≡ used ++ io.reads
      → io.sent ≡ sent ++ out
      → have ++ flat used ≡ out ++ pending c
      → (out ≡ []) ⊎ (length out ≡ size)
      → IsConn size c
      → Echoed size have rs sent (returned c io)
  closes :
      {c : Conn} {io : Calls} (used : List Got) (out rest : List ℕ)
      → rs ≡ used ++ io.reads
      → io.sent ≡ sent ++ out
      → have ++ flat used ≡ out ++ rest
      → Echoed size have rs sent (closing c io)
  runs :
      {c : Conn} {io : Calls} (used : List Got) (out rest : List ℕ)
      → rs ≡ used ++ io.reads
      → io.sent ≡ sent ++ out
      → have ++ flat used ≡ out ++ rest
      → Echoed size have rs sent (in_call c io)

Written-Echoed :
    {size : ℕ} {have b : List ℕ} {rs : List Got} {sent : List ℕ} (r : Got) {o : Ran}
    → 0 < size
    → length b ≡ size
    → have ++ flat (r ∷ []) ≡ b
    → Written size b rs sent o
    → Echoed size have (r ∷ rs) sent o
Written-Echoed {size} {b = b} r z l h (all_written {c = c} k m p q) =
    stays (r ∷ []) b (ap (λ t. r ∷ t) (sym p)) q
      (h ∙ sym (append-nil b) ∙ ap (λ j. b ++ take j (bytes_of c.buffer)) (sym k)) (inr l)
      (record {
        in_buffer = omega (arith, k);
        empty = λ e. k;
        sized = λ d e. ground (arith, m, e, l);
      })
Written-Echoed {b = b} r z l h (part_closed m p q) =
    closes (r ∷ []) (take m b) (drop m b) (ap (λ t. r ∷ t) (sym p)) q
      (h ∙ sym (take-drop_whole m b))
Written-Echoed {b = b} r z l h (part_written m p q) =
    runs (r ∷ []) (take m b) (drop m b) (ap (λ t. r ∷ t) (sym p)) q (h ∙ sym (take-drop_whole m b))

-- One more read before.
more-Echoed :
    {size : ℕ} {have : List ℕ} {rs : List Got} {sent : List ℕ} (x : ℕ) (xs : List ℕ) {o : Ran}
    → Echoed size (have ++ x ∷ xs) rs sent o
    → Echoed size have (bytes x xs ∷ rs) sent o
more-Echoed {have = have} x xs (stays used out p q h a v) =
    stays (bytes x xs ∷ used) out (ap (λ t. bytes x xs ∷ t) p) q
      (sym (append_assoc have (x ∷ xs) (flat used)) ∙ h) a v
more-Echoed {have = have} x xs (closes used out rest p q h) =
    closes (bytes x xs ∷ used) out rest (ap (λ t. bytes x xs ∷ t) p) q
      (sym (append_assoc have (x ∷ xs) (flat used)) ∙ h)
more-Echoed {have = have} x xs (runs used out rest p q h) =
    runs (bytes x xs ∷ used) out rest (ap (λ t. bytes x xs ∷ t) p) q
      (sym (append_assoc have (x ∷ xs) (flat used)) ∙ h)

keep_cursor-Echoed :
    {size : ℕ} (k : ℕ) (c : Conn) {have b : List ℕ} {rs : List Got} {sent : List ℕ} (r : Got)
    {ws : List Put}
    → flat (r ∷ []) ≡ []
    → c.cursor ≤ k
    → k < size
    → c.buffer ≡ some b
    → length b ≡ size
    → have ≡ take k b
    → Echoed size have
        (r ∷ rs)
        sent
        (returned (keep_cursor k c) (record { reads = rs; writes = ws; sent = sent }))
keep_cursor-Echoed {size} k c {have} {b} {rs} {sent} r {ws} n le lt h l e =
    if-cases
      (λ d.
        Echoed size have (r ∷ rs) sent
          (returned d (record { reads = rs; writes = ws; sent = sent })))
      (ltb c.cursor k) (λ t. held (record c { cursor = k }) refl h)
      (λ t. held c (omega (arith, le, ltb→le _ _ t)) h)
  where
    held :
        (d : Conn)
        → d.cursor ≡ k
        → d.buffer ≡ some b
        → Echoed size have
            (r ∷ rs)
            sent
            (returned d (record { reads = rs; writes = ws; sent = sent }))
    held d p q =
        stays (r ∷ []) [] refl (sym (append-nil sent))
          (ap (λ t. have ++ t) n
            ∙ append-nil have
            ∙ e
            ∙ ap (λ t. take k (bytes_of t)) (sym q)
            ∙ ap (λ j. take j (bytes_of d.buffer)) (sym p))
          (inl refl)
          (record {
            in_buffer = omega (arith, p, lt);
            empty = λ m. ground (arith, q, m);
            sized = λ x m. ground (arith, q, m, l);
          })

read_loop-Echoed :
    (size k : ℕ) (c : Conn) (have b : List ℕ) (rs : List Got) (ws : List Put) (sent : List ℕ)
    → c.cursor ≤ k
    → k < size
    → c.buffer ≡ some b
    → length b ≡ size
    → have ≡ take k b
    → ReadsFit size k rs
    → WritesFit size 0 ws
    → Echoed size have rs sent (read_loop size k c rs ws sent)
unfolding read_loop
read_loop-Echoed size k c have b [] ws sent le lt h l e f g =
    runs [] [] have refl (sym (append-nil sent)) (append-nil have)
read_loop-Echoed size k c have b (got_eof ∷ rs) ws sent le lt h l e f g =
    closes (got_eof ∷ []) [] have refl (sym (append-nil sent)) (append-nil have)
read_loop-Echoed size k c have b (got_eagain ∷ rs) ws sent le lt h l e f g =
    keep_cursor-Echoed k c got_eagain refl le lt h l e
read_loop-Echoed size k c have b (got_error ∷ rs) ws sent le lt h l e f g =
    keep_cursor-Echoed k c got_error refl le lt h l e
read_loop-Echoed size k c have b (bytes x xs ∷ rs) ws sent le lt h l e (fit, f) g =
    if-cases (Echoed size have (bytes x xs ∷ rs) sent) (ltb (k + suc (length xs)) size)
      (λ t. more-Echoed x xs (
        read_loop-Echoed size (k + suc (length xs)) (store k (x ∷ xs) c) (have ++ x ∷ xs)
          (memcpy k (x ∷ xs) b) rs ws sent (omega (arith, le)) (ltb→lt _ _ t) there long taken_all f
          g))
      (λ t. Written-Echoed (bytes x xs) (omega arith) long (whole (ltb→le _ _ t)) (
        write_loop-Written size 0 (record (store k (x ∷ xs) c) { cursor = 0; state = writing })
          (memcpy k (x ∷ xs) b) rs ws sent sent refl there long g (sym (append-nil sent))))
  where
    there : some (memcpy k (x ∷ xs) (bytes_of c.buffer)) ≡ some (memcpy k (x ∷ xs) b)
    there = ap (λ d. some (memcpy k (x ∷ xs) (bytes_of d))) h

    long : length (memcpy k (x ∷ xs) b) ≡ size
    long = omega (arith, l, length-memcpy k (x ∷ xs) b (omega (arith, fit, l)))

    taken_all : have ++ x ∷ xs ≡ take (k + suc (length xs)) (memcpy k (x ∷ xs) b)
    taken_all = ap (λ t. t ++ x ∷ xs) e ∙ sym (take-memcpy k (x ∷ xs) b (omega (arith, fit, l)))

    whole : size ≤ k + suc (length xs) → have ++ (x ∷ xs ++ []) ≡ memcpy k (x ∷ xs) b
    whole m =
        ap (λ t. have ++ t) (append-nil (x ∷ xs))
        ∙ taken_all
        ∙ ap (λ j. take j (memcpy k (x ∷ xs) b)) (same m)
        ∙ take-length (memcpy k (x ∷ xs) b)
      where
        same : size ≤ k + suc (length xs) → k + suc (length xs) ≡ length (memcpy k (x ∷ xs) b)
        same m = omega (arith, fit, long, m)

-- If the kernel moves no more than it is asked to, then a run of `on_read` on a connection echoes:
-- what the connection held of a message and the bytes that come are, in order, the bytes it sends
-- and, when it returns, what it then holds. It sends nothing, or one whole message, unless the peer
-- closes in the middle of the writes or `write` has not taken all yet; and the cursor stays inside
-- a buffer of the size of a message.
pub on_read-Echoed :
    (size : ℕ) (c : Conn) (io : Calls)
    → IsConn size c
    → ReadsFit size c.cursor io.reads
    → WritesFit size 0 io.writes
    → Echoed size (pending c) io.reads io.sent (on_read size c io)
unfolding on_read
on_read-Echoed size c io v f g = go c.buffer refl
  where
    go :
        (o : Option (List ℕ))
        → c.buffer ≡ o
        → Echoed size (pending c) io.reads io.sent (
            read_loop size c.cursor
              (record c { buffer = with_buffer size o; event_count = c.event_count + 1 })
              io.reads
              io.writes
              io.sent)
    go none h =
        read_loop-Echoed size c.cursor _ (pending c) (replicate size 0) io.reads io.writes io.sent
          (omega arith) v.in_buffer refl (length-replicate size 0) nothing f g
      where
        nothing : pending c ≡ take c.cursor (replicate size 0)
        nothing =
            ap (λ j. take j (bytes_of c.buffer)) (v.empty h)
            ∙ ap (λ j. take j (replicate size 0)) (sym (v.empty h))
    go (some b) h =
        read_loop-Echoed size c.cursor _ (pending c) b io.reads io.writes io.sent (omega arith)
          v.in_buffer refl (v.sized b h) (ap (λ d. take c.cursor (bytes_of d)) h) f g
