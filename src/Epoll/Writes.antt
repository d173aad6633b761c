-- ===== src/Epoll/Writes.antt =====
-- How the epoll server writes a message, and the bytes of a connection.
use upcalls.Prelude.{
  ℕ, suc, ◌+◌, ◌≤◌, ◌<◌, ◌≡◌, refl, sym, ◌∙◌, ap, none, some, List, [], ◌∷◌, ◌++◌, append_assoc,
  arith, ltb, if-cases, ltb→le, length, length-append, length-take, take, drop, take-drop,
  length-drop, take-length, take-length-append,
}
use upcalls.Echo.{memcpy}
use upcalls.Epoll.{
  Conn, Got, bytes, got_eof, got_eagain, got_error, Put, taken, put_eof, put_eagain, put_error,
  Calls, Ran, returned, closing, in_call, bytes_of, write_loop,
}

-- The bytes that reads bring.
abbrev pub flat : List Got → List ℕ
flat [] = []
flat (bytes b bs ∷ rs) = b ∷ bs ++ flat rs
flat (got_eof ∷ rs) = flat rs
flat (got_eagain ∷ rs) = flat rs
flat (got_error ∷ rs) = flat rs

-- The kernel moves no more than it is asked to.
abbrev pub ReadsFit : ℕ → ℕ → List Got → Type 0
ReadsFit size k [] = Unit {0}
ReadsFit size k (bytes b bs ∷ rs) =
    (k + suc (length bs) ≤ size) × ReadsFit size (k + suc (length bs)) rs
ReadsFit size k (got_eof ∷ rs) = Unit {0}
ReadsFit size k (got_eagain ∷ rs) = Unit {0}
ReadsFit size k (got_error ∷ rs) = Unit {0}

abbrev pub WritesFit : ℕ → ℕ → List Put → Type 0
WritesFit size k [] = Unit {0}
WritesFit size k (taken n ∷ ws) = (k + suc n ≤ size) × WritesFit size (k + suc n) ws
WritesFit size k (put_eof ∷ ws) = Unit {0}
WritesFit size k (put_eagain ∷ ws) = WritesFit size k ws
WritesFit size k (put_error ∷ ws) = WritesFit size k ws

-- The part of a message that a connection holds.
abbrev pub pending : Conn → List ℕ
pending c = take c.cursor (bytes_of c.buffer)

pub record IsConn (size : ℕ) (c : Conn) : Type 0 where
  pub in_buffer : c.cursor < size
  pub empty : c.buffer ≡ none → c.cursor ≡ 0
  pub sized : (b : List ℕ) → c.buffer ≡ some b → length b ≡ size

pub length-memcpy :
    (k : ℕ) (src b : List ℕ) → k + length src ≤ length b → length (memcpy k src b) ≡ length b
length-memcpy k src b h = omega (
  arith,
  length-append (take k b) (src ++ drop (k + length src) b),
  length-append src (drop (k + length src) b),
  length-drop (k + length src) b,
  length-take k b (omega arith),
)

pub take-memcpy :
    (k : ℕ) (src b : List ℕ)
    → k + length src ≤ length b
    → take (k + length src) (memcpy k src b) ≡ take k b ++ src
take-memcpy k src b h =
    ap (take (k + length src)) (sym (append_assoc (take k b) src (drop (k + length src) b)))
    ∙ ap (λ j. take j ((take k b ++ src) ++ drop (k + length src) b)) (sym long)
    ∙ take-length-append (take k b ++ src) (drop (k + length src) b)
  where
    long : length (take k b ++ src) ≡ k + length src
    long = omega (arith, length-append (take k b) src, length-take k b (omega arith))

-- How the message `b` is written after `sent`.
pub data Written (size : ℕ) (b : List ℕ) (rs : List Got) (sent : List ℕ) : Ran → Type 0 where
  all_written :
      {c : Conn} {io : Calls}
      → c.cursor ≡ 0
      → c.buffer ≡ some b
      → io.reads ≡ rs
      → io.sent ≡ sent ++ b
      → Written size b rs sent (returned c io)
  part_closed :
      {c : Conn} {io : Calls} (m : ℕ)
      → io.reads ≡ rs
      → io.sent ≡ sent ++ take m b
      → Written size b rs sent (closing c io)
  part_written :
      {c : Conn} {io : Calls} (m : ℕ)
      → io.reads ≡ rs
      → io.sent ≡ sent ++ take m b
      → Written size b rs sent (in_call c io)

pub write_loop-Written :
    (size k : ℕ) (c : Conn) (b : List ℕ) (rs : List Got) (ws : List Put) (sent more : List ℕ)
    → c.cursor ≡ 0
    → c.buffer ≡ some b
    → length b ≡ size
    → WritesFit size k ws
    → more ≡ sent ++ take k b
    → Written size b rs sent (write_loop size k c rs ws more)
unfolding write_loop
write_loop-Written size k c b rs [] sent more z h l f e = part_written k refl e
write_loop-Written size k c b rs (put_eof ∷ ws) sent more z h l f e = part_closed k refl e
write_loop-Written size k c b rs (put_eagain ∷ ws) sent more z h l f e =
    write_loop-Written size k c b rs ws sent more z h l f e
write_loop-Written size k c b rs (put_error ∷ ws) sent more z h l f e =
    write_loop-Written size k c b rs ws sent more z h l f e
write_loop-Written size k c b rs (taken n ∷ ws) sent more z h l (fit, f) e =
    if-cases (Written size b rs sent) (ltb (k + suc n) size)
      (λ t. write_loop-Written size (k + suc n) c b rs ws sent _ z h l f next)
      (λ t. all_written z h refl (next ∙ ap (λ x. sent ++ x) (whole (ltb→le _ _ t))))
  where
    next : more ++ take (suc n) (drop k (bytes_of c.buffer)) ≡ sent ++ take (k + suc n) b
    next =
        ap (λ x. more ++ take (suc n) (drop k (bytes_of x))) h
        ∙ ap (λ x. x ++ take (suc n) (drop k b)) e
        ∙ append_assoc sent (take k b) (take (suc n) (drop k b))
        ∙ ap (λ x. sent ++ x) (take-drop k (suc n) b)

    whole : size ≤ k + suc n → take (k + suc n) b ≡ b
    whole m = ap (λ j. take j b) (same m) ∙ take-length b
      where
        same : size ≤ k + suc n → k + suc n ≡ length b
        same m = omega (arith, fit, l)
