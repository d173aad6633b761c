-- ===== src/Client/Io/Transfer.antt =====
-- What `client_send` and `client_recv` move, over the results of the calls that they make.
use upcalls.Prelude.{
  ℕ, ◌+◌, ◌≤◌, ◌<◌, ◌≡◌, ◌≢◌, refl, ap, inl, inr, Bool, true, false, Option, none, some, List, [],
  ◌∷◌, ◌++◌, map, arith, ltb, ltb→lt, ltb→le, ◌==◌, ==→eq, ne_of_==, Bool-cases,
}
use upcalls.Client.{Reply, ok, failed, eagain}
use upcalls.Client.Io.{send_loop, recv_loop}

abbrev pub sum : List ℕ → ℕ
sum [] = 0
sum (n ∷ ns) = n + sum ns

-- The kernel moves no more than it was asked to, at each call of the loop.
abbrev pub Fits : (len cursor : ℕ) → List Reply → Type 0
Fits len cursor (ok n ∷ rs) = (cursor + n ≤ len) × (cursor + n < len → Fits len (cursor + n) rs)
Fits len cursor _ = Unit {0}

-- How `client_send` ends, from `cursor` on: the calls moved exactly the rest of the buffer; or the
-- last of them failed; or it is still in one.
pub data Sent (len cursor : ℕ) (replies : List Reply) : Option (Bool × List Reply) → Type 0 where
  sent_all :
      (ns : List ℕ) (rest : List Reply)
      → replies ≡ map ok ns ++ rest
      → cursor + sum ns ≡ len
      → Sent len cursor replies (some (false, rest))
  send_failed :
      (ns : List ℕ) (e : ℕ) (rest : List Reply)
      → replies ≡ map ok ns ++ (failed e ∷ rest)
      → cursor + sum ns ≤ len
      → Sent len cursor replies (some (true, rest))
  send_blocked : (ns : List ℕ) → replies ≡ map ok ns → Sent len cursor replies none

-- How `client_recv` ends: all of the length is there; or some of it, and there is no more for now;
-- or a call failed, and 0 is returned whatever came before; or it is still in a call.
pub data Received (len cursor : ℕ) (replies : List Reply)
    : Option (ℕ × Bool × List Reply) → Type 0 where
  got_all :
      (ns : List ℕ) (rest : List Reply) (k : ℕ)
      → replies ≡ map ok ns ++ rest
      → cursor + sum ns ≡ k
      → k ≡ len
      → Received len cursor replies (some (k, false, rest))
  got_some :
      (ns : List ℕ) (rest : List Reply) (k : ℕ)
      → replies ≡ map ok ns ++ (failed eagain ∷ rest)
      → cursor + sum ns ≡ k
      → k ≤ len
      → Received len cursor replies (some (k, false, rest))
  recv_failed :
      (ns : List ℕ) (e : ℕ) (rest : List Reply)
      → replies ≡ map ok ns ++ (failed e ∷ rest)
      → e ≢ eagain
      → Received len cursor replies (some (0, true, rest))
  recv_blocked : (ns : List ℕ) → replies ≡ map ok ns → Received len cursor replies none

Sent-next :
    {len cursor : ℕ} (n : ℕ) {rs : List Reply} {o : Option (Bool × List Reply)}
    → Sent len (cursor + n) rs o
    → Sent len cursor (ok n ∷ rs) o
Sent-next n (sent_all ns rest e h) = sent_all (n ∷ ns) rest (ap (λ t. ok n ∷ t) e) (omega arith)
Sent-next n (send_failed ns c rest e h) =
    send_failed (n ∷ ns) c rest (ap (λ t. ok n ∷ t) e) (omega arith)
Sent-next n (send_blocked ns e) = send_blocked (n ∷ ns) (ap (λ t. ok n ∷ t) e)

Received-next :
    {len cursor : ℕ} (n : ℕ) {rs : List Reply} {o : Option (ℕ × Bool × List Reply)}
    → Received len (cursor + n) rs o
    → Received len cursor (ok n ∷ rs) o
Received-next n (got_all ns rest k e h l) =
    got_all (n ∷ ns) rest k (ap (λ t. ok n ∷ t) e) (omega arith) l
Received-next n (got_some ns rest k e h l) =
    got_some (n ∷ ns) rest k (ap (λ t. ok n ∷ t) e) (omega arith) l
Received-next n (recv_failed ns c rest e h) = recv_failed (n ∷ ns) c rest (ap (λ t. ok n ∷ t) e) h
Received-next n (recv_blocked ns e) = recv_blocked (n ∷ ns) (ap (λ t. ok n ∷ t) e)

-- If no call takes more than it is offered, `client_send` ends with every byte of its buffer sent
-- once, in order, without a failure; or after the first call that fails; or it is still in a call.
-- It uses up the results of its own calls and no others.
pub send_loop-Sent :
    (len cursor : ℕ) (replies : List Reply)
    → cursor ≤ len
    → Fits len cursor replies
    → Sent len cursor replies (send_loop len cursor replies)
unfolding send_loop
send_loop-Sent len cursor [] h f = send_blocked [] refl
send_loop-Sent len cursor (failed e ∷ rs) h f = send_failed [] e rs refl (omega arith)
send_loop-Sent len cursor (ok n ∷ rs) h (fit, next) = elim (Bool-cases (ltb (cursor + n) len)) [
  | inl e ↦ rw (e) (Sent-next n (send_loop-Sent len (cursor + n) rs fit (next (ltb→lt _ _ e))))
  | inr e ↦ rw (e) (sent_all (n ∷ []) rs refl (omega (arith, ltb→le _ _ e)))
]

-- If no call brings more than was asked for, `client_recv` returns the length once the calls have
-- brought all of it; or what they brought, when one fails with EAGAIN; or 0 and the worker dies,
-- when one fails otherwise; or it is still in a call. It uses up the results of its own calls and no
-- others.
pub recv_loop-Received :
    (len cursor : ℕ) (replies : List Reply)
    → cursor ≤ len
    → Fits len cursor replies
    → Received len cursor replies (recv_loop len cursor replies)
unfolding recv_loop
recv_loop-Received len cursor [] h f = recv_blocked [] refl
recv_loop-Received len cursor (failed c ∷ rs) h f = elim (Bool-cases (c == eagain)) [
  | inl e ↦ rw (e) (got_some [] rs cursor (ap (λ t. failed t ∷ rs) (==→eq _ _ e)) (omega arith) h)
  | inr e ↦ rw (e) (recv_failed [] c rs refl (ne_of_== _ _ e))
]
recv_loop-Received len cursor (ok n ∷ rs) h (fit, next) = elim (Bool-cases (ltb (cursor + n) len)) [
  | inl e ↦
      rw (e) (Received-next n (recv_loop-Received len (cursor + n) rs fit (next (ltb→lt _ _ e))))
  | inr e ↦
      rw (e) (got_all (n ∷ []) rs (cursor + n) refl (omega arith) (omega (arith, ltb→le _ _ e)))
]
